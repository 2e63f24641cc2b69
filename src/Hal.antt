-- ===== src/Hal.antt =====
-- The HAL service of the secure element (secure_element/1.0), over the SE API.
pub mod SecureElement
mod Stack
mod Tests
