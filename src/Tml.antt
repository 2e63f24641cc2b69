-- ===== src/Tml.antt =====
-- The transport layer of the NFC HAL (nfc/THN31/halimpl/tml).
pub mod MessageQueue
pub mod Timer
pub mod Transport
mod Tests
