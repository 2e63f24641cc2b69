-- ===== src/Config.antt =====
-- The configuration files of the NFC HAL (nfc/THN31/halimpl/utils/TmsConfig.cc).
pub mod Names
pub mod Registers
pub mod Store
pub mod Read
pub mod Files
mod Tests
