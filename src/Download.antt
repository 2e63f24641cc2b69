-- ===== src/Download.antt =====
-- The download of firmware and COS scripts (tms_extns/tms-cos-dl/tms-cos-dl-common).
pub mod Hex
pub mod Limit
pub mod Nci
pub mod Script
pub mod Buffer
pub mod Parse
pub mod Exec
pub mod Apdu
pub mod Text
mod Tests
