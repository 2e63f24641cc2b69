-- ===== src/Ese.antt =====
-- The ISO 7816-3 T=1 stack of vnd/opensource/halimpl/tms_extns/7816-3-T1.
pub mod Types
pub mod Epilogue
pub mod Frame
pub mod RecvList
pub mod Recovery
pub mod Decode
pub mod Phy
pub mod Send
pub mod Read
pub mod Transceive
pub mod Invariant
pub mod Driver
pub mod Api
mod Tests
