-- ===== src/Apdu.antt =====
-- The commands and responses of a device (include/utility/Apdu.hpp) and the builder that encrypts
-- and decrypts them (src/device/ApduBuilder.cpp).
pub mod Format
pub mod Parse
pub mod Response
pub mod Builder
pub mod Exchange
pub mod Card
pub mod Command
pub mod Answer
pub mod Session
pub mod Errors
mod Tests
