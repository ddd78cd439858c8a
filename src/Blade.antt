-- ===== src/Blade.antt =====
-- The commands of a Blade (src/token/JubiterBladeToken.cpp), and the handshake of a Lite
-- (src/token/JubiterLiteToken.cpp).
pub mod BtcData
pub mod Btc
pub mod MultiSig
pub mod Send
pub mod TranPack
pub mod Packs
pub mod Packets
pub mod Commands
pub mod Tokens
pub mod Handshake
pub mod Answers
mod Tests
