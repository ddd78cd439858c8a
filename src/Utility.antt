-- ===== src/Utility.antt =====
-- The helpers of src/utility/util.cpp.
pub mod Tlv
pub mod TlvRoundTrip
pub mod Hex
pub mod HexRoundTrip
mod Tests
