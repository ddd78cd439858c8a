-- ===== src/Pb.antt =====
-- Protocol buffers (pbparse/): base 128 varints, and fields with a tag, a length and a value.
pub mod Varint
pub mod VarintRoundTrip
pub mod Field
pub mod FieldRoundTrip
mod Tests
