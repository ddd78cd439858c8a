-- ===== src/Gpc.antt =====
-- The GlobalPlatform secure channel (gpc/): tag-length-value buffers, certificates, the encryption of
-- the channel, its keys, and the session that opens it.
pub mod TlvBuf
pub mod TagParse
pub mod Certificate
mod Tests
pub mod Scp03
pub mod Kdf
pub mod Session
