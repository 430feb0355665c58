-- ===== src/Rollback/Log.antt =====
-- platform/rollback.c, the run-length encoded log: PortRbEncodeLog, PortRbDecodeLog. The definitions
-- are those of the two children.
pub mod Encode
pub mod Decode
pub mod Runs
pub mod Fill
pub mod Parts
pub mod RoundTrip
