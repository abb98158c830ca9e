-- ===== src/Xfer.antt =====
-- The transfer buffer of mpsrc/wavy_out.cc and mp/wavy.hmpl: classes xfer and xfer_impl.
pub mod Bytes
pub mod Command
pub mod Codec
pub mod Items
pub mod Execute
pub mod Progress
pub mod Ran
pub mod Order
pub mod Buffer
pub mod Push
pub mod Clear
pub mod Ops
