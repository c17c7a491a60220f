-- ===== src/Examples.antt =====
-- The development at concrete inputs: an allocator that always has memory, streams over lists of
-- bytes, records with a payload of bytes, and a network; each theorem's hypotheses hold there.
pub mod Setup
pub mod Output
pub mod Input
pub mod CppSetup
pub mod CppClient
