-- ===== src/Cpp.antt =====
-- The C++ client, cpp/libtstorageclient++: another implementation of the protocol, in one buffer of
-- a fixed size.
pub mod DataTypes
pub mod Buffer
pub mod Serializer
pub mod Batch
pub mod Socket
pub mod ChannelImpl
pub mod Channel
