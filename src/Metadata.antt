-- ===== src/Metadata.antt =====
-- The package metadata_manager/: namespaces, and nodes of Zookeeper behind loops of tries.
pub mod Namespace
pub mod Zookeeper
pub mod Retry
pub mod Manager
pub mod Tree
