-- ===== src/Storage.antt =====
-- src/storage/storage-engine.cpp: the trie of key components, the engine over RocksDB, and what
-- the two promise.
pub mod Trie
pub mod Engine
pub mod Read
pub mod Scan
pub mod Prefixes
pub mod Written
pub mod Sound
pub mod Histories
pub mod Facade
