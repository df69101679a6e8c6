-- ===== src/Storage.antt =====
-- implementations/cpp/storage_engines_breakdown.cpp: the log-structured engine. A key or a value is a
-- list of bytes.
pub mod Bitcask
mod Tests
