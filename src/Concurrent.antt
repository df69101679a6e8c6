-- ===== src/Concurrent.antt =====
-- implementations/cpp/concurrent_queues_and_stacks.cpp: a stack that threads share without locks, and
-- the reclaimer that frees its nodes. Memory is taken as sequentially consistent.
pub mod Reclaimer
pub mod TreiberStack
mod Tests
