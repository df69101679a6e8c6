-- ===== src/Distributed.antt =====
-- implementations/cpp/distributed_state_engines.cpp: vector clocks, and the replicated log of Raft
-- with its cluster simulation.
pub mod Clock
pub mod Raft
mod Tests
