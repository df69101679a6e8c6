-- ===== src/Queues.antt =====
-- implementations/cpp/stacks_and_queues.cpp: a module for each class. The linked queue has its nodes
-- on an explicit heap, since two of its pointers reach the last node.
pub mod ArrayStack
pub mod LinkedStack
pub mod LinkedQueue
pub mod LinkedChain
pub mod LinkedLaws
pub mod LinkedClear
pub mod CircularQueue
mod Tests
