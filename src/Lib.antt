-- ===== src/Lib.antt =====
-- Verification of the C++ reference implementations of implementations/cpp. Each of these files is
-- one program: its classes or functions, and a `main` that tries them. They share no code, so the
-- modules here share only Prelude, and each top-level module is about one file:
--
--   Avl          implementations/cpp/avl_tree.cpp, class AVLTree
--   Bst          implementations/cpp/binary_search_tree.cpp, class BinarySearchTree
--   Pairing      implementations/cpp/pairing_heap.cpp, class PairingHeap
--   Queues       implementations/cpp/stacks_and_queues.cpp, classes ArrayStack, LinkedStack,
--                LinkedQueue and CircularQueue
--   Distributed  implementations/cpp/distributed_state_engines.cpp, classes VectorClock, RaftServer
--                and RaftClusterSimulation
--   Traversals   implementations/cpp/tree_traversals.cpp, the traversals of binary and n-ary trees
--   Merkle       implementations/cpp/merkle_trees.cpp, classes SHA256 and MerkleTree
--   TextBuffers  implementations/cpp/ropes_gap_buffers_piece_tables.cpp, classes GapBuffer and
--                PieceTable
--   Concurrent   implementations/cpp/concurrent_queues_and_stacks.cpp, classes EpochReclaimer and
--                TreiberStack
--   Storage      implementations/cpp/storage_engines_breakdown.cpp, class BitcaskEngine
--
-- The module named here holds the definitions, or its children do where a file has several classes;
-- the other children are named for what they prove, and Tests holds runs and the instances of the
-- theorems. A definition has the name of the method, function or struct that it models.
--
-- State. A node that owns its children, through pointers that nothing else holds, is a tree, and null
-- is its empty case. A class is a record of its fields, and a method that changes it returns the new
-- record. LinkedQueue shares a node between two pointers, so it has an explicit heap, with addresses
-- that `new` never returns twice; so has TreiberStack, where `new` may return a freed address again. A vector is a list. An `unordered_map` is an association
-- list, whose order no theorem depends on.
--
-- Types. Template parameters are types here too; keys are compared by an instance of Prelude.Order,
-- whose laws are those of a strict total order with its equality, and the values of the pairing heap
-- by one of Prelude.Priority. Where the code has `int` keys that are only compared, the key type is
-- any such type. Server ids and commands of Raft, strings in the code, are any types.
--
-- Texts. A character or a byte is a number, and a string a list of them.
--
-- Threads. The shared stack is a relation of steps, each with one access of shared memory, which any
-- thread may take at any time; memory is sequentially consistent. The reclaimer is modelled call by
-- call; that a node which a thread inside `pop` holds is not freed is the condition of the step that
-- frees a node of the stack.
--
-- Numbers. Sizes, heights, indices and terms are natural numbers without a bound: they count nodes
-- or entries in memory, or calls. A balance factor is an integer. The `uint64_t` counts of a vector
-- clock, the epochs and counts of the reclaimer and the counts of the Bitcask engine wrap at 2^64, the
-- words of SHA-256 at 2^32, and the lengths in a record of the engine at 2^16 and 2^32.
--
-- Results. A call that can fail gives an Outcome: it returns, it throws, or it faults where the
-- behaviour of the code is undefined, as in a read outside a vector or through a dangling pointer.
--
-- Loops. A walk down a tree is recursion on the tree, and a loop over a vector recursion on the list.
-- `apply_to_state_machine` runs for the difference of its two indices. `drain`, the loop that empties
-- a pairing heap, and the loops of the traversals have fuel; their theorems show that the number of
-- elements, or of levels, is enough; so has `clear` of LinkedQueue. The levels of a Merkle tree are
-- built with the number of leaves as fuel, and the padding of SHA-256 with 64 rounds.
--
-- Not modelled: destructors and the freeing of memory, except where a queue or a stack frees
-- nodes; copies; printing; the `main` functions; the consistent hash ring of
-- distributed_state_engines.cpp; failed assertions, outside which the operations are used;
-- MichaelScottQueue of concurrent_queues_and_stacks.cpp;
-- the page and LSM engines of storage_engines_breakdown.cpp; and the other files of implementations/cpp.
pub mod Avl
pub mod Bst
pub mod Concurrent
pub mod Distributed
pub mod Merkle
pub mod Pairing
pub mod Prelude
pub mod Queues
pub mod Storage
pub mod TextBuffers
pub mod Traversals
