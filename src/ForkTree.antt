-- ===== src/ForkTree.antt =====
-- fork/fork_tree/six_forks.c: a process that makes a tree of five more, and waits for them.
pub mod Defs
pub mod Invariant
pub mod Ends
mod Tests
