-- ===== src/ServerQueue/System.antt =====
-- The server and its pool of NETS/server_queue/ together: the main thread and `n` service threads,
-- which take turns in any order.
pub mod Defs
pub mod Invariant
pub mod Safety
pub mod Abstract
pub mod Hands
pub mod Refines
pub mod Resting
pub mod Draining
