-- ===== src/ManyUsers.antt =====
-- NETS/multi-user UDP_ECHO/: a server that forks a process for each client, and the client.
pub mod Begins
pub mod Client
pub mod Defs
pub mod Greeting
pub mod Replies
pub mod Sizes
pub mod Tcp
mod Tests
