-- ===== src/ServerQueue.antt =====
-- NETS/server_queue/: a TCP and UDP server that queues requests, and a pool of threads that serves
-- them.
pub mod Msgbuf
pub mod Pool
pub mod Server
pub mod System
mod Tests
