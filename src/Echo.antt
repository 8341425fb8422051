-- ===== src/Echo.antt =====
-- NETS/TCP_ECHO/ and NETS/UDP_ECHO/: servers that send a message back with a text of their own, and
-- their clients.
pub mod Answer
pub mod Tcp
pub mod Udp
mod Tests
