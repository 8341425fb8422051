-- ===== src/Select.antt =====
-- NETS/select/tcp_udp_server.c: a server that waits on a TCP and on a UDP socket with `select`.
pub mod Defs
pub mod Answers
mod Tests
