-- ===== src/RawSockets.antt =====
-- NETS/raw_socket_udp_client/client.c and NETS/raw_socket_l3/client.c: Packet has the packet that
-- they fill, Client the calls of `main`. Bytes and Filled are about the packet, Exchange about what
-- they print of an answer.
pub mod Packet
pub mod Bytes
pub mod Filled
pub mod Client
pub mod Exchange
mod Tests
