-- ===== src/ServerQueue/Msgbuf.antt =====
-- NETS/server_queue/msgbuf_struct.h.
use eltex_courses_homeworks.Prelude.{ℕ, List, [], ◌∷◌, codes, ◌++◌}

abbrev pub msg_size : ℕ
msg_size = 80

abbrev pub tcp_request : ℕ
tcp_request = 1

abbrev pub udp_request : ℕ
udp_request = 2

-- `client_data_t`: the member of the union that was written last.
pub data ClientData : Type 0 where
  fd : ℕ → ClientData
  client_addr : ℕ → ClientData

-- `struct msgbuf`; its `data` is the field `client`.
pub record Msgbuf : Type 0 where
  pub mtype : ℕ
  pub mtext : List ℕ
  pub client : ClientData

-- What has been sent, and to whom: on a connected socket, or to an address.
pub data Packet : Type 0 where
  on_socket : ℕ → List ℕ → Packet
  to_addr : ℕ → List ℕ → Packet

-- `"PIIIP"` and `"POOP"` with the zero that `sizeof` counts.
abbrev pub tcp_message : List ℕ
tcp_message = codes "PIIIP" ++ (0 ∷ [])

abbrev pub udp_message : List ℕ
udp_message = codes "POOP" ++ (0 ∷ [])
