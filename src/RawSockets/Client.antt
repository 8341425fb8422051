-- ===== src/RawSockets/Client.antt =====
-- `main` of NETS/raw_socket_udp_client/client.c and NETS/raw_socket_l3/client.c.
use eltex_courses_homeworks.Prelude.{
  ℕ, Bool, Option, none, some, List, [], ◌∷◌, ◌==◌, if◌then◌else◌, receive, string_of, Outcome,
  done, exit, ◌>>=◌, ◌>>◌, exit_failure, require,
}
use eltex_courses_homeworks.RawSockets.Packet.{ip_header_len, read16, from, filled, filled_l3}

-- Whether the calls succeed, what the packet holds before it is filled, and what each `recvfrom`
-- gives, -1 being `none`.
pub record Calls : Type 0 where
  pub socket_ok : Bool
  pub setsockopt_ok : Bool
  pub send_ok : Bool
  pub uninitialised : List ℕ
  pub received : List (Option (List ℕ))

-- What a client has come to: it still waits, or it has printed a string and exits with success.
pub data Ending : Type 0 where
  waiting : Ending
  printed : List ℕ → Ending

-- The string behind both headers.
abbrev pub print : List ℕ → Outcome Ending
print packet = do s ← string_of (from 28 packet); done (printed s)

-- The loop, that ends with a packet from the port of the server.
unfoldable pub await : List (Option (List ℕ)) → List ℕ → Outcome Ending
await [] packet = done waiting
await (none ∷ received) packet = exit exit_failure
await (some bytes ∷ received) packet =
    let packet' = receive bytes packet in
    let rest = await received packet' in
    if read16 ip_header_len packet' == 1414 then print packet' else rest

unfoldable pub udp_client : Calls → Outcome Ending
udp_client calls = do
  require calls.socket_ok
  let packet = filled calls.uninitialised
  require calls.send_ok
  await calls.received packet

unfoldable pub l3_client : Calls → Outcome Ending
l3_client calls = do
  require calls.socket_ok
  require calls.setsockopt_ok
  let packet = filled_l3 calls.uninitialised
  require calls.send_ok
  await calls.received packet
