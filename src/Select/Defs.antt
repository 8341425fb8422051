-- ===== src/Select/Defs.antt =====
-- `main` of NETS/select/tcp_udp_server.c over the results of its calls.
use eltex_courses_homeworks.Prelude.{
  ℕ, Bool, true, Option, none, some, List, [], ◌∷◌, ◌++◌, if◌then◌else◌, codes, Outcome, done, exit,
  require, exit_failure, ◌>>=◌, ◌>>◌,
}

-- Whether the calls before the loop succeed, in their order.
pub record Setup : Type 0 where
  pub tcp_ok : Bool
  pub tcp_bind_ok : Bool
  pub listen_ok : Bool
  pub udp_ok : Bool
  pub udp_bind_ok : Bool

unfoldable pub start : Setup → Outcome (Unit {0})
start setup = do
  require setup.tcp_ok
  require setup.tcp_bind_ok
  require setup.listen_ok
  require setup.udp_ok
  require setup.udp_bind_ok

abbrev pub send_message_tcp : List ℕ
send_message_tcp = codes "U TCP" ++ (0 ∷ [])

abbrev pub send_message_udp : List ℕ
send_message_udp = codes "U UDP" ++ (0 ∷ [])

-- A connection that `accept` gives: its descriptor and the address of the client.
pub record Accepted : Type 0 where
  pub cfd : ℕ
  pub addr : ℕ

-- What the calls of a pass give, -1 being `none`: which of the two sockets `select` leaves in
-- `rfds`, first the TCP one; the connection; and the address that a datagram has come from.
pub record Turn : Type 0 where
  pub retval : Option (Bool × Bool)
  pub accepted : Option Accepted
  pub received : Option ℕ

-- A call of `send` on a descriptor or of `sendto` to an address. Their results are not looked at.
pub data Sent : Type 0 where
  on_fd : (cfd : ℕ) (message : List ℕ) → Sent
  to_addr : (addr : ℕ) (message : List ℕ) → Sent

-- `client_addr`, which both kinds of clients share, and the messages sent.
pub record Server : Type 0 where
  pub client_addr : ℕ
  pub sent : List Sent

-- `rfds` after `select`; where it fails the sets stay as they were, with both sockets.
abbrev pub rfds : Option (Bool × Bool) → Bool × Bool
rfds none = (true, true)
rfds (some ready) = ready

abbrev pub serve_tcp : Option Accepted → Server → Outcome Server
serve_tcp none s = exit exit_failure
serve_tcp (some a) s =
    done (record { client_addr = a.addr; sent = s.sent ++ (on_fd a.cfd send_message_tcp ∷ []) })

-- A `recvfrom` that fails leaves the address as it was.
abbrev pub serve_udp : Option ℕ → Server → Server
serve_udp none s = record s { sent = s.sent ++ (to_addr s.client_addr send_message_udp ∷ []) }
serve_udp (some addr) s = record {
  client_addr = addr;
  sent = s.sent ++ (to_addr addr send_message_udp ∷ []);
}

-- One pass through the loop, and several.
unfoldable pub serve : Turn → Server → Outcome Server
serve turn s = do
  let ready = rfds turn.retval
  s₁ ← (if ready.0 then serve_tcp turn.accepted s else done s)
  (if ready.1 then done (serve_udp turn.received s₁) else done s₁)

unfoldable pub serve_all : List Turn → Server → Outcome Server
serve_all [] s = done s
serve_all (t ∷ ts) s = do s' ← serve t s; serve_all ts s'
