-- ===== src/Echo/Tcp.antt =====
-- NETS/TCP_ECHO/server.c and client.c. What is printed is kept as the strings printed; the messages
-- about failures and the pauses are left out.
pub mod Laws
use eltex_courses_homeworks.Prelude.{
  require, ℕ, zero, suc, Bool, true, false, Option, none, some, List, [], ◌∷◌, ◌++◌, if◌then◌else◌,
  codes, receive, string_of, Outcome, done, exit, ◌>>=◌, ◌>>◌,
}
use eltex_courses_homeworks.Echo.Answer.{buf_size, answer}

-- What the server appends, without its zero.
abbrev pub server_text : List ℕ
server_text = codes ", server was here"

-- The results of `socket`, `bind`, `listen` and `accept`.
unfoldable pub start : Bool → Bool → Bool → Bool → Outcome (Unit {0})
start socket_ok bind_ok listen_ok accept_ok = do
  require socket_ok
  require bind_ok
  require listen_ok
  require accept_ok

-- What `recv` gives, -1 being `none` and the end of the connection no byte, and whether `send` sends
-- the whole buffer.
pub record Turn : Type 0 where
  pub received : Option (List ℕ)
  pub send_ok : Bool

-- The buffer, and the messages sent.
pub record Server : Type 0 where
  pub message : List ℕ
  pub sent : List (List ℕ)

-- One pass through the loop of the server.
unfoldable pub serve : Turn → Server → Outcome Server
unfolding answer
serve turn s = elim turn.received [
  | none ↦ done s
  | some bytes ↦ do
    message ← answer server_text bytes s.message
    done (record {
      message = message;
      sent = if turn.send_ok then s.sent ++ (message ∷ []) else s.sent;
    })
]

-- The results of the client's `socket` and `connect`.
unfoldable pub client_start : Bool → Bool → Outcome (Unit {0})
client_start socket_ok connect_ok = do require socket_ok; require connect_ok

-- The client sends `sizeof (message_to)` bytes, the size of a pointer: 8, which is the text with its
-- zero.
abbrev pub message_to : List ℕ
message_to = codes "Hi Ilya" ++ (0 ∷ [])

-- The client's buffer, and the strings it has printed.
pub record Client : Type 0 where
  pub message_from : List ℕ
  pub printed : List (List ℕ)

-- One pass through the loop of the client, with what `recv` gives.
unfoldable pub client_pass : Option (List ℕ) → Client → Outcome Client
client_pass none c = done c
client_pass (some bytes) c = do
  let message_from = receive bytes c.message_from
  s ← string_of message_from
  done (record { message_from = message_from; printed = c.printed ++ (s ∷ []) })

-- The client and the server, when each message arrives whole: the client sends, the server answers,
-- and the client receives the answer.
unfoldable pub dialogue : ℕ → Client → Server → Outcome (Client × Server)
unfolding serve client_pass
dialogue zero c s = done (c, s)
dialogue (suc n) c s = do
  s' ← serve (record { received = some message_to; send_ok = true }) s
  c' ← client_pass (some s'.message) c
  dialogue n c' s'
