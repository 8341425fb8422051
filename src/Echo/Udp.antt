-- ===== src/Echo/Udp.antt =====
-- NETS/UDP_ECHO/udp_server.c and udp_client.c. What is printed is left out.
pub mod Laws
use eltex_courses_homeworks.Prelude.{
  require, ℕ, ◌-◌, Bool, true, false, Option, none, some, List, [], ◌∷◌, ◌++◌, ◌==◌, if◌then◌else◌,
  codes, receive, string_of, Outcome, done, exit, ◌>>=◌, ◌>>◌, exit_failure,
}
use eltex_courses_homeworks.Echo.Answer.{buf_size, answer}

-- `serv_str` without its zero, and the `len` that bounds what `strncat` appends.
abbrev pub serv_str : List ℕ
serv_str = codes "server booo"

abbrev pub len : ℕ
len = buf_size - 1 - 12

-- The results of `socket` and `bind`.
unfoldable pub start : Bool → Bool → Outcome (Unit {0})
start socket_ok bind_ok = do require socket_ok; require bind_ok

-- What `recvfrom` gives, -1 being `none`, and whether `sendto` succeeds.
pub record Turn : Type 0 where
  pub received : Option (List ℕ)
  pub send_ok : Bool

-- The buffer, and the datagrams sent.
pub record Server : Type 0 where
  pub buf : List ℕ
  pub sent : List (List ℕ)

abbrev pub send_back : Bool → List ℕ → Server → Outcome Server
send_back true buf s = done (record { buf = buf; sent = s.sent ++ (buf ∷ []) })
send_back false buf s = exit exit_failure

-- The message transformation: without room for `serv_str` the message is sent back as it is.
unfoldable pub transform : List ℕ → List ℕ → Outcome (List ℕ)
unfolding answer
transform bytes buf =
    if len == 0
    then (do let received = receive bytes buf; _ ← string_of received; done received)
    else answer serv_str bytes buf

-- One pass through the loop of the server.
unfoldable pub serve : Turn → Server → Outcome Server
unfolding transform
serve turn s = elim turn.received [
  | none ↦ done s
  | some bytes ↦ do buf ← transform bytes s.buf; send_back turn.send_ok buf s
]

unfoldable pub serve_all : List Turn → Server → Outcome Server
serve_all [] s = done s
serve_all (t ∷ ts) s = do s' ← serve t s; serve_all ts s'

-- The result of the client's `socket`.
abbrev pub client_start : Bool → Outcome (Unit {0})
client_start socket_ok = require socket_ok

-- The client sends `strlen (data_to_send)` bytes, without the zero.
abbrev pub data_to_send : List ℕ
data_to_send = codes "Hi Ilya"

-- The client's buffer and the strings it has printed. An answer of `none` is a result of -1 of
-- `sendto` or of `recvfrom`: the loop goes on.
pub record Client : Type 0 where
  pub buf : List ℕ
  pub printed : List (List ℕ)

unfoldable pub client_pass : Option (List ℕ) → Client → Outcome Client
client_pass none c = done c
client_pass (some bytes) c = do
  let buf = receive bytes c.buf
  s ← string_of buf
  done (record { buf = buf; printed = c.printed ++ (s ∷ []) })
