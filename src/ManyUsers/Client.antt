-- ===== src/ManyUsers/Client.antt =====
-- NETS/multi-user UDP_ECHO/client.c. What is printed is kept as the strings of the messages; the
-- other texts and the pauses are left out.
use eltex_courses_homeworks.Prelude.{
  ℕ, Bool, Option, none, some, List, [], ◌∷◌, ◌++◌, if◌then◌else◌, codes, receive, string_of,
  Outcome, done, require, ◌>>=◌, ◌>>◌,
}

abbrev pub data_to_send : List ℕ
data_to_send = codes "Hi!" ++ (0 ∷ [])

abbrev pub application : List ℕ
application = codes "Pls, give me new process" ++ (0 ∷ [])

-- The client: its buffer, the messages sent, and the strings printed.
pub record Client : Type 0 where
  pub buf : List ℕ
  pub sent : List (List ℕ)
  pub printed : List (List ℕ)

-- The results of `socket`, of the first `sendto` and of the first `recvfrom`, which stores none of
-- the message, so that only the address of the server changes.
unfoldable pub start : Bool → Bool → Bool → Client → Outcome Client
start socket_ok send_ok received_ok c = do
  require socket_ok
  require send_ok
  require received_ok
  done (record c { sent = c.sent ++ (application ∷ []) })

-- Whether `sendto` succeeds, and what `recvfrom` gives, -1 being `none`.
pub record Turn : Type 0 where
  pub send_ok : Bool
  pub received : Option (List ℕ)

-- What `recvfrom` leaves in the buffer; its result is not looked at.
abbrev pub store : Option (List ℕ) → List ℕ → List ℕ
store none buf = buf
store (some bytes) buf = receive bytes buf

-- `printf ("%s\n", buf)`, after a message has been sent and the buffer written.
unfoldable pub exchange : Option (List ℕ) → Client → Outcome Client
exchange received c =
    let buf = store received c.buf in
    do
      s ← string_of buf
      done (record {
        buf = buf;
        sent = c.sent ++ (data_to_send ∷ []);
        printed = c.printed ++ (s ∷ []);
      })

-- One pass through the loop.
unfoldable pub client_pass : Turn → Client → Outcome Client
unfolding exchange
client_pass turn c = let sends = exchange turn.received c in if turn.send_ok then sends else done c

unfoldable pub passes : List Turn → Client → Outcome Client
unfolding client_pass
passes [] c = done c
passes (turn ∷ turns) c = do c' ← client_pass turn c; passes turns c'

-- What the calls of `recvfrom` in the loop give.
abbrev pub delivered : List Turn → List (Option (List ℕ))
delivered [] = []
delivered (turn ∷ turns) = if turn.send_ok then turn.received ∷ delivered turns else delivered turns
