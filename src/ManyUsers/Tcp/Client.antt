-- ===== src/ManyUsers/Tcp/Client.antt =====
-- NETS/multi-user TCP_ECHO/client.c. What is printed is kept as the strings of the messages; the
-- texts about failures and the pauses are left out.
use eltex_courses_homeworks.Prelude.{
  ℕ, Bool, Option, none, some, List, [], ◌∷◌, ◌++◌, if◌then◌else◌, codes, receive, string_of,
  Outcome, done, require, ◌>>=◌, ◌>>◌,
}

-- The results of `socket` and `connect`.
unfoldable pub start : Bool → Bool → Outcome (Unit {0})
start socket_ok connect_ok = do require socket_ok; require connect_ok

-- `sizeof (message_to)` is the size of a pointer: 8, which is the text with its zero.
abbrev pub message_to : List ℕ
message_to = codes "Hi Ilya" ++ (0 ∷ [])

pub record Client : Type 0 where
  pub message_from : List ℕ
  pub sent : List (List ℕ)
  pub printed : List (List ℕ)

-- `printf ("%s\n", message_from)`
unfoldable pub print : Client → Outcome Client
print c = do s ← string_of c.message_from; done (record c { printed = c.printed ++ (s ∷ []) })

-- The first `recv`, whose result is not looked at: -1 is `none`.
unfoldable pub greeted : Option (List ℕ) → Client → Outcome Client
unfolding print
greeted none c = print c
greeted (some bytes) c = print (record c { message_from = receive bytes c.message_from })

-- Whether `send` sends the whole message, and what `recv` gives.
pub record Turn : Type 0 where
  pub send_ok : Bool
  pub received : Option (List ℕ)

-- One pass through the loop: after a failure of `send` it goes on.
unfoldable pub client_pass : Turn → Client → Outcome Client
unfolding print
client_pass turn c =
    let sent = if turn.send_ok then c.sent ++ (message_to ∷ []) else c.sent in
    elim turn.received [
      | none ↦ done (record c { sent = sent })
      | some bytes ↦ print (record c { sent = sent; message_from = receive bytes c.message_from })
    ]

unfoldable pub passes : List Turn → Client → Outcome Client
unfolding client_pass
passes [] c = done c
passes (turn ∷ turns) c = do c' ← client_pass turn c; passes turns c'

-- The client once it is connected.
unfoldable pub connected : Option (List ℕ) → List Turn → Client → Outcome Client
unfolding greeted passes
connected first turns c = do c' ← greeted first c; passes turns c'

-- The messages that it receives in the loop.
abbrev pub delivered : List Turn → List (List ℕ)
delivered [] = []
delivered (turn ∷ turns) = elim turn.received [
  | none ↦ delivered turns
  | some bytes ↦ bytes ∷ delivered turns
]
