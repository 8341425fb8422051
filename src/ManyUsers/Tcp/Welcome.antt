-- ===== src/ManyUsers/Tcp/Welcome.antt =====
-- What the client of NETS/multi-user TCP_ECHO/ prints of the messages of its process in the server.
use eltex_courses_homeworks.Prelude.{
  ℕ, ◌≤◌, ◌≡◌, ◌∙◌, refl, sym, ap, none, some, inl, inr, List, [], ◌∷◌, ◌++◌, map, codes, length,
  arith, receive, length-receive, if◌then◌else◌, NoZero, done, Option-cases, All, true, ◌>>◌,
}
use mathlib.Core.Path.{subst}
use mathlib.Core.List.{append_assoc, append-nil}
use eltex_courses_homeworks.ManyUsers.Begins.{Begins, receive-Begins, string_of-Begins, All-prefix}
use eltex_courses_homeworks.ManyUsers.Tcp.{send_from_serv, Child, System, first, Reach}
use eltex_courses_homeworks.ManyUsers.Tcp.Client.{
  start, message_to, Client, print, greeted, Turn, client_pass, passes, connected, delivered,
}
use eltex_courses_homeworks.ManyUsers.Tcp.Replies.{echoes, Reach-echoes}

abbrev pub hi : List ℕ
hi = codes "Hi Ilya"

-- The echoes of the client's message begin with it.
echoes-Begins :
    (buf : List ℕ) (ms : List (List ℕ))
    → All (λ m. m ≡ message_to) ms
    → 8 ≤ length buf
    → All (Begins hi) (echoes buf ms)
echoes-Begins buf [] held room = tt
echoes-Begins buf (m ∷ ms) (now, held) room = (
  receive-Begins hi m buf ([], now) (omega arith),
  echoes-Begins (receive m buf) ms held (omega (arith, length-receive m buf)),
)

-- A buffer that begins with a string is printed as the string.
print-Begins :
    (text : List ℕ) (c : Client)
    → NoZero text
    → Begins text c.message_from
    → print c ≡ done (record c { printed = c.printed ++ (text ∷ []) })
unfolding print
print-Begins text c plain held = rw (string_of-Begins text c.message_from plain held) refl

-- A pass whose message begins with the client's.
client_pass-Begins :
    (turn : Turn) (c : Client) (m : List ℕ)
    → turn.received ≡ some m
    → Begins hi m
    → 8 ≤ length c.message_from
    → (c' : Client) × (client_pass turn c ≡ done c')
      × (c'.printed ≡ c.printed ++ (hi ∷ []))
      × (length c'.message_from ≡ length c.message_from)
unfolding client_pass
client_pass-Begins turn c m e held room =
    let now : Client = record c {
      sent = if turn.send_ok then c.sent ++ (message_to ∷ []) else c.sent;
      message_from = receive m c.message_from;
    } in
    (
      record now { printed = c.printed ++ (hi ∷ []) },
      rw e (
          print-Begins hi now (omega arith)
            (receive-Begins hi m c.message_from held (omega arith))),
      refl,
      length-receive m c.message_from,
    )

delivered-none :
    (turn : Turn) (turns : List Turn)
    → turn.received ≡ none
    → delivered (turn ∷ turns) ≡ delivered turns
delivered-none turn turns e = rw e refl

delivered-some :
    (turn : Turn) (turns : List Turn) {m : List ℕ}
    → turn.received ≡ some m
    → delivered (turn ∷ turns) ≡ m ∷ delivered turns
delivered-some turn turns e = rw e refl

passes-prints :
    (turns : List Turn) (c : Client)
    → All (Begins hi) (delivered turns)
    → 8 ≤ length c.message_from
    → (c' : Client) × (passes turns c ≡ done c')
      × (c'.printed ≡ c.printed ++ map (λ _. hi) (delivered turns))
unfolding passes client_pass
passes-prints [] c held room = (c, refl, sym (append-nil c.printed))
passes-prints (turn ∷ turns) c held room = elim (Option-cases turn.received) [
  | inl e ↦
      let rest = delivered-none turn turns e in
      let skipped : Client = record c {
        sent = if turn.send_ok then c.sent ++ (message_to ∷ []) else c.sent;
      } in
      let (c', run, printed) =
        passes-prints turns skipped (subst (All (Begins hi)) rest held) room in
      (c', rw e run, printed ∙ ap (λ ms. c.printed ++ map (λ _. hi) ms) (sym rest))
  | inr (m, e) ↦
      let rest = delivered-some turn turns e in
      let (now, later) = subst (All (Begins hi)) rest held in
      let (c₁, pass, added, long) = client_pass-Begins turn c m e now room in
      let (c', run, printed) = passes-prints turns c₁ later (omega arith) in
      (
        c',
        rw pass run,
        rw (printed, added)
            (append_assoc c.printed (hi ∷ []) _
              ∙ ap (λ ms. c.printed ++ map (λ _. hi) ms) (sym rest)),
      )
]

-- In a state of the TCP server for many users that is reachable from its start, with a buffer of at
-- least 8 bytes: where a process has received only the message of its client, and the client, with
-- a buffer of at least 8 bytes, connects and receives all that the process has sent, each message
-- whole, among calls that fail, then it is defined and prints Welcome and then its own message for
-- each further one.
pub connected-prints :
    {garbage : List ℕ} {t : System} (i : ℕ) {c : Child} (m : List ℕ) (turns : List Turn)
    (client : Client)
    → Reach (first garbage) t
    → 8 ≤ length garbage
    → t.children i ≡ some c
    → All (λ b. b ≡ message_to) c.received
    → c.sent ≡ m ∷ delivered turns
    → 8 ≤ length client.message_from
    → (client' : Client) × ((start true true >> connected (some m) turns client) ≡ done client')
      × (client'.printed ≡ client.printed ++ (codes "Welcome" ∷ map (λ _. hi) (delivered turns)))
unfolding start connected greeted
connected-prints {garbage} {t} i {c} m turns client r long at held sent room =
    let (rest, refined, _) = Reach-echoes i r at in
    let all : m ∷ (delivered turns ++ rest) ≡ send_from_serv ∷ echoes garbage c.received =
      ap (λ x. x ++ rest) (sym sent) ∙ refined in
    let now : m ≡ send_from_serv = cc all in
    let later : delivered turns ++ rest ≡ echoes garbage c.received = cc all in
    let hear : Client = record client { message_from = receive m client.message_from } in
    let begun = receive-Begins (codes "Welcome") m client.message_from ([], now) room in
    let said : Client = record hear { printed = client.printed ++ (codes "Welcome" ∷ []) } in
    let echoed =
      All-prefix (Begins hi) (delivered turns) rest
        (subst (All (Begins hi)) (sym later) (echoes-Begins garbage c.received held long)) in
    let (client', run, printed) =
      passes-prints turns said echoed (omega (arith, length-receive m client.message_from)) in
    (
      client',
      rw (print-Begins (codes "Welcome") hear (omega arith) begun) run,
      rw printed (append_assoc client.printed (codes "Welcome" ∷ []) _),
    )
