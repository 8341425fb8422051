-- ===== src/ManyUsers/Tcp/Replies.antt =====
-- What the process of a client of NETS/multi-user TCP_ECHO/server.c sends, whatever the others do.
use eltex_courses_homeworks.Prelude.{
  ℕ, ◌≤◌, ◌≡◌, refl, sym, ap, ◌∙◌, some, List, [], ◌∷◌, ◌++◌, length, arith, receive,
}
use mathlib.Core.Path.{subst}
use mathlib.Core.List.{append-nil}
use eltex_courses_homeworks.Prelude.Family.{Slot, Slot-at, update-Slot}
use eltex_courses_homeworks.ManyUsers.Tcp.{
  send_from_serv, Phase, greeting, receiving, sending, Child, child_of, ChildStep, greets, receives,
  sends, System, first, Step, accepts, forks, cannot_fork, child_steps, Reach, here, next,
}

-- The specification: each message is sent back over what the buffer held before.
abbrev pub echoes : List ℕ → List (List ℕ) → List (List ℕ)
echoes buf [] = []
echoes buf (m ∷ ms) = receive m buf ∷ echoes (receive m buf) ms

abbrev pub last : List ℕ → List (List ℕ) → List ℕ
last buf [] = buf
last buf (m ∷ ms) = last (receive m buf) ms

last-append :
    (buf : List ℕ) (ms : List (List ℕ)) (m : List ℕ)
    → last buf (ms ++ (m ∷ [])) ≡ receive m (last buf ms)
last-append buf [] m = refl
last-append buf (n ∷ ms) m = last-append (receive n buf) ms m

echoes-append :
    (buf : List ℕ) (ms : List (List ℕ)) (m : List ℕ)
    → echoes buf (ms ++ (m ∷ [])) ≡ echoes buf ms ++ (receive m (last buf ms) ∷ [])
echoes-append buf [] m = refl
echoes-append buf (n ∷ ms) m = ap (λ x. receive n buf ∷ x) (echoes-append (receive n buf) ms m)

-- What has been sent in each phase.
abbrev Sent : Phase → Child → Type 0
Sent greeting c = (c.sent ≡ []) × (c.received ≡ []) × (c.buf ≡ c.forked)
Sent receiving c =
    (c.sent ≡ send_from_serv ∷ echoes c.forked c.received) × (c.buf ≡ last c.forked c.received)
Sent sending c =
    (c.sent ++ (c.buf ∷ []) ≡ send_from_serv ∷ echoes c.forked c.received)
    × (c.buf ≡ last c.forked c.received)

-- The process of a client that was forked with the buffer of the server.
abbrev Faithful : List ℕ → Child → Type 0
Faithful buf c = Sent c.phase c × (c.forked ≡ buf)

Sent-at : {p : Phase} (c : Child) → c.phase ≡ p → Sent c.phase c → Sent p c
Sent-at c e v = subst (λ p. Sent p c) e v

ChildStep-Sent : {c d : Child} → ChildStep c d → Sent c.phase c → Sent d.phase d
ChildStep-Sent {c} (greets e) v =
    let (none_sent, none_received, same) = Sent-at c e v in
    (rw (none_sent, none_received) refl, rw none_received same)
ChildStep-Sent {c} (receives bytes e) v =
    let (sent, now) = Sent-at c e v in
    let stored = ap (receive bytes) now in
    (
      rw (echoes-append c.forked c.received bytes, sent, stored) refl,
      stored ∙ sym (last-append c.forked c.received bytes),
    )
ChildStep-Sent {c} (sends e) v = Sent-at c e v

ChildStep-forked : {c d : Child} → ChildStep c d → d.forked ≡ c.forked
ChildStep-forked (greets e) = refl
ChildStep-forked (receives bytes e) = refl
ChildStep-forked (sends e) = refl

-- In each phase at most one message is still to be sent.
Sent-echoes :
    {buf : List ℕ} (p : Phase) (c : Child)
    → Sent p c
    → c.forked ≡ buf
    → (rest : List (List ℕ)) × (c.sent ++ rest ≡ send_from_serv ∷ echoes buf c.received)
      × (length rest ≤ 1)
Sent-echoes greeting c (none_sent, none_received, same) forked =
    (send_from_serv ∷ [], rw (none_sent, none_received) refl, omega arith)
Sent-echoes receiving c (sent, now) forked =
    ([], rw (sym forked) (append-nil c.sent ∙ sent), omega arith)
Sent-echoes sending c (sent, now) forked = (c.buf ∷ [], rw (sym forked) sent, omega arith)

-- The buffer of the server is what it was, and the processes that there are were forked with it.
AllFaithful : List ℕ → System → Type 0
AllFaithful garbage s = (s.buf ≡ garbage) × ((i : ℕ) → Slot (Faithful garbage) (s.children i))

Step-AllFaithful :
    (garbage : List ℕ) {s t : System} → Step s t → AllFaithful garbage s → AllFaithful garbage t
unfolding AllFaithful
Step-AllFaithful _ (accepts cfd e) v = v
Step-AllFaithful garbage {s = s} (forks {cfd} e) (same, v) = (
  same,
  update-Slot (Faithful garbage) s.children s.forks (child_of cfd s.buf) v
      ((refl, refl, refl), same),
)
Step-AllFaithful _ (cannot_fork e) v = v
Step-AllFaithful garbage {s = s} (child_steps k {c} {c'} at st) (same, v) =
    let (sent, forked) = Slot-at (Faithful garbage) (s.children k) at (v k) in
    (
      same,
      update-Slot (Faithful garbage) s.children k c' v
          (ChildStep-Sent st sent, ChildStep-forked st ∙ forked),
    )

Reach-AllFaithful :
    {garbage : List ℕ} {t : System} → Reach (first garbage) t → AllFaithful garbage t
unfolding AllFaithful
Reach-AllFaithful here = (refl, λ i. tt)
Reach-AllFaithful (next r st) = Step-AllFaithful _ st (Reach-AllFaithful r)

-- In every state of the TCP server for many users that is reachable from its start, whatever the
-- other processes do: what the process of a client has handed to send, with at most one message
-- that is still to come, is the greeting and then what the specification `echoes` gives, which is,
-- for each result of recv, the buffer with the bytes received over what it held before, from the
-- buffer of the server on.
pub Reach-echoes :
    {garbage : List ℕ} {t : System} (i : ℕ) {c : Child}
    → Reach (first garbage) t
    → t.children i ≡ some c
    → (rest : List (List ℕ)) × (c.sent ++ rest ≡ send_from_serv ∷ echoes garbage c.received)
      × (length rest ≤ 1)
unfolding AllFaithful
Reach-echoes {garbage} {t} i {c} r at =
    let (_, v) = Reach-AllFaithful r in
    let (sent, forked) = Slot-at (Faithful garbage) (t.children i) at (v i) in
    Sent-echoes c.phase c sent forked
