-- ===== src/ManyUsers/Replies.antt =====
-- What the process of a client sends, whatever the other processes of the server do meanwhile.
use eltex_courses_homeworks.Prelude.{
  ℕ, ◌≤◌, ◌≡◌, refl, sym, ap, ◌∙◌, some, List, [], ◌∷◌, ◌++◌, length, arith, receive,
}
use mathlib.Core.List.{append-nil}
use eltex_courses_homeworks.Prelude.Family.{update, Slot, Slot-at, update-Slot}
use eltex_courses_homeworks.ManyUsers.Defs.{
  clear, Phase, opening, sending, receiving, ended, Child, child_of, ChildStep, opens, cannot_open,
  sends, cannot_send, receives, cannot_receive, waiting_again, forking_again, broken,
  requested_again, unended_again, no_request_again, cannot_fork_again, System, start, Step, request,
  unended_request, no_request, forks, cannot_fork, child_steps, child_forks, Reach, here, next,
}

-- The buffer after a message.
abbrev pub overlaid : List ℕ → List ℕ → List ℕ
overlaid buf bytes = receive bytes (clear buf)

-- The specification: the first buffer is sent back, and after each message the buffer with it.
abbrev pub replies : List ℕ → List (List ℕ) → List (List ℕ)
replies buf [] = buf ∷ []
replies buf (m ∷ ms) = buf ∷ replies (overlaid buf m) ms

abbrev pub last : List ℕ → List (List ℕ) → List ℕ
last buf [] = buf
last buf (m ∷ ms) = last (overlaid buf m) ms

last-append :
    (buf : List ℕ) (ms : List (List ℕ)) (m : List ℕ)
    → last buf (ms ++ (m ∷ [])) ≡ overlaid (last buf ms) m
last-append buf [] m = refl
last-append buf (n ∷ ms) m = last-append (overlaid buf n) ms m

replies-append :
    (buf : List ℕ) (ms : List (List ℕ)) (m : List ℕ)
    → replies buf (ms ++ (m ∷ [])) ≡ replies buf ms ++ (overlaid (last buf ms) m ∷ [])
replies-append buf [] m = refl
replies-append buf (n ∷ ms) m = ap (λ x. buf ∷ x) (replies-append (overlaid buf n) ms m)

-- What has been sent in each phase.
abbrev Sent : Phase → Child → Type 0
Sent opening c = (c.sent ≡ []) × (c.received ≡ []) × (c.buf ≡ c.forked)
Sent sending c =
    (c.sent ++ (c.buf ∷ []) ≡ replies c.forked c.received) × (c.buf ≡ last c.forked c.received)
Sent receiving c =
    (c.sent ≡ replies c.forked c.received) × (c.buf ≡ clear (last c.forked c.received))
Sent _ c =
    (rest : List (List ℕ)) × (c.sent ++ rest ≡ replies c.forked c.received) × (length rest ≤ 1)

Faithful : Child → Type 0
Faithful c = Sent c.phase c

Faithful-at : {p : Phase} (c : Child) → c.phase ≡ p → Faithful c → Sent p c
unfolding Faithful
Faithful-at c e v = rw (sym e) v

ChildStep-Faithful : {c d : Child} → ChildStep c d → Faithful c → Faithful d
unfolding Faithful
ChildStep-Faithful {c} (opens e) v =
    let (none_sent, none_received, same) = Faithful-at c e v in
    (rw (none_sent, none_received) (ap (λ b. b ∷ []) same), rw none_received same)
ChildStep-Faithful {c} (cannot_open e) v =
    let (none_sent, none_received, _) = Faithful-at c e v in
    (c.forked ∷ [], rw (none_sent, none_received) refl, omega arith)
ChildStep-Faithful {c} (sends e) v = let (sent, now) = Faithful-at c e v in (sent, ap clear now)
ChildStep-Faithful (cannot_send e) v = v
ChildStep-Faithful {c} (receives bytes e) v =
    let (sent, now) = Faithful-at c e v in
    let stored = ap (receive bytes) now in
    (
      rw (replies-append c.forked c.received bytes, sent, stored) refl,
      stored ∙ sym (last-append c.forked c.received bytes),
    )
ChildStep-Faithful {c} (cannot_receive e) v =
    let (sent, _) = Faithful-at c e v in ([], append-nil c.sent ∙ sent, omega arith)
ChildStep-Faithful {c} (requested_again client bytes e r) v = Faithful-at c e v
ChildStep-Faithful {c} (unended_again bytes e r) v = Faithful-at c e v
ChildStep-Faithful {c} (no_request_again e) v = Faithful-at c e v
ChildStep-Faithful {c} (cannot_fork_again e) v = Faithful-at c e v

-- The processes that there are.
AllFaithful : System → Type 0
AllFaithful s = (i : ℕ) → Slot Faithful (s.children i)

child_of-Faithful : (client : ℕ) (buf : List ℕ) → Faithful (child_of client buf)
unfolding Faithful
child_of-Faithful client buf = (refl, refl, refl)

Step-AllFaithful : {s t : System} → Step s t → AllFaithful s → AllFaithful t
unfolding AllFaithful Faithful
Step-AllFaithful (request client bytes e r) v = v
Step-AllFaithful (unended_request bytes e r) v = v
Step-AllFaithful (no_request e) v = v
Step-AllFaithful {s} (forks {client} e) v =
    update-Slot Faithful s.children s.forks (child_of client s.buf) v
      (child_of-Faithful client s.buf)
Step-AllFaithful (cannot_fork e) v = v
Step-AllFaithful {s} (child_steps k {c} {c'} at st) v =
    update-Slot Faithful s.children k c' v
      (ChildStep-Faithful st (Slot-at Faithful (s.children k) at (v k)))
Step-AllFaithful {s} (child_forks k {c} at e) v =
    let again = record c { phase = waiting_again } in
    update-Slot Faithful (update s.children k (some again)) s.forks (child_of c.client c.buf)
      (update-Slot Faithful s.children k again v
        (Faithful-at c e (Slot-at Faithful (s.children k) at (v k))))
      (child_of-Faithful c.client c.buf)

Reach-AllFaithful : {garbage : List ℕ} {t : System} → Reach (start garbage) t → AllFaithful t
unfolding AllFaithful
Reach-AllFaithful here = λ i. tt
Reach-AllFaithful (next r st) = Step-AllFaithful st (Reach-AllFaithful r)

-- In each phase at most one reply is still to be sent.
Sent-replies :
    (p : Phase) (c : Child)
    → Sent p c
    → (rest : List (List ℕ)) × (c.sent ++ rest ≡ replies c.forked c.received) × (length rest ≤ 1)
Sent-replies opening c (none_sent, none_received, same) =
    (c.forked ∷ [], rw (none_sent, none_received) refl, omega arith)
Sent-replies sending c (sent, now) = (c.buf ∷ [], sent, omega arith)
Sent-replies receiving c (sent, now) = ([], append-nil c.sent ∙ sent, omega arith)
Sent-replies waiting_again c v = v
Sent-replies forking_again c v = v
Sent-replies ended c v = v
Sent-replies broken c v = v

-- In every state of the UDP server for many users that is reachable from its start, whatever the
-- other processes do and whichever calls fail: what the process of a client has sent, with at most
-- one reply that is still to come or never comes, is what the specification `replies` gives, which
-- is the buffer at the fork and then, for each message received in its inner loop, the buffer with
-- its first byte cleared and the message over it.
pub Reach-replies :
    {garbage : List ℕ} {t : System} (i : ℕ) {c : Child}
    → Reach (start garbage) t
    → t.children i ≡ some c
    → (rest : List (List ℕ)) × (c.sent ++ rest ≡ replies c.forked c.received) × (length rest ≤ 1)
unfolding AllFaithful Faithful
Reach-replies {t = t} i {c} r at =
    Sent-replies c.phase c (Slot-at Faithful (t.children i) at (Reach-AllFaithful r i))
