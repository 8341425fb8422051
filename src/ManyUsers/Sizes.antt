-- ===== src/ManyUsers/Sizes.antt =====
-- The sizes of the buffers of NETS/multi-user UDP_ECHO/server.c.
use eltex_courses_homeworks.Prelude.{ℕ, ◌≡◌, ◌∙◌, refl, some, List, [], ◌∷◌, length, length-receive}
use eltex_courses_homeworks.Prelude.Family.{update, Slot, Slot-at, update-Slot}
use eltex_courses_homeworks.ManyUsers.Defs.{
  clear, Child, child_of, ChildStep, opens, cannot_open, sends, cannot_send, receives,
  cannot_receive, waiting_again, requested_again, unended_again, no_request_again,
  cannot_fork_again, System, start, Step, request, unended_request, no_request, forks, cannot_fork,
  child_steps, child_forks, Reach, here, next,
}

-- The buffers of the server and of its processes have the size that they had.
abbrev Sized : ℕ → Child → Type 0
Sized size c = (length c.forked ≡ size) × (length c.buf ≡ size)

AllSized : ℕ → System → Type 0
AllSized size s = (length s.buf ≡ size) × ((i : ℕ) → Slot (Sized size) (s.children i))

length-clear : (buf : List ℕ) → length (clear buf) ≡ length buf
length-clear [] = refl
length-clear (b ∷ buf) = refl

ChildStep-Sized : (size : ℕ) {c d : Child} → ChildStep c d → Sized size c → Sized size d
ChildStep-Sized size (opens e) v = v
ChildStep-Sized size (cannot_open e) v = v
ChildStep-Sized size {c} (sends e) (first, now) = (first, length-clear c.buf ∙ now)
ChildStep-Sized size (cannot_send e) v = v
ChildStep-Sized size {c} (receives bytes e) (first, now) = (first, length-receive bytes c.buf ∙ now)
ChildStep-Sized size (cannot_receive e) v = v
ChildStep-Sized size {c} (requested_again client bytes e r) (first, now) =
    (first, length-receive bytes c.buf ∙ now)
ChildStep-Sized size (unended_again bytes e r) v = v
ChildStep-Sized size (no_request_again e) v = v
ChildStep-Sized size (cannot_fork_again e) v = v

Step-AllSized : (size : ℕ) {s t : System} → Step s t → AllSized size s → AllSized size t
unfolding AllSized
Step-AllSized size {s} (request client bytes e r) (long, v) = (length-receive bytes s.buf ∙ long, v)
Step-AllSized size (unended_request bytes e r) v = v
Step-AllSized size (no_request e) v = v
Step-AllSized size {s} (forks {client} e) (long, v) =
    (long, update-Slot (Sized size) s.children s.forks (child_of client s.buf) v (long, long))
Step-AllSized size (cannot_fork e) v = v
Step-AllSized size {s} (child_steps k {c} {c'} at st) (long, v) = (
  long,
  update-Slot (Sized size) s.children k c' v
      (ChildStep-Sized size st (Slot-at (Sized size) (s.children k) at (v k))),
)
Step-AllSized size {s} (child_forks k {c} at e) (long, v) =
    let again = record c { phase = waiting_again } in
    let (first, now) = Slot-at (Sized size) (s.children k) at (v k) in
    (
      long,
      update-Slot (Sized size) (update s.children k (some again)) s.forks (child_of c.client c.buf)
          (update-Slot (Sized size) s.children k again v (first, now)) (now, now),
    )

Reach-AllSized :
    {garbage : List ℕ} {t : System} → Reach (start garbage) t → AllSized (length garbage) t
unfolding AllSized
Reach-AllSized here = (refl, λ i. tt)
Reach-AllSized (next r st) = Step-AllSized _ st (Reach-AllSized r)

pub forked-length :
    {garbage : List ℕ} {t : System} (i : ℕ) {c : Child}
    → Reach (start garbage) t
    → t.children i ≡ some c
    → length c.forked ≡ length garbage
unfolding AllSized
forked-length {garbage} {t} i r at =
    let (_, v) = Reach-AllSized r in (Slot-at (Sized (length garbage)) (t.children i) at (v i)).0
