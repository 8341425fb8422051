-- ===== src/ServerQueue/System/Hands.antt =====
-- What the service threads of NETS/server_queue/ have in their hands when one of them changes.
use eltex_courses_homeworks.Prelude.{ℕ, zero, suc, ◌≤◌, ◌<◌, ◌≡◌, refl, ap, List, ◌++◌, arith}
use mathlib.Core.Path.{subst}
use mathlib.Core.List.{Perm, append_assoc, perm_append_comm}
use mathlib.Core.List.Perm
use native.Mathlib.Decide.{ℕ_discrete}
use eltex_courses_homeworks.Prelude.Family.{update, update_eq, update_ne}
use eltex_courses_homeworks.ServerQueue.System.Defs.{Thread}
use eltex_courses_homeworks.ServerQueue.System.Abstract.{hand_of, hands}

module _ {A : Type 0} where
  swap_front : (xs ys zs : List A) → Perm (xs ++ (ys ++ zs)) (ys ++ (xs ++ zs))
  swap_front xs ys zs =
      subst (λ l. Perm (xs ++ (ys ++ zs)) l) (append_assoc ys xs zs)
        (subst (λ l. Perm l ((ys ++ xs) ++ zs)) (append_assoc xs ys zs)
          (Perm.append_right zs (perm_append_comm xs ys)))

-- A thread above the bound has nothing that counts.
hands-above :
    (n : ℕ) (threads : ℕ → Thread) (i : ℕ) (t : Thread)
    → n ≤ i
    → hands n (update threads i t) ≡ hands n threads
unfolding hands
hands-above zero threads i t h = refl
hands-above (suc n) threads i t h =
    rw (update_ne threads i t n (λ e. omega (arith, e)), hands-above n threads i t (omega arith))
      refl

-- What the threads have in their hands when one changes.
pub hands-update :
    (n : ℕ) (threads : ℕ → Thread) (i : ℕ) (t : Thread)
    → i < n
    → Perm (hand_of t ++ hands n threads) (hand_of (threads i) ++ hands n (update threads i t))
unfolding hands
hands-update zero threads i t h = absurd (omega arith)
hands-update (suc n) threads i t h = elim (ℕ_discrete i n) [
  | yes last ↦
      rw
        (
          update_eq threads i t n last,
          hands-above n threads i t (omega (arith, last)),
          ap threads last,
        )
        (swap_front (hand_of t) (hand_of (threads n)) (hands n threads))
  | no below ↦ rw (update_ne threads i t n below) (
      Perm.trans (swap_front (hand_of t) (hand_of (threads n)) (hands n threads)) (
        Perm.trans
          (Perm.append_left (hand_of (threads n))
            (hands-update n threads i t (omega (arith, below))))
          (swap_front (hand_of (threads n)) (hand_of (threads i)) (hands n (update threads i t)))))
]

-- A thread that keeps what it has changes nothing.
pub hands-same :
    (n : ℕ) (threads : ℕ → Thread) (i : ℕ) (t : Thread)
    → hand_of t ≡ hand_of (threads i)
    → hands n (update threads i t) ≡ hands n threads
unfolding hands
hands-same zero threads i t h = refl
hands-same (suc n) threads i t h = elim (ℕ_discrete i n) [
  | yes last ↦
      rw (update_eq threads i t n last, hands-same n threads i t h, h, ap threads last) refl
  | no below ↦ rw (update_ne threads i t n below, hands-same n threads i t h) refl
]
