-- ===== src/ForkTree/Ends.antt =====
-- Every run of fork/fork_tree/six_forks.c ends, and how.
use eltex_courses_homeworks.Prelude.{ℕ, ◌+◌, ◌≤◌, ◌<◌, ◌≡◌, refl, ◌⊎◌, inl, inr, arith}
use eltex_courses_homeworks.ForkTree.Defs.{
  Pc, unborn, forking, forking_again, waiting, waiting_again, sleeping, exited, reaped, Tree, start,
  ended, Step, parent_forks, parent_cannot_fork, parent_forks_again, parent_cannot_fork_again,
  parent_waits_1, parent_waits_2, child_1_forks, child_1_cannot_fork, child_1_waits,
  child_1_2_exits, child_2_forks, child_2_cannot_fork, child_2_forks_again,
  child_2_cannot_fork_again, child_2_waits_1, child_2_waits_2, child_2_1_exits, child_2_2_exits,
  Run, here, next,
}
use eltex_courses_homeworks.ForkTree.Invariant.{
  Live, Leaf, Gone, Unborn, Pair, Single, Inv, start-Inv, Step-Inv,
}

-- The calls that a process has yet to make: of two children, of one, and of none.
abbrev pub left_of_pair : Pc → ℕ
left_of_pair unborn = 4
left_of_pair forking = 4
left_of_pair forking_again = 3
left_of_pair waiting = 2
left_of_pair waiting_again = 1
left_of_pair _ = 0

abbrev pub left_of_single : Pc → ℕ
left_of_single unborn = 2
left_of_single forking = 2
left_of_single waiting = 1
left_of_single _ = 0

abbrev pub left_of_leaf : Pc → ℕ
left_of_leaf unborn = 1
left_of_leaf sleeping = 1
left_of_leaf _ = 0

abbrev pub calls_left : Tree → ℕ
calls_left t =
    left_of_pair t.parent
    + left_of_single t.child_1
    + left_of_leaf t.child_1_2
    + left_of_pair t.child_2
    + left_of_leaf t.child_2_1
    + left_of_leaf t.child_2_2

Step-calls_left : {t u : Tree} → Step t u → Inv t → calls_left u < calls_left t
Step-calls_left (parent_forks e) v = ground arith
Step-calls_left (parent_cannot_fork e) v = ground arith
Step-calls_left (parent_forks_again e) v = ground arith
Step-calls_left (parent_cannot_fork_again e) v = ground arith
Step-calls_left (parent_waits_1 e f) v = ground arith
Step-calls_left (parent_waits_2 e f) v = ground arith
Step-calls_left (child_1_forks e) v = ground arith
Step-calls_left (child_1_cannot_fork e) v = ground arith
Step-calls_left (child_1_waits e f) v = ground arith
Step-calls_left (child_1_2_exits e) v = ground arith
Step-calls_left (child_2_forks e) v = ground arith
Step-calls_left (child_2_cannot_fork e) v = ground arith
Step-calls_left (child_2_forks_again e) v = ground arith
Step-calls_left (child_2_cannot_fork_again e) v = ground arith
Step-calls_left (child_2_waits_1 e f) v = ground arith
Step-calls_left (child_2_waits_2 e f) v = ground arith
Step-calls_left (child_2_1_exits e) v = ground arith
Step-calls_left (child_2_2_exits e) v = ground arith

Run-Inv : {s t : Tree} {n : ℕ} → Run s n t → Inv s → Inv t
Run-Inv here v = v
Run-Inv (next r st) v = Step-Inv st (Run-Inv r v)

Run-calls_left : {s t : Tree} {n : ℕ} → Run s n t → Inv s → n + calls_left t ≤ calls_left s
Run-calls_left here v = omega arith
Run-calls_left (next r st) v = omega (arith, Run-calls_left r v, Step-calls_left st (Run-Inv r v))

-- A process that makes no more calls.
abbrev pub Over : Pc → Type 0
Over unborn = Unit
Over (exited c) = Unit
Over reaped = Unit
Over _ = ⊥

abbrev pub AllOver : Tree → Type 0
AllOver t =
    Over t.parent
    × Over t.child_1
    × Over t.child_1_2
    × Over t.child_2
    × Over t.child_2_1
    × Over t.child_2_2

-- The next step of a tree, or that there is none.
abbrev Moves : Tree → Type 0
Moves t = (u : Tree) × Step t u

-- child_1 and its child
first-Moves :
    (t : Tree) (p a : Pc)
    → t.child_1 ≡ p
    → t.child_1_2 ≡ a
    → Single p a
    → (Over p × Over a) ⊎ Moves t
first-Moves t forking a e f s = inr (_, child_1_forks e)
first-Moves t waiting sleeping e f s = inr (_, child_1_2_exits f)
first-Moves t waiting (exited c) e f s = inr (_, child_1_waits e f)
first-Moves t p a e f s = ground arith

-- child_2 and its children
second-Moves :
    (t : Tree) (p a b : Pc)
    → t.child_2 ≡ p
    → t.child_2_1 ≡ a
    → t.child_2_2 ≡ b
    → Pair Leaf p a b
    → (Over p × Over a × Over b) ⊎ Moves t
second-Moves t forking a b e f g s = inr (_, child_2_forks e)
second-Moves t forking_again a b e f g s = inr (_, child_2_forks_again e)
second-Moves t p sleeping b e f g s = inr (_, child_2_1_exits f)
second-Moves t p a sleeping e f g s = inr (_, child_2_2_exits g)
second-Moves t waiting (exited c) b e f g s = inr (_, child_2_waits_1 e f)
second-Moves t waiting_again a (exited c) e f g s = inr (_, child_2_waits_2 e g)
second-Moves t p a b e f g s = ground arith

-- PARENT, once its children make no more calls
root-Moves :
    (t : Tree) (p a b : Pc)
    → t.parent ≡ p
    → t.child_1 ≡ a
    → t.child_2 ≡ b
    → Pair Live p a b
    → Over a
    → Over b
    → Over p ⊎ Moves t
root-Moves t forking a b e f g s oa ob = inr (_, parent_forks e)
root-Moves t forking_again a b e f g s oa ob = inr (_, parent_forks_again e)
root-Moves t waiting (exited c) b e f g s oa ob = inr (_, parent_waits_1 e f)
root-Moves t waiting_again a (exited c) e f g s oa ob = inr (_, parent_waits_2 e g)
root-Moves t p a b e f g s oa ob = ground arith

-- No process waits for ever.
progress : (t : Tree) → Inv t → AllOver t ⊎ Moves t
progress t v = elim (first-Moves t t.child_1 t.child_1_2 refl refl v.first) [
  | inr m ↦ inr m
  | inl (a, b) ↦ elim (second-Moves t t.child_2 t.child_2_1 t.child_2_2 refl refl refl v.second) [
    | inr m ↦ inr m
    | inl (c, d, e) ↦ elim (root-Moves t t.parent t.child_1 t.child_2 refl refl refl v.root a c) [
      | inr m ↦ inr m
      | inl r ↦ inl (r, a, b, c, d, e)
    ]
  ]
]

-- Any run of the processes of six_forks.c from their start, whether calls of fork succeed or fail
-- and in whatever order the processes go, has at most 13 steps; after it, either a further step
-- exists or no process that was created is still running: each has exited or has been waited for.
pub Run-AllOver :
    {t : Tree} {n : ℕ} → Run start n t → (n ≤ 13) × (AllOver t ⊎ ((u : Tree) × Step t u))
Run-AllOver {t} r = (omega (arith, Run-calls_left r start-Inv), progress t (Run-Inv r start-Inv))

-- A process that there never was, or that has been waited for.
abbrev pub IsReaped : Pc → Type 0
IsReaped p = Unborn p ⊎ Gone p

-- After any run of six_forks.c from its start in which PARENT has exited with success, child_1 and
-- child_2 have been waited for, child_1_2 has been waited for or was never created, and child_2_1
-- and child_2_2 have both been waited for or child_2_2 was never created.
pub ended-IsReaped :
    {t : Tree} {n : ℕ}
    → Run start n t
    → t.parent ≡ ended
    → Gone t.child_1
      × Gone t.child_2
      × IsReaped t.child_1_2
      × ((Gone t.child_2_1 × Gone t.child_2_2) ⊎ Unborn t.child_2_2)
ended-IsReaped {t} r e = let v = Run-Inv r start-Inv in ground (arith, v.root, v.first, v.second)
