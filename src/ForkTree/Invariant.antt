-- ===== src/ForkTree/Invariant.antt =====
-- Which processes there are, and which have been waited for, at each place of their parents.
use eltex_courses_homeworks.Prelude.{◌≡◌, ◌⊎◌, zero, suc, exit_success, arith}
use eltex_courses_homeworks.ForkTree.Defs.{
  Pc, unborn, forking, forking_again, waiting, waiting_again, sleeping, exited, reaped, Tree, start,
  Step, parent_forks, parent_cannot_fork, parent_forks_again, parent_cannot_fork_again,
  parent_waits_1, parent_waits_2, child_1_forks, child_1_cannot_fork, child_1_waits,
  child_1_2_exits, child_2_forks, child_2_cannot_fork, child_2_forks_again,
  child_2_cannot_fork_again, child_2_waits_1, child_2_waits_2, child_2_1_exits, child_2_2_exits,
}

-- A process that there is, and that has not been waited for.
abbrev pub Live : Pc → Type 0
Live unborn = ⊥
Live reaped = ⊥
Live _ = Unit

-- A process without children.
abbrev pub Leaf : Pc → Type 0
Leaf sleeping = Unit
Leaf (exited c) = c ≡ exit_success
Leaf _ = ⊥

abbrev pub Gone : Pc → Type 0
Gone reaped = Unit
Gone _ = ⊥

abbrev pub Unborn : Pc → Type 0
Unborn unborn = Unit
Unborn _ = ⊥

-- A process with two children, by its place: after a failure of its first `fork` there are none,
-- after one of its second the first is left.
abbrev pub Pair : (Pc → Type 0) → Pc → Pc → Pc → Type 0
Pair Alive unborn a b = Unborn a × Unborn b
Pair Alive forking a b = Unborn a × Unborn b
Pair Alive forking_again a b = Alive a × Unborn b
Pair Alive waiting a b = Alive a × Alive b
Pair Alive waiting_again a b = Gone a × Alive b
Pair Alive sleeping a b = ⊥
Pair Alive (exited zero) a b = Gone a × Gone b
Pair Alive (exited (suc c)) a b = (c ≡ 0) × (Unborn a ⊎ Alive a) × Unborn b
Pair Alive reaped a b = (Gone a × Gone b) ⊎ ((Unborn a ⊎ Alive a) × Unborn b)

-- A process with one child.
abbrev pub Single : Pc → Pc → Type 0
Single unborn a = Unborn a
Single forking a = Unborn a
Single waiting a = Leaf a
Single (exited zero) a = Gone a
Single (exited (suc c)) a = (c ≡ 0) × Unborn a
Single reaped a = Gone a ⊎ Unborn a
Single _ a = ⊥

pub record Inv (t : Tree) : Type 0 where
  pub root : Pair Live t.parent t.child_1 t.child_2
  pub first : Single t.child_1 t.child_1_2
  pub second : Pair Leaf t.child_2 t.child_2_1 t.child_2_2

pub start-Inv : Inv start
start-Inv = omega arith

pub Step-Inv : {t u : Tree} → Step t u → Inv t → Inv u
Step-Inv (parent_forks e) v = ground arith
Step-Inv (parent_cannot_fork e) v = ground arith
Step-Inv (parent_forks_again e) v = ground arith
Step-Inv (parent_cannot_fork_again e) v = ground arith
Step-Inv (parent_waits_1 e f) v = ground arith
Step-Inv (parent_waits_2 e f) v = ground arith
Step-Inv (child_1_forks e) v = ground arith
Step-Inv (child_1_cannot_fork e) v = ground arith
Step-Inv (child_1_waits e f) v = ground arith
Step-Inv (child_1_2_exits e) v = ground arith
Step-Inv (child_2_forks e) v = ground arith
Step-Inv (child_2_cannot_fork e) v = ground arith
Step-Inv (child_2_forks_again e) v = ground arith
Step-Inv (child_2_cannot_fork_again e) v = ground arith
Step-Inv (child_2_waits_1 e f) v = ground arith
Step-Inv (child_2_waits_2 e f) v = ground arith
Step-Inv (child_2_1_exits e) v = ground arith
Step-Inv (child_2_2_exits e) v = ground arith
