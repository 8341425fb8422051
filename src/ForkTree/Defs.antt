-- ===== src/ForkTree/Defs.antt =====
-- The processes of fork/fork_tree/six_forks.c and their steps. A step is a call of `fork`, `wait`,
-- `waitpid` or `exit`; what is printed is left out, and the order of the steps is any.
use eltex_courses_homeworks.Prelude.{ℕ, suc, ◌≡◌, exit_success, exit_failure}

-- Where a process stands: before its first or its second `fork`, before its first or its second call
-- that waits, in `sleep`, ended with a status, or ended and waited for.
pub data Pc : Type 0 where
  unborn forking forking_again waiting waiting_again sleeping : Pc
  exited : ℕ → Pc
  reaped : Pc

-- The processes, by the names that the program prints.
pub record Tree : Type 0 where
  pub parent : Pc
  pub child_1 : Pc
  pub child_1_2 : Pc
  pub child_2 : Pc
  pub child_2_1 : Pc
  pub child_2_2 : Pc

abbrev pub start : Tree
start = record {
  parent = forking;
  child_1 = unborn;
  child_1_2 = unborn;
  child_2 = unborn;
  child_2_1 = unborn;
  child_2_2 = unborn;
}

abbrev pub failed : Pc
failed = exited exit_failure

abbrev pub ended : Pc
ended = exited exit_success

-- Each constructor is a call of one process, at the state in which it makes it.
pub data Step (t : Tree) : Tree → Type 0 where
  parent_forks :
      t.parent ≡ forking → Step t (record t { parent = forking_again; child_1 = forking })
  parent_cannot_fork : t.parent ≡ forking → Step t (record t { parent = failed })
  parent_forks_again :
      t.parent ≡ forking_again → Step t (record t { parent = waiting; child_2 = forking })
  parent_cannot_fork_again : t.parent ≡ forking_again → Step t (record t { parent = failed })
  parent_waits_1 :
      {c : ℕ}
      → t.parent ≡ waiting
      → t.child_1 ≡ exited c
      → Step t (record t { parent = waiting_again; child_1 = reaped })
  parent_waits_2 :
      {c : ℕ}
      → t.parent ≡ waiting_again
      → t.child_2 ≡ exited c
      → Step t (record t { parent = ended; child_2 = reaped })
  child_1_forks :
      t.child_1 ≡ forking → Step t (record t { child_1 = waiting; child_1_2 = sleeping })
  child_1_cannot_fork : t.child_1 ≡ forking → Step t (record t { child_1 = failed })
  child_1_waits :
      {c : ℕ}
      → t.child_1 ≡ waiting
      → t.child_1_2 ≡ exited c
      → Step t (record t { child_1 = ended; child_1_2 = reaped })
  child_1_2_exits : t.child_1_2 ≡ sleeping → Step t (record t { child_1_2 = ended })
  child_2_forks :
      t.child_2 ≡ forking → Step t (record t { child_2 = forking_again; child_2_1 = sleeping })
  child_2_cannot_fork : t.child_2 ≡ forking → Step t (record t { child_2 = failed })
  child_2_forks_again :
      t.child_2 ≡ forking_again → Step t (record t { child_2 = waiting; child_2_2 = sleeping })
  child_2_cannot_fork_again : t.child_2 ≡ forking_again → Step t (record t { child_2 = failed })
  child_2_waits_1 :
      {c : ℕ}
      → t.child_2 ≡ waiting
      → t.child_2_1 ≡ exited c
      → Step t (record t { child_2 = waiting_again; child_2_1 = reaped })
  child_2_waits_2 :
      {c : ℕ}
      → t.child_2 ≡ waiting_again
      → t.child_2_2 ≡ exited c
      → Step t (record t { child_2 = ended; child_2_2 = reaped })
  child_2_1_exits : t.child_2_1 ≡ sleeping → Step t (record t { child_2_1 = ended })
  child_2_2_exits : t.child_2_2 ≡ sleeping → Step t (record t { child_2_2 = ended })

-- The runs of `n` steps.
pub data Run (s : Tree) : ℕ → Tree → Type 0 where
  here : Run s 0 s
  next : {n : ℕ} {t u : Tree} → Run s n t → Step t u → Run s (suc n) u
