-- ===== src/FiveThreads/Tests.antt =====
-- Runs of the halves of thread/five_threads/main.c.
use eltex_courses_homeworks.Prelude.{
  ℕ, ◌+◌, ◌<◌, ◌≡◌, refl, [], ◌∷◌, ◌++◌, All, ltb, if◌then◌else◌, arith, ℕ_discrete,
}
use eltex_courses_homeworks.Prelude.Family.{update, update_eq}
use eltex_courses_homeworks.FiveThreads.Defs.{
  num_of_threads, Main, creating, incrementing, joining, passed, started, holding, ended, State,
  start, shared_counter, own_num, creates, increments, all_created, joins, all_joined, reads_num,
  prints, Reach, here, next,
}
use eltex_courses_homeworks.FiveThreads.Own.{count, each_once}
use eltex_courses_homeworks.FiveThreads.Shared.{InRange, printed-InRange}

abbrev at_main : State → Main → State
at_main s m = record s { main = m }

-- Thread `c` is created, and then runs to its end.
abbrev created : ℕ → State → State
created c s = record s { main = incrementing c; threads = update s.threads c started }

abbrev printed : ℕ → ℕ → State → State
printed i v s = record s {
  threads = update (update s.threads i (holding v)) i ended;
  printed = s.printed ++ ((i, v) ∷ []);
}

abbrev after_first : State
after_first = printed 0 0 (created 0 start)

-- The first thread prints 0 before the counter goes on.
to_after_first : Reach shared_counter start after_first
unfolding ℕ_discrete
to_after_first =
    next (next (next here (creates refl (omega arith))) (reads_num 0 refl refl)) (prints 0 refl)

printed-InRange_example : All InRange after_first.printed
printed-InRange_example = printed-InRange {t = after_first} to_after_first

-- One cycle of the second half, in which the thread prints at once.
abbrev cycle : ℕ → State → State
cycle c s = at_main (printed c c (created c s)) (creating (c + 1))

cycle-Reach :
    (s : State) (c : ℕ)
    → s.main ≡ creating c
    → c < num_of_threads
    → Reach own_num start s
    → Reach own_num start (cycle c s)
unfolding ℕ_discrete
cycle-Reach s c e lt r =
    let t = created c s in
    next
      (next (next (next r (creates e lt)) (reads_num c (update_eq s.threads c started c refl) refl))
        (prints c (update_eq t.threads c (holding c) c refl)))
      (increments refl)

abbrev all_printed : State
all_printed = cycle 4 (cycle 3 (cycle 2 (cycle 1 (cycle 0 start))))

to_all_printed : Reach own_num start all_printed
to_all_printed = cycle-Reach (cycle 3 (cycle 2 (cycle 1 (cycle 0 start)))) 4 refl (omega arith) (
    cycle-Reach (cycle 2 (cycle 1 (cycle 0 start))) 3 refl (omega arith) (
      cycle-Reach (cycle 1 (cycle 0 start)) 2 refl (omega arith) (
        cycle-Reach (cycle 0 start) 1 refl (omega arith)
          (cycle-Reach start 0 refl (omega arith) here))))

-- Thread `c` is joined.
join_next :
    (c : ℕ)
    → c < num_of_threads
    → all_printed.threads c ≡ ended
    → Reach own_num start (at_main all_printed (joining c))
    → Reach own_num start (at_main all_printed (joining (c + 1)))
join_next c lt e r = next r (joins refl lt e)

to_passed : Reach own_num start (at_main all_printed passed)
unfolding ℕ_discrete
to_passed =
    next
      (join_next 4 (omega arith) refl (
        join_next 3 (omega arith) refl (
          join_next 2 (omega arith) refl (
            join_next 1 (omega arith) refl (
              join_next 0 (omega arith) refl
                (next to_all_printed (all_created refl (omega arith))))))))
      (all_joined refl (omega arith))

each_once_example : count 3 all_printed.printed ≡ (if ltb 3 num_of_threads then 1 else 0)
each_once_example = each_once {t = at_main all_printed passed} to_passed refl 3
