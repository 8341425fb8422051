-- ===== src/ForkTree/Tests.antt =====
-- A run of fork/fork_tree/six_forks.c in which every call of `fork` succeeds.
use eltex_courses_homeworks.Prelude.{◌≤◌, refl, ◌⊎◌}
use eltex_courses_homeworks.ForkTree.Defs.{
  waiting, sleeping, reaped, Tree, start, ended, Step, parent_forks, parent_forks_again,
  parent_waits_1, parent_waits_2, child_1_forks, child_1_waits, child_1_2_exits, child_2_forks,
  child_2_forks_again, child_2_waits_1, child_2_waits_2, child_2_1_exits, child_2_2_exits, Run,
  here, next,
}
use eltex_courses_homeworks.ForkTree.Invariant.{Gone, Unborn}
use eltex_courses_homeworks.ForkTree.Ends.{AllOver, IsReaped, Run-AllOver, ended-IsReaped}

-- All processes are there.
abbrev grown : Tree
grown = record {
  parent = waiting;
  child_1 = waiting;
  child_1_2 = sleeping;
  child_2 = waiting;
  child_2_1 = sleeping;
  child_2_2 = sleeping;
}

to_grown : Run start 5 grown
to_grown =
    next
      (next
        (next (next (next here (parent_forks refl)) (child_1_forks refl)) (parent_forks_again refl))
        (child_2_forks refl))
      (child_2_forks_again refl)

abbrev finished : Tree
finished = record {
  parent = ended;
  child_1 = reaped;
  child_1_2 = reaped;
  child_2 = reaped;
  child_2_1 = reaped;
  child_2_2 = reaped;
}

to_finished : Run start 13 finished
to_finished =
    next
      (next
        (next
          (next
            (next
              (next (next (next to_grown (child_1_2_exits refl)) (child_1_waits refl refl))
                (parent_waits_1 refl refl))
              (child_2_2_exits refl))
            (child_2_1_exits refl))
          (child_2_waits_1 refl refl))
        (child_2_waits_2 refl refl))
      (parent_waits_2 refl refl)

Run-AllOver_example : (5 ≤ 13) × (AllOver grown ⊎ ((u : Tree) × Step grown u))
Run-AllOver_example = Run-AllOver {t = grown} {n = 5} to_grown

ended-IsReaped_example :
    Gone finished.child_1
    × Gone finished.child_2
    × IsReaped finished.child_1_2
    × ((Gone finished.child_2_1 × Gone finished.child_2_2) ⊎ Unborn finished.child_2_2)
ended-IsReaped_example = ended-IsReaped {t = finished} {n = 13} to_finished refl
