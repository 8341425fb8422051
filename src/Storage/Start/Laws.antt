-- ===== src/Storage/Start/Laws.antt =====
-- Where `main` of thread/storage_live/main.c is undefined.
use eltex_courses_homeworks.Prelude.{ℕ, zero, suc, ◌+◌, ◌≤◌, ◌<◌, ◌≡◌, Bool, arith, fault}
use eltex_courses_homeworks.Prelude.Family.{update}
use eltex_courses_homeworks.Storage.Defs.{Config, num_of_mutexes, free, unset, Store}
use eltex_courses_homeworks.Storage.Start.{copy_mutex, start}

copy_mutex-fault :
    (cfg : Config) (n i : ℕ) (s : Store)
    → num_of_mutexes cfg < i + n
    → i ≤ num_of_mutexes cfg
    → copy_mutex cfg n i s ≡ fault
unfolding copy_mutex
copy_mutex-fault cfg zero i s over at = absurd (omega arith)
copy_mutex-fault cfg (suc n) i s over at =
    ground (arith, copy_mutex-fault cfg n (i + 1) (record s { mutex = update s.mutex i free }))

-- Where `mutex` has fewer elements than there are rooms, as it has in the source, main is
-- undefined, whatever the calls that it makes give.
pub start-fault :
    (cfg : Config) (attr_ok loader_created : Bool) (buyer_created : ℕ → Bool) (rand garbage : ℕ → ℕ)
    → num_of_mutexes cfg < cfg.num_of_rooms
    → start cfg attr_ok rand loader_created buyer_created garbage ≡ fault
unfolding start
start-fault cfg attr_ok loader_created buyer_created rand garbage over = rw (
    copy_mutex-fault cfg cfg.num_of_rooms 0 (record { rooms = garbage; mutex = λ _. unset })
      (omega arith) (omega arith))
