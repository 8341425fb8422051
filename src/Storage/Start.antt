-- ===== src/Storage/Start.antt =====
-- `main` of thread/storage_live/main.c up to the start of its threads.
pub mod Laws
use eltex_courses_homeworks.Prelude.{
  ℕ, zero, suc, ◌+◌, ◌%◌, ◌≤◌, ◌<◌, ◌≡◌, refl, Bool, true, false, ltb, if◌then◌else◌, Outcome, done,
  exit, fault, ◌>>=◌, ◌>>◌, exit_failure, arith,
}
use eltex_courses_homeworks.Prelude.Family.{update}
use eltex_courses_homeworks.Storage.Defs.{
  Config, num_of_mutexes, Mutex, unset, free, Store, visiting, choosing, first_demand, System,
}

-- `store.mutex[i] = mutex_dupe` from `i` on, with the rounds left.
unfoldable pub copy_mutex : Config → ℕ → ℕ → Store → Outcome Store
copy_mutex cfg zero i s = done s
copy_mutex cfg (suc n) i s = elim (ltb i (num_of_mutexes cfg)) [
  | true ↦ copy_mutex cfg n (i + 1) (record s { mutex = update s.mutex i free })
  | false ↦ fault
]

-- The first goods of a room, for a result of `rand`.
abbrev pub first_goods : ℕ → ℕ
first_goods r = 1000 + r % 201

-- `store.rooms[counter] = …` from `i` on: `rand` gives the result of each call.
unfoldable pub fill_storage : (ℕ → ℕ) → ℕ → ℕ → Store → Store
fill_storage rand zero i s = s
fill_storage rand (suc n) i s =
    fill_storage rand n (i + 1) (record s { rooms = update s.rooms i (first_goods (rand i)) })

-- The loop over `pthread_create`; `created` says whether each call succeeds.
unfoldable pub start_buyers : (ℕ → Bool) → ℕ → ℕ → Outcome (Unit {0})
start_buyers created zero i = done tt
start_buyers created (suc n) i = elim (created i) [
  | true ↦ start_buyers created n (i + 1)
  | false ↦ exit exit_failure
]

-- The goods in the first `n` rooms.
abbrev pub stock : ℕ → (ℕ → ℕ) → ℕ
stock zero rooms = 0
stock (suc n) rooms = stock n rooms + rooms n

-- The threads at their first steps.
abbrev pub running : Config → Store → System
running cfg s = record {
  store = s;
  loader = visiting 0;
  buyers = λ _. record { pc = choosing; demand = first_demand };
  supplied = stock cfg.num_of_rooms s.rooms;
}

-- `main`, over a store that is not initialised, up to its first `pthread_join`.
unfoldable pub start : Config → Bool → (ℕ → ℕ) → Bool → (ℕ → Bool) → (ℕ → ℕ) → Outcome System
start cfg attr_ok rand loader_created buyer_created garbage = do
  s ← copy_mutex cfg cfg.num_of_rooms 0 (record { rooms = garbage; mutex = λ _. unset })
  (if attr_ok then done tt else exit exit_failure)
  let s' = fill_storage rand cfg.num_of_rooms 0 s
  (if loader_created then done tt else exit exit_failure)
  start_buyers buyer_created cfg.num_of_buyers 0
  done (running cfg s')
