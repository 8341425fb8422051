-- ===== src/Storage/Defs.antt =====
-- thread/storage_live/structures.h, buyer.c and loader.c, and storage_control of main.c.
-- A thread is the place where it stands, with its live locals; each access to shared memory is one
-- step. What is printed, the pauses and the seeds are left out; `rand` is any number.
use eltex_courses_homeworks.Prelude.{ℕ, ◌+◌, ◌%◌, ◌^◌, ◌<◌, ◌≡◌, ◌≢◌, if◌then◌else◌, ltb, sub32}
use eltex_courses_homeworks.Prelude.Family.{update}

-- The macros `NUM_OF_ROOMS` and `NUM_OF_BUYERS`.
pub record Config : Type 0 where
  pub num_of_rooms : ℕ
  pub num_of_buyers : ℕ

-- The length of `mutex` in `struct storage`. An access beyond it is undefined: a thread that comes to
-- one has no step.
abbrev pub num_of_mutexes : Config → ℕ
num_of_mutexes cfg = cfg.num_of_buyers + 1

-- The macros as they stand in the source.
abbrev pub source_config : Config
source_config = record { num_of_rooms = 5; num_of_buyers = 3 }

pub data Owner : Type 0 where
  the_loader : Owner
  the_buyer : ℕ → Owner

-- A `pthread_mutex_t`: not initialised, free, or locked.
pub data Mutex : Type 0 where
  unset : Mutex
  free : Mutex
  held : Owner → Mutex

-- `struct storage`
pub record Store : Type 0 where
  pub rooms : ℕ → ℕ
  pub mutex : ℕ → Mutex

-- Where a buyer stands in `buyer`.
pub data BuyerPc : Type 0 where
  choosing : BuyerPc  -- at the test of the loop
  checking : (n : ℕ) → BuyerPc  -- before the test of the room
  trying : (n : ℕ) → BuyerPc  -- before `pthread_mutex_trylock`
  taking : (n : ℕ) → BuyerPc  -- before `demand -= rooms[n]`
  emptying : (n v : ℕ) → BuyerPc  -- before `rooms[n] = 0`, with what was taken
  leaving : (n : ℕ) → BuyerPc  -- before `pthread_mutex_unlock`
  gone : BuyerPc

-- Where the loader stands in `loader`, or in `storage_control`, called after the room `i`.
pub data LoaderPc : Type 0 where
  visiting : (i : ℕ) → LoaderPc
  trying_room : (i : ℕ) → LoaderPc
  filling : (i : ℕ) → LoaderPc
  leaving_room : (i : ℕ) → LoaderPc
  locking : (k i : ℕ) → LoaderPc
  printing : (i : ℕ) → LoaderPc
  unlocking : (k i : ℕ) → LoaderPc

-- A buyer with `demand`, an `int` as its bit pattern. `demand -= rooms[n]` is unsigned.
pub record Buyer : Type 0 where
  pub pc : BuyerPc
  pub demand : ℕ

abbrev pub first_demand : ℕ
first_demand = 10000

-- `demand > 0`
abbrev pub IsPositive : ℕ → Type 0
IsPositive d = (0 < d) × (d < 2 ^ 31)

abbrev pub IsHeld : Mutex → Type 0
IsHeld unset = ⊥
IsHeld free = ⊥
IsHeld (held o) = Unit

-- What the loader brings, for a result of `rand`.
abbrev pub load : ℕ → ℕ
load r = 400 + r % 201

module _ (cfg : Config) where
  -- One step of buyer number `id`.
  pub data BuyerStep (id : ℕ) (s : Store) : BuyerPc → ℕ → Store → BuyerPc → ℕ → Type 0 where
    wants :
        {d : ℕ} (n : ℕ)
        → n < cfg.num_of_rooms
        → IsPositive d
        → BuyerStep id s choosing d s (checking n) d
    satisfied : {d : ℕ} → ¬ IsPositive d → BuyerStep id s choosing d s gone d
    sees_none : {n d : ℕ} → s.rooms n ≡ 0 → BuyerStep id s (checking n) d s choosing d
    sees_goods : {n d : ℕ} → s.rooms n ≢ 0 → BuyerStep id s (checking n) d s (trying n) d
    finds_busy :
        {n d : ℕ}
        → n < num_of_mutexes cfg
        → IsHeld (s.mutex n)
        → BuyerStep id s (trying n) d s choosing d
    locks :
        {n d : ℕ}
        → n < num_of_mutexes cfg
        → s.mutex n ≡ free
        → BuyerStep id s
            (trying n)
            d
            (record s { mutex = update s.mutex n (held (the_buyer id)) })
            (taking n)
            d
    takes : {n d : ℕ} → BuyerStep id s (taking n) d s (emptying n (s.rooms n)) (sub32 d (s.rooms n))
    empties :
        {n v d : ℕ}
        → BuyerStep id s (emptying n v) d (record s { rooms = update s.rooms n 0 }) (leaving n) d
    unlocks :
        {n d : ℕ}
        → BuyerStep id s (leaving n) d (record s { mutex = update s.mutex n free }) choosing d

  -- The next round of the loader's `for`, which `while (1)` starts again.
  abbrev pub next_room : ℕ → ℕ
  next_room i = if ltb (i + 1) cfg.num_of_rooms then i + 1 else 0

  abbrev pub after_lock : ℕ → ℕ → LoaderPc
  after_lock k i = if ltb (k + 1) (num_of_mutexes cfg) then locking (k + 1) i else printing i

  abbrev pub after_unlock : ℕ → ℕ → LoaderPc
  after_unlock k i =
      if ltb (k + 1) (num_of_mutexes cfg) then unlocking (k + 1) i else visiting (next_room i)

  -- One step of the loader, with the goods that it brings.
  pub data LoaderStep (s : Store) : LoaderPc → Store → LoaderPc → ℕ → Type 0 where
    sees_goods : {i : ℕ} → s.rooms i ≢ 0 → LoaderStep s (visiting i) s (visiting (next_room i)) 0
    sees_none : {i : ℕ} → s.rooms i ≡ 0 → LoaderStep s (visiting i) s (trying_room i) 0
    finds_busy :
        {i : ℕ}
        → i < num_of_mutexes cfg
        → IsHeld (s.mutex i)
        → LoaderStep s (trying_room i) s (visiting (next_room i)) 0
    locks :
        {i : ℕ}
        → i < num_of_mutexes cfg
        → s.mutex i ≡ free
        → LoaderStep s
            (trying_room i)
            (record s { mutex = update s.mutex i (held the_loader) })
            (filling i)
            0
    fills :
        {i : ℕ} (r : ℕ)
        → LoaderStep s
            (filling i)
            (record s { rooms = update s.rooms i (load r) })
            (leaving_room i)
            (load r)
    unlocks :
        {i : ℕ}
        → LoaderStep s (leaving_room i) (record s { mutex = update s.mutex i free }) (locking 0 i) 0
    control_locks :
        {k i : ℕ}
        → s.mutex k ≡ free
        → LoaderStep s
            (locking k i)
            (record s { mutex = update s.mutex k (held the_loader) })
            (after_lock k i)
            0
    prints : {i : ℕ} → LoaderStep s (printing i) s (unlocking 0 i) 0
    control_unlocks :
        {k i : ℕ}
        → LoaderStep s
            (unlocking k i)
            (record s { mutex = update s.mutex k free })
            (after_unlock k i)
            0

-- The process: the store, its threads, and, for the specification, the goods brought so far.
pub record System : Type 0 where
  pub store : Store
  pub loader : LoaderPc
  pub buyers : ℕ → Buyer
  pub supplied : ℕ

-- Any thread may take the next step.
pub data Step (cfg : Config) (s : System) : System → Type 0 where
  buyer_moves :
      (b : ℕ) {store : Store} {pc : BuyerPc} {d : ℕ}
      → b < cfg.num_of_buyers
      → BuyerStep cfg b s.store (s.buyers b).pc (s.buyers b).demand store pc d
      → Step cfg s
          (record s { store = store; buyers = update s.buyers b (record { pc = pc; demand = d }) })
  loader_moves :
      {store : Store} {pc : LoaderPc} {goods : ℕ}
      → LoaderStep cfg s.store s.loader store pc goods
      → Step cfg s (record s { store = store; loader = pc; supplied = s.supplied + goods })
