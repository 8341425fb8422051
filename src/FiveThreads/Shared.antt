-- ===== src/FiveThreads/Shared.antt =====
-- The first half of `main` of thread/five_threads/main.c: what the threads read from the variable of
-- the loop.
use eltex_courses_homeworks.Prelude.{ℕ, ◌≤◌, ◌<◌, ◌≡◌, refl, List, [], ◌∷◌, ◌++◌, arith, All}
use eltex_courses_homeworks.FiveThreads.Defs.{
  num_of_threads, Main, creating, incrementing, Thread, unborn, holding, State, start,
  shared_counter, Step, creates, increments, cannot_create, all_created, joins, cannot_join,
  all_joined, reads_num, prints, reads_dead, Reach, here, next,
}

-- A thread that there is has been created before the counter went on.
abbrev pub Created : Main → ℕ → Thread → Type 0
Created (creating c) i t = (c ≤ num_of_threads) × (c ≤ i → t ≡ unborn)
Created (incrementing c) i t = (c < num_of_threads) × (c < i → t ≡ unborn)
Created _ i t = Unit

-- A number that thread `i` may read.
abbrev pub InRange : ℕ × ℕ → Type 0
InRange (i, v) = (i ≤ v) × (v ≤ num_of_threads)

pub record Inv (s : State) : Type 0 where
  pub created : (i : ℕ) → Created s.main i (s.threads i)
  pub held : (i v : ℕ) → s.threads i ≡ holding v → InRange (i, v)
  pub range : All InRange s.printed

All-append_one :
    (ps : List (ℕ × ℕ)) (p : ℕ × ℕ) → All InRange ps → InRange p → All InRange (ps ++ (p ∷ []))
All-append_one [] p h g = (g, tt)
All-append_one (q ∷ ps) p h g = (h.0, All-append_one ps p h.1 g)

start-Inv : Inv start
start-Inv = record {
  created = λ i. (omega arith, λ h. refl);
  held = λ i v e. absurd (cc);
  range = tt;
}

Step-Inv : {s t : State} → Step shared_counter s t → Inv s → Inv t
Step-Inv (creates {c} e lt) v = record {
  created = λ i. ground (arith, v.created i);
  held = λ i w h. ground (arith, v.held i w);
  range = v.range;
}
Step-Inv (increments {c} e) v = record {
  created = λ i. ground (arith, v.created i);
  held = v.held;
  range = v.range;
}
Step-Inv (cannot_create e lt) v = record { created = λ i. tt; held = v.held; range = v.range }
Step-Inv (all_created e le) v = record { created = λ i. tt; held = v.held; range = v.range }
Step-Inv (joins {c} e lt d) v = record { created = λ i. tt; held = v.held; range = v.range }
Step-Inv (cannot_join e lt) v = record { created = λ i. tt; held = v.held; range = v.range }
Step-Inv (all_joined e le) v = record { created = λ i. tt; held = v.held; range = v.range }
Step-Inv {s} (reads_num i {v = w} at r) v = record {
  created = λ j. ground (arith, v.created i, v.created j);
  held = λ j u h. ground (arith, v.held j u, v.created i);
  range = v.range;
}
Step-Inv {s} (prints i {v = w} at) v = record {
  created = λ j. ground (arith, v.created i, v.created j);
  held = λ j u h. ground (arith, v.held j u);
  range = All-append_one s.printed (i, w) v.range (v.held i w at);
}
Step-Inv (reads_dead i at r) v = record { created = λ j. tt; held = v.held; range = v.range }

Reach-Inv : {t : State} → Reach shared_counter start t → Inv t
Reach-Inv here = start-Inv
Reach-Inv (next r st) = Step-Inv st (Reach-Inv r)

-- In the first half of five_threads, in every state reachable from the start, each number printed
-- by the thread `i` is at least `i` and at most 5.
pub printed-InRange : {t : State} → Reach shared_counter start t → All InRange t.printed
printed-InRange r = (Reach-Inv r).range
