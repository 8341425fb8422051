-- ===== src/FiveThreads/Own.antt =====
-- The second half of `main` of thread/five_threads/main.c: each thread prints its own number once.
use eltex_courses_homeworks.Prelude.{
  ℕ, ◌+◌, ◌≤◌, ◌<◌, ◌≡◌, refl, List, [], ◌∷◌, ◌++◌, ◌==◌, if◌then◌else◌, ltb, ap, arith,
}
use native.Mathlib.Decide.{ℕ_discrete}
use eltex_courses_homeworks.FiveThreads.Defs.{
  num_of_threads, Main, creating, incrementing, joining, passed, returned, undefined, Thread,
  unborn, holding, ended, State, start, own_num, Step, creates, increments, cannot_create,
  all_created, joins, cannot_join, all_joined, reads_num, prints, reads_dead, Reach, here, next,
}

-- How often a number has been printed.
abbrev pub count : ℕ → List (ℕ × ℕ) → ℕ
count v [] = 0
count v ((i, w) ∷ ps) = (if v == w then 1 else 0) + count v ps

count-append : (v : ℕ) (ps qs : List (ℕ × ℕ)) → count v (ps ++ qs) ≡ count v ps + count v qs
count-append v [] qs = omega arith
count-append v ((i, w) ∷ ps) qs = omega (arith, count-append v ps qs)

-- What a thread at its end has printed.
abbrev pub is_ended : Thread → ℕ
is_ended ended = 1
is_ended _ = 0

-- A thread that `main` has joined, has created, or has not created, by its number.
abbrev pub Joined : Main → ℕ → Thread → Type 0
Joined (creating c) i t = (c ≤ num_of_threads) × (c ≤ i → t ≡ unborn)
Joined (incrementing c) i t = (c < num_of_threads) × (c < i → t ≡ unborn)
Joined (joining c) i t =
    (c ≤ num_of_threads) × (i < c → t ≡ ended) × (num_of_threads ≤ i → t ≡ unborn)
Joined passed i t = (i < num_of_threads → t ≡ ended) × (num_of_threads ≤ i → t ≡ unborn)
Joined returned i t = num_of_threads ≤ i → t ≡ unborn
Joined undefined i t = ⊥

pub record Inv (s : State) : Type 0 where
  pub joined : (i : ℕ) → Joined s.main i (s.threads i)
  pub held : (i v : ℕ) → s.threads i ≡ holding v → v ≡ i
  pub once : (v : ℕ) → count v s.printed ≡ is_ended (s.threads v)

start-Inv : Inv start
start-Inv = record {
  joined = λ i. (omega arith, λ h. refl);
  held = λ i v e. absurd (cc);
  once = λ v. refl;
}

Step-Inv : {s t : State} → Step own_num s t → Inv s → Inv t
Step-Inv {s} (creates {c} e lt) v = record {
  joined = λ i. ground (arith, v.joined i, v.joined c);
  held = λ i w h. ground (arith, v.held i w);
  once = λ w. ground (arith, v.once w, v.joined c);
}
Step-Inv (increments {c} e) v = record {
  joined = λ i. ground (arith, v.joined i);
  held = v.held;
  once = v.once;
}
Step-Inv {s} (cannot_create {c} e lt) v = record {
  joined = λ i. ground (arith, v.joined i);
  held = v.held;
  once = v.once;
}
Step-Inv (all_created {c} e le) v = record {
  joined = λ i. ground (arith, v.joined i);
  held = v.held;
  once = v.once;
}
Step-Inv {s} (joins {c} e lt d) v = record {
  joined = λ i. elim (ℕ_discrete i c) [
    | yes same ↦ ground (arith, v.joined i, ap s.threads same)
    | no ne ↦ ground (arith, v.joined i)
  ];
  held = v.held;
  once = v.once;
}
Step-Inv (cannot_join e lt) v = record {
  joined = λ i. ground (arith, v.joined i);
  held = v.held;
  once = v.once;
}
Step-Inv (all_joined e le) v = record {
  joined = λ i. ground (arith, v.joined i);
  held = v.held;
  once = v.once;
}
Step-Inv {s} (reads_num i {v = w} at r) v = record {
  joined = λ j. ground (arith, v.joined i, v.joined j);
  held = λ j u h. ground (arith, v.held j u);
  once = λ x. ground (arith, v.once x);
}
Step-Inv {s} (prints i {v = w} at) v = record {
  joined = λ j. ground (arith, v.joined i, v.joined j);
  held = λ j u h. ground (arith, v.held j u);
  once = λ x.
      ground (arith, v.once x, v.once i, v.held i w at, count-append x s.printed ((i, w) ∷ []));
}
Step-Inv (reads_dead i at r) v = absurd (cc)

Reach-Inv : {t : State} → Reach own_num start t → Inv t
Reach-Inv here = start-Inv
Reach-Inv (next r st) = Step-Inv st (Reach-Inv r)

-- In the second half of five_threads, in every state reachable from the start in which both loops
-- have been passed, each number below 5 has been printed exactly once, and no other number has been
-- printed.
pub each_once :
    {t : State}
    → Reach own_num start t
    → t.main ≡ passed
    → (v : ℕ) → count v t.printed ≡ (if ltb v num_of_threads then 1 else 0)
each_once {t} r e v = let inv = Reach-Inv r in ground (arith, inv.joined v, inv.once v)
