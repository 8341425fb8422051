-- ===== src/FiveThreads/Defs.antt =====
-- The two halves of `main` of thread/five_threads/main.c, each a loop that creates five threads and
-- one that joins them, and PrintNumber. The threads run in any order.
use eltex_courses_homeworks.Prelude.{ℕ, ◌+◌, ◌≤◌, ◌<◌, ◌≡◌, Option, none, some, List, [], ◌∷◌, ◌++◌}
use eltex_courses_homeworks.Prelude.Family.{update}

abbrev pub num_of_threads : ℕ
num_of_threads = 5

-- Where `main` stands: in the loop that creates at `counter`, before `++counter` there, in the loop
-- that joins at `counter`, behind both, or returned with a failure. `undefined` is after a thread
-- read a variable that was no more.
pub data Main : Type 0 where
  creating : (counter : ℕ) → Main
  incrementing : (counter : ℕ) → Main
  joining : (counter : ℕ) → Main
  passed : Main
  returned : Main
  undefined : Main

-- A thread: not created, created, before `printf` with the number that it has read, or at its end.
pub data Thread : Type 0 where
  unborn started : Thread
  holding : (num : ℕ) → Thread
  ended : Thread

-- Which numbers have been printed, and by which thread.
pub record State : Type 0 where
  pub main : Main
  pub threads : ℕ → Thread
  pub printed : List (ℕ × ℕ)

abbrev pub start : State
start = record { main = creating 0; threads = λ _. unborn; printed = [] }

-- What `* (int*) argv` reads in a thread. In the first half it is the `counter` of the loop that
-- creates, which lives as long as that loop.
abbrev pub shared_counter : Main → ℕ → Option ℕ
shared_counter (creating c) i = some c
shared_counter (incrementing c) i = some c
shared_counter _ i = none

-- In the second half it is `num[i]`, set to `i` before.
abbrev pub own_num : Main → ℕ → Option ℕ
own_num m i = some i

module _ (reads : Main → ℕ → Option ℕ) where
  pub data Step (s : State) : State → Type 0 where
    creates :
        {c : ℕ}
        → s.main ≡ creating c
        → c < num_of_threads
        → Step s (record s { main = incrementing c; threads = update s.threads c started })
    increments : {c : ℕ} → s.main ≡ incrementing c → Step s (record s { main = creating (c + 1) })
    cannot_create :
        {c : ℕ} → s.main ≡ creating c → c < num_of_threads → Step s (record s { main = returned })
    all_created :
        {c : ℕ} → s.main ≡ creating c → num_of_threads ≤ c → Step s (record s { main = joining 0 })
    joins :
        {c : ℕ}
        → s.main ≡ joining c
        → c < num_of_threads
        → s.threads c ≡ ended
        → Step s (record s { main = joining (c + 1) })
    cannot_join :
        {c : ℕ} → s.main ≡ joining c → c < num_of_threads → Step s (record s { main = returned })
    all_joined :
        {c : ℕ} → s.main ≡ joining c → num_of_threads ≤ c → Step s (record s { main = passed })
    reads_num :
        (i : ℕ) {v : ℕ}
        → s.threads i ≡ started
        → reads s.main i ≡ some v
        → Step s (record s { threads = update s.threads i (holding v) })
    prints :
        (i : ℕ) {v : ℕ}
        → s.threads i ≡ holding v
        → Step s
            (record s { threads = update s.threads i ended; printed = s.printed ++ ((i, v) ∷ []) })
    reads_dead :
        (i : ℕ)
        → s.threads i ≡ started
        → reads s.main i ≡ none
        → Step s (record s { main = undefined })

  pub data Reach (s : State) : State → Type 0 where
    here : Reach s s
    next : {t u : State} → Reach s t → Step t u → Reach s u
