-- ===== src/Storage/Ending.antt =====
-- The end of `main` of thread/storage_live/main.c: the buyers are joined, and the loader is cancelled.
-- The program as it is does not come so far.
use eltex_courses_homeworks.Prelude.{ℕ, suc, ◌+◌, ◌≤◌, ◌<◌, ◌≡◌, ◌≢◌}
use eltex_courses_homeworks.Prelude.Family.{update}
use eltex_courses_homeworks.Storage.Defs.{
  Config, Store, BuyerPc, gone, LoaderPc, locking, unlocking, BuyerStep, LoaderStep, System,
}

-- Where `main` stands: before `pthread_join` of a buyer, before `pthread_cancel`, before
-- `pthread_join` of the loader, or at its end.
pub data Main : Type 0 where
  joining : (b : ℕ) → Main
  cancelling : Main
  joining_loader : Main
  returned : Main

-- Whether the loader runs, has been cancelled, or has ended.
pub data Life : Type 0 where
  alive cancelled dead : Life

-- A cancellation takes effect in a call that prints or sleeps. Between two of its locks, and
-- between two of its unlocks, storage_control makes no such call.
abbrev pub CancelPoint : LoaderPc → Type 0
CancelPoint (locking (suc k) i) = ⊥
CancelPoint (unlocking k i) = ⊥
CancelPoint _ = Unit

pub record Process : Type 0 where
  pub threads : System
  pub main : Main
  pub life : Life

-- The process when `main` has started its threads.
abbrev pub started : System → Process
started s = record { threads = s; main = joining 0; life = alive }

pub data ProcessStep (cfg : Config) (p : Process) : Process → Type 0 where
  buyer_moves :
      (b : ℕ) {store : Store} {pc : BuyerPc} {d : ℕ}
      → b < cfg.num_of_buyers
      → BuyerStep cfg b p.threads.store
          (p.threads.buyers b).pc
          (p.threads.buyers b).demand
          store
          pc
          d
      → ProcessStep cfg p (record p {
        threads = record p.threads {
          store = store;
          buyers = update p.threads.buyers b (record { pc = pc; demand = d });
        };
      })
  loader_moves :
      {store : Store} {pc : LoaderPc} {goods : ℕ}
      → p.life ≢ dead
      → LoaderStep cfg p.threads.store p.threads.loader store pc goods
      → ProcessStep cfg p (record p {
        threads = record p.threads {
          store = store;
          loader = pc;
          supplied = p.threads.supplied + goods;
        };
      })
  joins :
      {b : ℕ}
      → p.main ≡ joining b
      → b < cfg.num_of_buyers
      → (p.threads.buyers b).pc ≡ gone
      → ProcessStep cfg p (record p { main = joining (b + 1) })
  all_joined :
      {b : ℕ}
      → p.main ≡ joining b
      → cfg.num_of_buyers ≤ b
      → ProcessStep cfg p (record p { main = cancelling })
  cancels :
      p.main ≡ cancelling → ProcessStep cfg p (record p { main = joining_loader; life = cancelled })
  loader_ends :
      p.life ≡ cancelled
      → CancelPoint p.threads.loader
      → ProcessStep cfg p (record p { life = dead })
  joins_loader :
      p.main ≡ joining_loader → p.life ≡ dead → ProcessStep cfg p (record p { main = returned })

pub data ProcessReach (cfg : Config) (p : Process) : Process → Type 0 where
  here : ProcessReach cfg p p
  next : {q r : Process} → ProcessReach cfg p q → ProcessStep cfg q r → ProcessReach cfg p r
