-- ===== src/ServerQueue/System/Abstract.antt =====
-- What NETS/server_queue/ does, without its queue and its threads: requests arrive, and each is
-- served, in any order.
use eltex_courses_homeworks.Prelude.{ℕ, zero, suc, ◌≡◌, ◌⊎◌, List, [], ◌∷◌, ◌++◌}
use mathlib.Mathlib.Data.Multiset.Defs.{Multiset, of_list}
use mathlib.Mathlib.Data.Multiset.ZeroCons.{cons}
use eltex_courses_homeworks.ServerQueue.Msgbuf.{Msgbuf}
use eltex_courses_homeworks.ServerQueue.Pool.{State, choose, work_tcp, work_udp, Service}
use eltex_courses_homeworks.ServerQueue.System.Defs.{Thread, running, ended, IsTcp, IsUdp, System}

-- The requests that have come, those that are still to be served, in no order, and those served.
pub record Office : Type 0 where
  pub arrived : List Msgbuf
  pub pending : Multiset Msgbuf
  pub served : List (Msgbuf × Service)

abbrev pub empty_office : Office
empty_office = record { arrived = []; pending = of_list []; served = [] }

pub data OfficeStep (a b : Office) : Type 0 where
  idles : b.arrived ≡ a.arrived → b.pending ≡ a.pending → b.served ≡ a.served → OfficeStep a b
  arrives :
      (m : Msgbuf)
      → IsTcp m ⊎ IsUdp m
      → b.arrived ≡ a.arrived ++ (m ∷ [])
      → b.pending ≡ cons m a.pending
      → b.served ≡ a.served
      → OfficeStep a b
  serves :
      (m : Msgbuf) (how : Service)
      → b.arrived ≡ a.arrived
      → a.pending ≡ cons m b.pending
      → b.served ≡ a.served ++ ((m, how) ∷ [])
      → OfficeStep a b

pub data OfficeReach (a : Office) : Office → Type 0 where
  at_first : OfficeReach a a
  later : {b c : Office} → OfficeReach a b → OfficeStep b c → OfficeReach a c

-- The request that a thread has taken and not yet served.
abbrev pub hand : State → Msgbuf → List Msgbuf
hand choose m = m ∷ []
hand work_tcp m = m ∷ []
hand work_udp m = m ∷ []
hand _ m = []

abbrev pub hand_of : Thread → List Msgbuf
hand_of ended = []
hand_of (running w) = hand w.state w.request

unfoldable pub hands : ℕ → (ℕ → Thread) → List Msgbuf
hands zero threads = []
hands (suc n) threads = hand_of (threads n) ++ hands n threads

-- The process as such an office: the requests in the queue and those with its threads.
abbrev pub office : ℕ → System → Office
office n s = record {
  arrived = s.shared.put;
  pending = of_list (s.shared.queue ++ hands n s.threads);
  served = s.shared.served;
}
