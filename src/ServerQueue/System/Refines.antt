-- ===== src/ServerQueue/System/Refines.antt =====
-- Each step of the process of NETS/server_queue/ is one of the abstract office.
use eltex_courses_homeworks.Prelude.{
  ℕ, zero, suc, ◌+◌, ◌<◌, ◌≡◌, refl, sym, ap, ◌∙◌, ◌⊎◌, inl, inr, List, [], ◌∷◌, ◌++◌, done,
  Bool-cases,
}
use mathlib.Core.Path.{subst}
use mathlib.Core.List.{Perm, append_assoc, perm_middle}
use mathlib.Core.List.Perm
use mathlib.Core.Quot.{sound}
use mathlib.Mathlib.Data.Multiset.Defs.{of_list}
use eltex_courses_homeworks.Prelude.Family.{update}
use eltex_courses_homeworks.ServerQueue.Msgbuf.{Msgbuf}
use eltex_courses_homeworks.ServerQueue.Pool.{
  State, sleep, choose, work_tcp, work_udp, error, Service, Shared, Calls, Worker, Pass, passed,
  waiting, exited, undefined, receive_request, service_pass,
}
use eltex_courses_homeworks.ServerQueue.Server.{Server, Turn, waited}
use eltex_courses_homeworks.ServerQueue.Server.Laws.{
  Put, tcp, udp, nothing, with_request, ServeOk, serve_lem,
}
use eltex_courses_homeworks.ServerQueue.System.Defs.{
  running, ended, System, Step, main_passes, thread_passes, thread_ends, Reach, here, next, IsTcp,
  IsUdp, Holds, ThreadOk, Balanced, initial,
}
use eltex_courses_homeworks.ServerQueue.System.Safety.{Reach-Balanced}
use eltex_courses_homeworks.ServerQueue.System.Draining.{initial-Balanced}
use eltex_courses_homeworks.ServerQueue.System.Abstract.{
  empty_office, OfficeStep, idles, arrives, serves, OfficeReach, at_first, later, hand, hand_of,
  hands, office,
}
use eltex_courses_homeworks.ServerQueue.System.Hands.{hands-update, hands-same}

-- What a pass of a thread in the state `st` with the request `m` does to the requests.
data Moved (st : State) (m : Msgbuf) (sh : Shared) (w' : Worker) (sh' : Shared) : Type 0 where
  took :
      (first : Msgbuf)
      → sh.queue ≡ first ∷ sh'.queue
      → hand st m ≡ []
      → hand w'.state w'.request ≡ first ∷ []
      → sh'.served ≡ sh.served
      → sh'.put ≡ sh.put
      → Moved st m sh w' sh'
  went_on :
      sh'.queue ≡ sh.queue
      → hand w'.state w'.request ≡ hand st m
      → sh'.served ≡ sh.served
      → sh'.put ≡ sh.put
      → Moved st m sh w' sh'
  finished :
      (how : Service)
      → sh'.queue ≡ sh.queue
      → hand st m ≡ m ∷ []
      → hand w'.state w'.request ≡ []
      → sh'.served ≡ sh.served ++ ((m, how) ∷ [])
      → sh'.put ≡ sh.put
      → Moved st m sh w' sh'

abbrev MovedOk : State → Msgbuf → Shared → Pass → Type 0
MovedOk st m sh (passed w' sh') = Moved st m sh w' sh'
MovedOk st m sh waiting = Unit
MovedOk st m sh exited = hand st m ≡ []
MovedOk st m sh undefined = ⊥

receive_request-MovedOk :
    (w : Worker) (sh : Shared) (q : List Msgbuf)
    → sh.queue ≡ q
    → MovedOk sleep w.request sh (receive_request w sh q)
receive_request-MovedOk w sh [] e = tt
receive_request-MovedOk w sh (m ∷ q) e = took m e refl refl refl refl

service_pass-MovedOk :
    (calls : Calls) (w : Worker) (sh : Shared) (st : State)
    → Holds st w.request
    → MovedOk st w.request sh (service_pass calls st w sh)
unfolding service_pass
service_pass-MovedOk calls w sh sleep h = elim (Bool-cases calls.msgrcv_ok) [
  | inl good ↦ rw good (receive_request-MovedOk w sh sh.queue refl)
  | inr bad ↦ rw bad refl
]
service_pass-MovedOk calls w sh choose (inl t) = simp t.1 (went_on refl refl refl refl)
service_pass-MovedOk calls w sh choose (inr u) = simp u.1 (went_on refl refl refl refl)
service_pass-MovedOk calls w sh work_tcp t = elim (Bool-cases calls.send_ok) [
  | inl good ↦ simp (good, t.2) (finished _ refl refl refl refl refl)
  | inr bad ↦ simp (bad, t.2) (finished _ refl refl refl refl refl)
]
service_pass-MovedOk calls w sh work_udp u = elim (Bool-cases calls.socket_ok) [
  | inl there ↦ elim (Bool-cases calls.send_ok) [
    | inl good ↦ simp (there, good, u.2) (finished _ refl refl refl refl refl)
    | inr bad ↦ simp (there, bad, u.2) (finished _ refl refl refl refl refl)
  ]
  | inr missing ↦ simp (missing, u.2) (finished _ refl refl refl refl refl)
]
service_pass-MovedOk calls w sh error h = absurd h

-- A pass of a thread, as a step of the office.
Moved-OfficeStep :
    (n : ℕ) (s : System) (i : ℕ) (w w' : Worker) (shared : Shared)
    → i < n
    → s.threads i ≡ running w
    → Moved w.state w.request s.shared w' shared
    → OfficeStep
        (office n s)
        (office n (record s { shared = shared; threads = update s.threads i (running w') }))
Moved-OfficeStep n s i w w' shared lt at (took m first free got same put) =
    let p = hands-update n s.threads i (running w') lt in
    let q : Perm (m ∷ hands n s.threads) (hands n (update s.threads i (running w'))) =
      rw (got, ap hand_of at, free) at p in
    idles put
      (sound (
        rw first (
          Perm.trans (Perm.append_left shared.queue (Perm.symm q))
            (perm_middle shared.queue (hands n s.threads)))))
      same
Moved-OfficeStep n s i w w' shared lt at (went_on queue same_hand same put) =
    let h : hand_of (running w') ≡ hand_of (s.threads i) = same_hand ∙ sym (ap hand_of at) in
    idles put (rw (queue, hands-same n s.threads i (running w') h) refl) same
Moved-OfficeStep n s i w w' shared lt at (finished how queue busy free logged put) =
    let p = hands-update n s.threads i (running w') lt in
    let q : Perm (hands n s.threads) (w.request ∷ hands n (update s.threads i (running w'))) =
      rw (free, ap hand_of at, busy) at p in
    serves w.request how put
      (sound (
        rw queue (
          Perm.trans (Perm.append_left s.shared.queue q)
            (perm_middle s.shared.queue (hands n (update s.threads i (running w')))))))
      logged

-- A request goes into the queue.
arrives-OfficeStep :
    (n : ℕ) (s : System) (server : Server) (m : Msgbuf) (fds : ℕ)
    → IsTcp m ⊎ IsUdp m
    → OfficeStep
        (office n s)
        (office n (record s { server = server; shared = with_request s.shared m fds }))
arrives-OfficeStep n s server m fds formed =
    arrives m formed refl
      (sound (
        rw (append_assoc s.shared.queue (m ∷ []) (hands n s.threads))
          (perm_middle s.shared.queue (hands n s.threads))))
      refl

Put-OfficeStep :
    (n : ℕ) (s : System) (turn : Turn) (before server : Server) {shared : Shared}
    → Put turn before s.shared shared
    → OfficeStep (office n s) (office n (record s { server = server; shared = shared }))
Put-OfficeStep n s turn before server (tcp sock m hit kind client text e) =
    subst (λ sh. OfficeStep (office n s) (office n (record s { server = server; shared = sh })))
      (sym e) (arrives-OfficeStep n s server m (s.shared.open_fds + 1) (inl (sock, kind, client)))
Put-OfficeStep n s turn before server (udp bytes m hit kind client text e) =
    subst (λ sh. OfficeStep (office n s) (office n (record s { server = server; shared = sh })))
      (sym e) (arrives-OfficeStep n s server m s.shared.open_fds (inr (turn.sender, kind, client)))
Put-OfficeStep n s turn before server (nothing p q e) = idles (rw e refl) (rw e refl) (rw e refl)

Step-OfficeStep :
    {n base : ℕ} {s t : System}
    → Step n s t
    → Balanced n base s
    → OfficeStep (office n s) (office n t)
Step-OfficeStep {n} {s = s} (main_passes turn {server} {shared} e) inv =
    let ok : ServeOk turn (waited turn s.server) s.shared (done (server, shared)) =
      subst (ServeOk turn (waited turn s.server) s.shared) e (serve_lem turn s.server s.shared) in
    Put-OfficeStep n s turn (waited turn s.server) server ok.1
Step-OfficeStep {n} {s = s} (thread_passes i calls {w} {w'} {shared} lt at e) inv =
    Moved-OfficeStep n s i w w' shared lt at (
      subst (MovedOk w.state w.request s.shared) e
        (service_pass-MovedOk calls w s.shared w.state (subst ThreadOk at (inv.threads i))))
Step-OfficeStep {n} {s = s} (thread_ends i calls {w} lt at e) inv =
    let free =
      subst (MovedOk w.state w.request s.shared) e
        (service_pass-MovedOk calls w s.shared w.state (subst ThreadOk at (inv.threads i))) in
    let h : [] ≡ hand_of (s.threads i) = sym (ap hand_of at ∙ free) in
    idles refl (rw (hands-same n s.threads i ended h) refl) refl

hands-initial :
    (n : ℕ) (requests : ℕ → Msgbuf)
    → hands n (λ i. running (record { state = sleep; request = requests i })) ≡ []
unfolding hands
hands-initial zero requests = refl
hands-initial (suc n) requests = hands-initial n requests

initial-OfficeReach :
    {n base : ℕ} {server : Server} {requests : ℕ → Msgbuf} {t : System}
    → Reach n (initial server base requests) t
    → OfficeReach empty_office (office n t)
initial-OfficeReach {n} {requests = requests} here =
    subst
      (λ l. OfficeReach empty_office (record { arrived = []; pending = of_list l; served = [] }))
      (sym (hands-initial n requests)) at_first
initial-OfficeReach {n} {base} {server} {requests} (next r st) =
    later (initial-OfficeReach r)
      (Step-OfficeStep st (Reach-Balanced (initial-Balanced n base server requests) r))

-- Every state of the process of server_queue that is reachable from the beginning of its loop is,
-- as an office that has neither queue nor threads, reachable from the empty office, and each step
-- from it is one of that office. The office has the requests that were put into the queue, in
-- order; those pending, a multiset, which are those in the queue and those with a thread; and those
-- served. In a step nothing changes, or one well-formed request arrives and is pending, or one
-- pending request is pending no more and is served.
pub Step-refines :
    {n base : ℕ} {server : Server} {requests : ℕ → Msgbuf} {s t : System}
    → Reach n (initial server base requests) s
    → Step n s t
    → OfficeReach empty_office (office n s) × OfficeStep (office n s) (office n t)
Step-refines {n} {base} {server} {requests} r st = (
  initial-OfficeReach r,
  Step-OfficeStep st (Reach-Balanced (initial-Balanced n base server requests) r),
)
