-- ===== src/ServerQueue/System/Draining.antt =====
-- The service threads of NETS/server_queue/ can always serve all the requests that were put.
use eltex_courses_homeworks.Prelude.{
  ℕ, zero, suc, ◌≤◌, ◌<◌, ◌≡◌, ◌≢◌, refl, ap, ◌∙◌, List, [], ◌∷◌, ◌++◌, length, length-append,
  arith,
}
use mathlib.Core.Path.{subst}
use native.Mathlib.Decide.{ℕ_discrete}
use eltex_courses_homeworks.Prelude.Family.{update, update_eq, total-eq-zero}
use eltex_courses_homeworks.ServerQueue.Msgbuf.{Msgbuf}
use eltex_courses_homeworks.ServerQueue.Pool.{sleep, choose, Shared, Worker, passed, service_pass}
use eltex_courses_homeworks.ServerQueue.Server.{Server}
use eltex_courses_homeworks.ServerQueue.System.Defs.{
  Thread, running, ended, System, thread_passes, Reach, here, next, busy, kept, initial, Balanced,
}
use eltex_courses_homeworks.ServerQueue.System.Safety.{Reach-Balanced, IsIdle}
use eltex_courses_homeworks.ServerQueue.System.Resting.{good, rests, choose-Rested}

-- A sleeping thread takes the first request of the queue.
takes :
    (w : Worker) (sh : Shared) (m : Msgbuf) (q : List Msgbuf)
    → w.state ≡ sleep
    → sh.queue ≡ m ∷ q
    → service_pass good w.state w sh
      ≡ passed
          (record { state = choose; request = m })
          (record sh { queue = q; taken = sh.taken ++ (m ∷ []) })
unfolding service_pass
takes w sh m q e first = rw (e, first) refl

module _ {n base : ℕ} {s : System} (inv : Balanced n base s) where
  -- A later state with an empty queue and nothing more put.
  record Emptied (t : System) : Type 0 where
    to : System
    reach : Reach n s to
    empty : to.shared.queue ≡ []
    put : to.shared.put ≡ t.shared.put

  -- A sleeping thread can empty the queue.
  drains :
      (i : ℕ) (lt : i < n) (q : List Msgbuf) (t : System) (w : Worker)
      → Reach n s t
      → t.threads i ≡ running w
      → w.state ≡ sleep
      → t.shared.queue ≡ q
      → Emptied t
  drains i lt [] t w r at e empty = record { to = t; reach = r; empty = empty; put = refl }
  drains i lt (m ∷ q) t w r at e first =
      let w₁ : Worker = record { state = choose; request = m } in
      let u : System = record t {
        shared = record t.shared { queue = q; taken = t.shared.taken ++ (m ∷ []) };
        threads = update t.threads i (running w₁);
      } in
      let v =
        choose-Rested inv i lt u w₁
          (next r (thread_passes i good lt at (takes w t.shared m q e first)))
          (update_eq t.threads i (running w₁) i refl) refl in
      let last = drains i lt q v.to v.worker v.reach v.at v.asleep v.queue in
      record { to = last.to; reach = last.reach; empty = last.empty; put = last.put ∙ v.put }

  -- A thread, running or not, is done with its request.
  rests_any :
      (i : ℕ) (lt : i < n) (t : System) (thread : Thread)
      → Reach n s t
      → t.threads i ≡ thread
      → (u : System) × Reach n s u
        × (u.shared.queue ≡ t.shared.queue)
        × (u.shared.put ≡ t.shared.put)
        × (busy (u.threads i) ≡ 0)
        × ((j : ℕ) → i ≢ j → u.threads j ≡ t.threads j)
  rests_any i lt t ended r at = (t, r, refl, refl, ap busy at, λ j apart. refl)
  rests_any i lt t (running w) r at =
      let v = rests inv i lt w.state t w r at refl in
      (v.to, v.reach, v.queue, v.put, ground (arith, v.at, v.asleep), v.others)

  -- All threads below a number are done with their requests.
  settles :
      (k : ℕ) (t : System)
      → k ≤ n
      → Reach n s t
      → (u : System) × Reach n s u
        × (u.shared.queue ≡ t.shared.queue)
        × (u.shared.put ≡ t.shared.put)
        × IsIdle k u
  settles zero t le r = (t, r, refl, refl, λ i lt. absurd (omega arith))
  settles (suc k) t le r =
      let (u, to_u, queue, put, idle) = settles k t (omega arith) r in
      let (v, to_v, queue', put', now, others) =
        rests_any k (omega arith) u (u.threads k) to_u refl in
      (
        v,
        to_v,
        queue' ∙ queue,
        put' ∙ put,
        λ i lt. elim (ℕ_discrete k i) [
          | yes same ↦ subst (λ j. busy (v.threads j) ≡ 0) same now
          | no apart ↦ ap busy (others i apart) ∙ idle i (omega (arith, apart))
        ],
      )

pub initial-Balanced :
    (n base : ℕ) (server : Server) (requests : ℕ → Msgbuf)
    → Balanced n base (initial server base requests)
initial-Balanced n base server requests =
    let idle = total-eq-zero busy n (initial server base requests).threads (λ i lt. refl) in
    let unkept = total-eq-zero kept n (initial server base requests).threads (λ i lt. refl) in
    record {
      formed = tt;
      threads = λ i. tt;
      fifo = refl;
      none_lost = omega (arith, idle);
      answered = refl;
      descriptors = omega (arith, unkept);
    }

-- In every state of the process of server_queue that is reachable from the beginning of its loop,
-- while a service thread still runs: without a further request, a state can be reached from there
-- in which the queue is empty and as many requests have been served as were ever put.
pub put_served :
    {n base : ℕ} {server : Server} {requests : ℕ → Msgbuf} {t : System} (i : ℕ) {w : Worker}
    → Reach n (initial server base requests) t
    → i < n
    → t.threads i ≡ running w
    → (u : System) × Reach n t u
      × (u.shared.put ≡ t.shared.put)
      × (u.shared.queue ≡ [])
      × (length u.shared.served ≡ length u.shared.put)
put_served {n} {base} {server} {requests} {t} i {w} r lt at =
    let now = Reach-Balanced (initial-Balanced n base server requests) r in
    let v = rests now i lt w.state t w here at refl in
    let e = drains now i lt v.to.shared.queue v.to v.worker v.reach v.at v.asleep refl in
    let (u, to_u, queue, put, idle) = settles now n e.to (omega arith) e.reach in
    let last = Reach-Balanced now to_u in
    (
      u,
      to_u,
      put ∙ e.put ∙ v.put,
      queue ∙ e.empty,
      omega (
        arith,
        last.none_lost,
        total-eq-zero busy n u.threads idle,
        ap length last.fifo,
        length-append u.shared.taken u.shared.queue,
        ap length (queue ∙ e.empty),
      ),
    )
