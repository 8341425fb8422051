-- ===== src/ServerQueue/System/Safety.antt =====
-- What holds in every state that the process of NETS/server_queue/ can reach.
use eltex_courses_homeworks.Prelude.{
  ℕ, ◌+◌, ◌<◌, ◌≡◌, ◌≢◌, refl, sym, ap, ◌∙◌, ◌⊎◌, inl, inr, List, [], ◌∷◌, ◌++◌, length, done,
  arith,
}
use mathlib.Core.Path.{subst}
use mathlib.Core.List.{append_assoc}
use native.Mathlib.Decide.{ℕ_discrete}
use eltex_courses_homeworks.Prelude.Family.{
  update, update_eq, update_ne, total, total-update, total-ge, total-eq-zero,
}
use eltex_courses_homeworks.ServerQueue.Msgbuf.{Msgbuf}
use eltex_courses_homeworks.ServerQueue.Pool.{error, Shared, Calls, Worker, undefined, service_pass}
use eltex_courses_homeworks.ServerQueue.Server.{Server, Turn, waited}
use eltex_courses_homeworks.ServerQueue.Server.Laws.{
  Put, tcp, udp, nothing, with_request, ServeOk, serve_lem,
}
use eltex_courses_homeworks.ServerQueue.System.Defs.{
  Thread, running, ended, System, Step, main_passes, thread_passes, thread_ends, Reach, here, next,
  IsTcp, IsUdp, Holds, ThreadOk, busy, is_busy, kept, keeps, socket_of, sockets, replies, leaks,
  Balanced,
}
use eltex_courses_homeworks.ServerQueue.System.Invariant.{
  Formed, Passed, PassOk, service_pass-Ok, sockets-append,
}

Formed-append :
    (q : List Msgbuf) (m : Msgbuf) → Formed q → IsTcp m ⊎ IsUdp m → Formed (q ++ (m ∷ []))
Formed-append [] m f h = (h, tt)
Formed-append (a ∷ q) m f h = (f.0, Formed-append q m f.1 h)

-- The main thread adds one well-formed request.
with_request-Balanced :
    {n base : ℕ} {s : System} (server : Server) (m : Msgbuf) (fds : ℕ)
    → IsTcp m ⊎ IsUdp m
    → fds ≡ s.shared.open_fds + socket_of m.client
    → Balanced n base s
    → Balanced n base (record s { server = server; shared = with_request s.shared m fds })
with_request-Balanced {s = s} server m fds h e inv = record {
  formed = Formed-append s.shared.queue m inv.formed h;
  threads = inv.threads;
  fifo = rw inv.fifo (append_assoc s.shared.taken s.shared.queue (m ∷ []));
  none_lost = inv.none_lost;
  answered = inv.answered;
  descriptors = omega (arith, inv.descriptors, sockets-append s.shared.queue (m ∷ []));
}

Put-Balanced :
    {n base : ℕ} {s : System} (turn : Turn) (before server : Server) {shared : Shared}
    → Put turn before s.shared shared
    → Balanced n base s
    → Balanced n base (record s { server = server; shared = shared })
Put-Balanced {n} {base} {s} turn before server (tcp sock m hit kind client text e) inv =
    subst (λ sh. Balanced n base (record s { server = server; shared = sh })) (sym e)
      (with_request-Balanced server m (s.shared.open_fds + 1) (inl (sock, kind, client))
        (rw client refl) inv)
Put-Balanced {n} {base} {s} turn before server (udp bytes m hit kind client text e) inv =
    subst (λ sh. Balanced n base (record s { server = server; shared = sh })) (sym e)
      (with_request-Balanced server m s.shared.open_fds (inr (turn.sender, kind, client))
        (rw client (omega arith)) inv)
Put-Balanced {n} {base} {s} turn before server (nothing p q e) inv =
    subst (λ sh. Balanced n base (record s { server = server; shared = sh })) (sym e)
      (record {
        formed = inv.formed;
        threads = inv.threads;
        fifo = inv.fifo;
        none_lost = inv.none_lost;
        answered = inv.answered;
        descriptors = inv.descriptors;
      })

ThreadOk-update :
    (threads : ℕ → Thread) (i : ℕ) (t : Thread)
    → ((j : ℕ) → ThreadOk (threads j))
    → ThreadOk t
    → (j : ℕ) → ThreadOk (update threads i t j)
ThreadOk-update threads i t all h j = elim (ℕ_discrete i j) [
  | yes e ↦ subst ThreadOk (sym (update_eq threads i t j e)) h
  | no ne ↦ subst ThreadOk (sym (update_ne threads i t j ne)) (all j)
]

-- A service thread makes one pass.
Passed-Balanced :
    {n base : ℕ} {s : System} (i : ℕ) (w w' : Worker) (shared : Shared)
    → i < n
    → s.threads i ≡ running w
    → Passed w.state w.request s.shared w' shared
    → Balanced n base s
    → Balanced n base (record s { shared = shared; threads = update s.threads i (running w') })
Passed-Balanced {n} {base} {s} i w w' shared lt at p inv = record {
  formed = p.formed;
  threads = ThreadOk-update s.threads i (running w') inv.threads p.holds;
  fifo = p.same_put ∙ inv.fifo ∙ sym p.fifo;
  none_lost =
      omega (
        arith,
        p.count,
        inv.none_lost,
        total-update busy n s.threads i (running w') lt,
        ap busy at,
      );
  answered = p.answered inv.answered;
  descriptors = omega (
    arith,
    p.descriptors,
    inv.descriptors,
    total-update kept n s.threads i (running w') lt,
    ap kept at,
  );
}

-- Whatever the calls give, a pass of a thread does as it should.
pass-Ok :
    (n : ℕ) {base : ℕ} {s : System} (i : ℕ) (calls : Calls) (w : Worker)
    → i < n
    → s.threads i ≡ running w
    → Balanced n base s
    → PassOk w.state w.request s.shared (service_pass calls w.state w s.shared)
pass-Ok n {s = s} i calls w lt at inv =
    service_pass-Ok calls w s.shared inv.formed w.state (subst ThreadOk at (inv.threads i))
      (omega (arith, inv.descriptors, total-ge kept n s.threads i lt, ap kept at))

-- Every pass of the main thread or of a service thread keeps the invariant of the process.
Step-Balanced : {n base : ℕ} {s t : System} → Step n s t → Balanced n base s → Balanced n base t
Step-Balanced {s = s} (main_passes turn {server} {shared} e) inv =
    let good : ServeOk turn (waited turn s.server) s.shared (done (server, shared)) =
      subst (ServeOk turn (waited turn s.server) s.shared) e (serve_lem turn s.server s.shared) in
    Put-Balanced turn (waited turn s.server) server good.1 inv
Step-Balanced {n} {base} {s = s} (thread_passes i calls {w} {w'} {shared} lt at e) inv =
    Passed-Balanced i w w' shared lt at
      (subst (PassOk w.state w.request s.shared) e (pass-Ok n i calls w lt at inv)) inv
Step-Balanced {n} {s = s} (thread_ends i calls {w} lt at e) inv = record {
  formed = inv.formed;
  threads = ThreadOk-update s.threads i ended inv.threads tt;
  fifo = inv.fifo;
  none_lost =
      omega (arith, inv.none_lost, total-update busy n s.threads i ended lt, ap busy at, idle.0);
  answered = inv.answered;
  descriptors =
      omega (arith, inv.descriptors, total-update kept n s.threads i ended lt, ap kept at, idle.1);
}
  where
    idle : (is_busy w.state ≡ 0) × (keeps w.state w.request ≡ 0)
    idle = subst (PassOk w.state w.request s.shared) e (pass-Ok n i calls w lt at inv)

pub Reach-Balanced :
    {n base : ℕ} {s t : System} → Balanced n base s → Reach n s t → Balanced n base t
Reach-Balanced inv here = inv
Reach-Balanced inv (next r st) = Step-Balanced st (Reach-Balanced inv r)

kept-idle : (t : Thread) → busy t ≡ 0 → kept t ≡ 0
kept-idle t h = ground arith

-- No thread is serving a request.
abbrev pub IsIdle : ℕ → System → Type 0
IsIdle n s = (i : ℕ) → i < n → busy (s.threads i) ≡ 0

module _ {n base : ℕ} {s t : System} (inv : Balanced n base s) (r : Reach n s t) where
  reached : Balanced n base t
  reached = Reach-Balanced inv r

  -- In every state reachable from one that satisfies the invariant, no service thread is in the
  -- state ERROR.
  never_error : (i : ℕ) (w : Worker) → t.threads i ≡ running w → w.state ≢ error
  never_error i w at bad =
      let h = subst ThreadOk at (reached.threads i) in subst (λ st. Holds st w.request) bad h

  -- In every state reachable from one that satisfies the invariant, the next pass of a service
  -- thread does not read a member of the union other than the one written.
  pub never_undefined :
      (i : ℕ) (calls : Calls) (w : Worker)
      → i < n
      → t.threads i ≡ running w
      → service_pass calls w.state w t.shared ≢ undefined
  never_undefined i calls w lt at bad =
      subst (PassOk w.state w.request t.shared) bad (pass-Ok n i calls w lt at reached)

  -- In every state reachable from one that satisfies the invariant: the requests put into the
  -- queue are those taken from it, followed by those in it, in order; as many have been taken as
  -- have been served or are with a thread; and what has been sent is the replies of the requests
  -- served with one, in the order of serving.
  pub served_once :
      (t.shared.put ≡ t.shared.taken ++ t.shared.queue)
      × (length t.shared.taken ≡ length t.shared.served + total busy n t.threads)
      × (t.shared.sent ≡ replies t.shared.served)
  served_once = (reached.fifo, reached.none_lost, reached.answered)

  -- In every state reachable from one that satisfies the invariant, while the queue is empty and
  -- no thread is serving a request, as many descriptors are open beyond the `base` of the server
  -- itself as requests were served without a reply on an open socket.
  pub descriptors_leak :
      t.shared.queue ≡ [] → IsIdle n t → t.shared.open_fds ≡ base + leaks t.shared.served
  descriptors_leak empty idle = omega (
    arith,
    reached.descriptors,
    ap sockets empty,
    total-eq-zero kept n t.threads (λ i lt. kept-idle (t.threads i) (idle i lt)),
  )
