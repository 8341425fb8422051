-- ===== src/ServerQueue/System/Resting.antt =====
-- A service thread of NETS/server_queue/ that has taken a request can serve it.
use eltex_courses_homeworks.Prelude.{ℕ, ◌<◌, ◌≡◌, ◌≢◌, refl, ◌∙◌, inl, inr, true}
use mathlib.Core.Path.{subst}
use eltex_courses_homeworks.Prelude.Family.{update, update_eq, update_ne}
use eltex_courses_homeworks.ServerQueue.Msgbuf.{on_socket, to_addr, tcp_message, udp_message}
use eltex_courses_homeworks.ServerQueue.Pool.{
  State, sleep, choose, work_tcp, work_udp, error, Shared, Calls, Worker, passed, service_pass,
  replied, log_served, close_fd, open_fd, transmit,
}
use eltex_courses_homeworks.ServerQueue.System.Defs.{
  running, System, thread_passes, Reach, next, IsTcp, IsUdp, Holds, ThreadOk, Balanced,
}
use eltex_courses_homeworks.ServerQueue.System.Safety.{Reach-Balanced}

-- Calls that all succeed.
abbrev pub good : Calls
good = record { msgrcv_ok = true; socket_ok = true; send_ok = true }

-- A pass after which the thread is in the state `st`, and the queue is as it was.
abbrev Passes : State → Worker → Shared → Type 0
Passes st w sh =
    (w' : Worker) × (sh' : Shared) × (service_pass good w.state w sh ≡ passed w' sh')
    × (w'.state ≡ st)
    × (sh'.queue ≡ sh.queue)
    × (sh'.put ≡ sh.put)

chooses-tcp : (w : Worker) (sh : Shared) → w.state ≡ choose → IsTcp w.request → Passes work_tcp w sh
unfolding service_pass
chooses-tcp w sh e t = (record w { state = work_tcp }, sh, simp (e, t.1), refl, refl, refl)

chooses-udp : (w : Worker) (sh : Shared) → w.state ≡ choose → IsUdp w.request → Passes work_udp w sh
unfolding service_pass
chooses-udp w sh e u = (record w { state = work_udp }, sh, simp (e, u.1), refl, refl, refl)

serves-tcp : (w : Worker) (sh : Shared) → w.state ≡ work_tcp → IsTcp w.request → Passes sleep w sh
unfolding service_pass
serves-tcp w sh e t =
    let sh' = close_fd (transmit sh (on_socket t.0 tcp_message)) in
    (
      record w { state = sleep },
      log_served w.request replied sh',
      rw (e, t.2) refl,
      refl,
      refl,
      refl,
    )

serves-udp : (w : Worker) (sh : Shared) → w.state ≡ work_udp → IsUdp w.request → Passes sleep w sh
unfolding service_pass
serves-udp w sh e u =
    let sh' = close_fd (transmit (open_fd sh) (to_addr u.0 udp_message)) in
    (
      record w { state = sleep },
      log_served w.request replied sh',
      rw (e, u.2) refl,
      refl,
      refl,
      refl,
    )

module _ {n base : ℕ} {s : System} (inv : Balanced n base s) where
  -- A later state in which the thread `i` waits for a request, and no other thread has moved.
  pub record Rested (i : ℕ) (t : System) : Type 0 where
    pub to : System
    pub reach : Reach n s to
    pub worker : Worker
    pub at : to.threads i ≡ running worker
    pub asleep : worker.state ≡ sleep
    pub others : (j : ℕ) → i ≢ j → to.threads j ≡ t.threads j
    pub queue : to.shared.queue ≡ t.shared.queue
    pub put : to.shared.put ≡ t.shared.put

  module _ (i : ℕ) (lt : i < n) where
    -- What a thread holds in a state reached.
    held :
        {t : System} (w : Worker) → Reach n s t → t.threads i ≡ running w → Holds w.state w.request
    held w r at = subst ThreadOk at ((Reach-Balanced inv r).threads i)

    -- After a pass the thread rests from its new state.
    Passes-Rested :
        (st : State) (t : System) (w : Worker)
        → Reach n s t
        → t.threads i ≡ running w
        → Passes st w t.shared
        → ((u : System) (w' : Worker)
            → Reach n s u
            → u.threads i ≡ running w'
            → w'.state ≡ st
            → Rested i u)
        → Rested i t
    Passes-Rested st t w r at (w', sh', e, now, same_queue, same_put) rests =
        let u : System = record t { shared = sh'; threads = update t.threads i (running w') } in
        let v =
          rests u w' (next r (thread_passes i good lt at e))
            (update_eq t.threads i (running w') i refl) now in
        record {
          to = v.to;
          reach = v.reach;
          worker = v.worker;
          at = v.at;
          asleep = v.asleep;
          others = λ j apart. v.others j apart ∙ update_ne t.threads i (running w') j apart;
          queue = v.queue ∙ same_queue;
          put = v.put ∙ same_put;
        }

    sleeping-Rested :
        (t : System) (w : Worker)
        → Reach n s t
        → t.threads i ≡ running w
        → w.state ≡ sleep
        → Rested i t
    sleeping-Rested t w r at e = record {
      to = t;
      reach = r;
      worker = w;
      at = at;
      asleep = e;
      others = λ j apart. refl;
      queue = refl;
      put = refl;
    }

    working-Rested :
        (t : System) (w : Worker)
        → Reach n s t
        → t.threads i ≡ running w
        → Passes sleep w t.shared
        → Rested i t
    working-Rested t w r at p = Passes-Rested sleep t w r at p sleeping-Rested

    work_tcp-Rested :
        (t : System) (w : Worker)
        → Reach n s t
        → t.threads i ≡ running w
        → w.state ≡ work_tcp
        → Rested i t
    work_tcp-Rested t w r at e =
        working-Rested t w r at
          (serves-tcp w t.shared e (subst (λ st. Holds st w.request) e (held w r at)))

    work_udp-Rested :
        (t : System) (w : Worker)
        → Reach n s t
        → t.threads i ≡ running w
        → w.state ≡ work_udp
        → Rested i t
    work_udp-Rested t w r at e =
        working-Rested t w r at
          (serves-udp w t.shared e (subst (λ st. Holds st w.request) e (held w r at)))

    pub choose-Rested :
        (t : System) (w : Worker)
        → Reach n s t
        → t.threads i ≡ running w
        → w.state ≡ choose
        → Rested i t
    choose-Rested t w r at e = elim (subst (λ st. Holds st w.request) e (held w r at)) [
      | inl is_tcp ↦
          Passes-Rested work_tcp t w r at (chooses-tcp w t.shared e is_tcp) work_tcp-Rested
      | inr is_udp ↦
          Passes-Rested work_udp t w r at (chooses-udp w t.shared e is_udp) work_udp-Rested
    ]

    -- A thread that runs can serve its request.
    pub rests :
        (st : State) (t : System) (w : Worker)
        → Reach n s t
        → t.threads i ≡ running w
        → w.state ≡ st
        → Rested i t
    rests sleep t w r at e = sleeping-Rested t w r at e
    rests choose t w r at e = choose-Rested t w r at e
    rests work_tcp t w r at e = work_tcp-Rested t w r at e
    rests work_udp t w r at e = work_udp-Rested t w r at e
    rests error t w r at e = absurd (subst (λ st. Holds st w.request) e (held w r at))
