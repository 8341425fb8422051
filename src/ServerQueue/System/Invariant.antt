-- ===== src/ServerQueue/System/Invariant.antt =====
-- Every step of the process of NETS/server_queue/ keeps the invariant.
use eltex_courses_homeworks.Prelude.{
  ℕ, ◌+◌, ◌-◌, ◌≤◌, ◌≡◌, refl, sym, ap, ◌∙◌, ◌⊎◌, inl, inr, List, [], ◌∷◌, ◌++◌, length,
  length-append, All, arith, Bool-cases,
}
use mathlib.Core.List.{append_assoc, append-nil}
use eltex_courses_homeworks.ServerQueue.Msgbuf.{
  Msgbuf, Packet, on_socket, to_addr, tcp_message, udp_message,
}
use eltex_courses_homeworks.ServerQueue.Pool.{
  State, sleep, choose, work_tcp, work_udp, error, Service, replied, unsent, no_socket, Shared,
  Calls, Worker, Pass, passed, waiting, exited, undefined, service_pass, receive_request,
}
use eltex_courses_homeworks.ServerQueue.System.Defs.{
  IsTcp, IsUdp, Holds, is_busy, socket_of, sockets, keeps, reply, replies, leaks,
}

replies-append : (xs ys : List (Msgbuf × Service)) → replies (xs ++ ys) ≡ replies xs ++ replies ys
replies-append [] ys = refl
replies-append ((m, replied) ∷ xs) ys = ap (λ r. reply m.client ∷ r) (replies-append xs ys)
replies-append ((m, unsent) ∷ xs) ys = replies-append xs ys
replies-append ((m, no_socket) ∷ xs) ys = replies-append xs ys

leaks-append : (xs ys : List (Msgbuf × Service)) → leaks (xs ++ ys) ≡ leaks xs + leaks ys
leaks-append [] ys = omega arith
leaks-append ((m, replied) ∷ xs) ys = leaks-append xs ys
leaks-append ((m, unsent) ∷ xs) ys = omega (arith, leaks-append xs ys)
leaks-append ((m, no_socket) ∷ xs) ys = leaks-append xs ys

pub sockets-append : (xs ys : List Msgbuf) → sockets (xs ++ ys) ≡ sockets xs + sockets ys
sockets-append [] ys = omega arith
sockets-append (m ∷ xs) ys = omega (arith, sockets-append xs ys)

abbrev pub Formed : List Msgbuf → Type 0
Formed = All (λ m. IsTcp m ⊎ IsUdp m)

-- What one pass of a thread in the state `st` with the request `m` does to what the threads share.
pub record Passed (st : State) (m : Msgbuf) (sh : Shared) (w' : Worker) (sh' : Shared)
    : Type 0 where
  pub holds : Holds w'.state w'.request
  pub formed : Formed sh'.queue
  pub same_put : sh'.put ≡ sh.put
  pub fifo : sh'.taken ++ sh'.queue ≡ sh.taken ++ sh.queue
  pub count :
      length sh'.taken + length sh.served + is_busy st
      ≡ length sh.taken + length sh'.served + is_busy w'.state
  pub answered : sh.sent ≡ replies sh.served → sh'.sent ≡ replies sh'.served
  pub descriptors :
      sh'.open_fds + sockets sh.queue + keeps st m + leaks sh.served
      ≡ sh.open_fds + sockets sh'.queue + keeps w'.state w'.request + leaks sh'.served

abbrev pub PassOk : State → Msgbuf → Shared → Pass → Type 0
PassOk st m sh (passed w' sh') = Passed st m sh w' sh'
PassOk st m sh waiting = Unit
PassOk st m sh exited = (is_busy st ≡ 0) × (keeps st m ≡ 0)
PassOk st m sh undefined = ⊥

receive_request-Ok :
    (w : Worker) (sh : Shared) (q : List Msgbuf)
    → sh.queue ≡ q
    → Formed q
    → PassOk sleep w.request sh (receive_request w sh q)
receive_request-Ok w sh [] e f = tt
receive_request-Ok w sh (m ∷ q) e f = record {
  holds = f.0;
  formed = f.1;
  same_put = refl;
  fifo = rw e (append_assoc sh.taken (m ∷ []) q);
  count = omega (arith, length-append sh.taken (m ∷ []));
  answered = λ h. h;
  descriptors = rw e (omega arith);
}

module _ (calls : Calls) (w : Worker) (sh : Shared) (formed : Formed sh.queue) where
  choose-Ok :
      IsTcp w.request ⊎ IsUdp w.request
      → PassOk choose w.request sh (service_pass calls choose w sh)
  unfolding service_pass
  choose-Ok (inl t) = simp t.1 (record {
    holds = t;
    formed = formed;
    same_put = refl;
    fifo = refl;
    count = refl;
    answered = λ h. h;
    descriptors = omega arith;
  })
  choose-Ok (inr u) = simp u.1 (record {
    holds = u;
    formed = formed;
    same_put = refl;
    fifo = refl;
    count = refl;
    answered = λ h. h;
    descriptors = omega arith;
  })

  -- A request has been served: what has been sent and the open descriptors are new.
  served-Passed :
      (st : State) (how : Service) (sent : List Packet) (fds : ℕ)
      → is_busy st ≡ 1
      → keeps st w.request ≡ socket_of w.request.client
      → sent ≡ sh.sent ++ replies ((w.request, how) ∷ [])
      → fds + socket_of w.request.client ≡ sh.open_fds + leaks ((w.request, how) ∷ [])
      → Passed st w.request sh
          (record w { state = sleep })
          (record sh { sent = sent; open_fds = fds; served = sh.served ++ ((w.request, how) ∷ []) })
  served-Passed st how sent fds one keep s f = record {
    holds = tt;
    formed = formed;
    same_put = refl;
    fifo = refl;
    count = omega (arith, length-append sh.served ((w.request, how) ∷ []));
    answered = λ h. s ∙ (rw h (sym (replies-append sh.served ((w.request, how) ∷ []))));
    descriptors = omega (arith, leaks-append sh.served ((w.request, how) ∷ []));
  }

  work_tcp-Ok :
      IsTcp w.request
      → socket_of w.request.client ≤ sh.open_fds
      → PassOk work_tcp w.request sh (service_pass calls work_tcp w sh)
  unfolding service_pass
  work_tcp-Ok t room = elim (Bool-cases calls.send_ok) [
    | inl good ↦
        simp (good, t.2)
          (served-Passed work_tcp replied (sh.sent ++ (on_socket t.0 tcp_message ∷ []))
            (sh.open_fds - 1) refl refl (simp t.2) (ground (arith, t.2)))
    | inr bad ↦
        simp (bad, t.2)
          (served-Passed work_tcp unsent sh.sent sh.open_fds refl refl (sym (append-nil sh.sent))
            (ground (arith, t.2)))
  ]

  work_udp-Ok : IsUdp w.request → PassOk work_udp w.request sh (service_pass calls work_udp w sh)
  unfolding service_pass
  work_udp-Ok u = elim (Bool-cases calls.socket_ok) [
    | inl there ↦ elim (Bool-cases calls.send_ok) [
      | inl good ↦
          simp (there, good, u.2)
            (served-Passed work_udp replied (sh.sent ++ (to_addr u.0 udp_message ∷ []))
              (sh.open_fds + 1 - 1) refl refl (simp u.2) (ground (arith, u.2)))
      | inr bad ↦
          simp (there, bad, u.2)
            (served-Passed work_udp unsent sh.sent (sh.open_fds + 1) refl refl
              (sym (append-nil sh.sent)) (ground (arith, u.2)))
    ]
    | inr missing ↦
        simp (missing, u.2)
          (served-Passed work_udp no_socket sh.sent sh.open_fds refl refl (sym (append-nil sh.sent))
            (ground (arith, u.2)))
  ]

  -- A pass of a thread never reads the wrong member of the union, and does no more than `Passed`.
  pub service_pass-Ok :
      (st : State)
      → Holds st w.request
      → keeps st w.request ≤ sh.open_fds
      → PassOk st w.request sh (service_pass calls st w sh)
  unfolding service_pass
  service_pass-Ok sleep h room = elim (Bool-cases calls.msgrcv_ok) [
    | inl good ↦ rw good (receive_request-Ok w sh sh.queue refl formed)
    | inr bad ↦ rw bad (refl, refl)
  ]
  service_pass-Ok choose h room = choose-Ok h
  service_pass-Ok work_tcp h room = work_tcp-Ok h room
  service_pass-Ok work_udp h room = work_udp-Ok h
  service_pass-Ok error h room = absurd h
