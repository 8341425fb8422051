-- ===== src/ServerQueue/Server.antt =====
-- `main` and TerminationHandler of NETS/server_queue/server.c. What is printed is left out, but that
-- the text of a UDP request is read for it, which is undefined where no zero ends it.
pub mod Laws
use eltex_courses_homeworks.Prelude.{
  receive, string_of, ℕ, ◌+◌, ◌≡◌, Bool, true, false, ◌||◌, Option, none, some, List, [], ◌∷◌, ◌++◌,
  ◌==◌, if◌then◌else◌, Outcome, done, exit, fault, ◌>>=◌, ◌>>◌, exit_success, exit_failure, require,
}
use eltex_courses_homeworks.ServerQueue.Msgbuf.{tcp_request, udp_request, fd, client_addr, Msgbuf}
use eltex_courses_homeworks.ServerQueue.Pool.{
  Shared, open_fd, is_minus_one, generation_service_threads,
}

-- Whether the calls before the loop succeed, in their order, and the descriptors that they give.
pub record Setup : Type 0 where
  pub msgget_ok : Bool
  pub attr_ok : Bool
  pub created : List Bool
  pub tcp_ok : Bool
  pub tcp_bind_ok : Bool
  pub listen_ok : Bool
  pub udp_ok : Bool
  pub udp_bind_ok : Bool
  pub epoll_ok : Bool
  pub epoll_ctl_udp_ok : Bool
  pub listen_socket_tcp : ℕ
  pub listen_socket_udp : ℕ

-- The locals of `main` that its loop uses; `triggered` is `triggered.data.fd`.
pub record Server : Type 0 where
  pub listen_socket_tcp : ℕ
  pub listen_socket_udp : ℕ
  pub triggered : ℕ
  pub request : Msgbuf
  pub terminating : Bool

-- `main` before its loop, over locals that are not initialised: the server and the number of
-- threads, or `none` while `GenerationServiceThreads` is still trying to create one.
unfoldable pub start : Setup → Server → Option (Outcome (Server × ℕ))
start env garbage =
    if env.msgget_ok
    then elim (generation_service_threads env.attr_ok env.created 2) [
      | none ↦ none
      | some (ret, threads) ↦
          if is_minus_one ret
          then some (exit exit_failure)
          else some (do
            require env.tcp_ok
            require env.tcp_bind_ok
            require env.listen_ok
            require env.udp_ok
            require env.udp_bind_ok
            require env.epoll_ok
            require env.epoll_ctl_udp_ok
            done (
              record garbage {
                listen_socket_tcp = env.listen_socket_tcp;
                listen_socket_udp = env.listen_socket_udp;
                terminating = false;
              },
              threads,
            ))
    ]
    else some (exit exit_failure)

-- What the calls in one pass through the loop give: `none` and `false` are results of -1. SIGINT may
-- come in the meantime.
pub record Turn : Type 0 where
  pub wait : Option ℕ
  pub sigint : Bool
  pub accepted : Option ℕ
  pub received : Option (List ℕ)
  pub sender : ℕ
  pub msgsnd_ok : Bool
  pub msgctl_ok : Bool

-- `msgsnd`, with the request that it puts into the queue. The bytes behind the request that it copies
-- besides, as many as `mtype` has, are left out.
abbrev pub send_request : Bool → Server → Shared → Outcome (Server × Shared)
send_request true s sh =
    done (s, record sh { queue = sh.queue ++ (s.request ∷ []); put = sh.put ++ (s.request ∷ []) })
send_request false s sh = exit exit_failure

abbrev pub received_over : Option (List ℕ) → List ℕ → List ℕ
received_over none old = old
received_over (some bytes) old = receive bytes old

unfoldable pub serve_tcp : Turn → Server → Shared → Outcome (Server × Shared)
serve_tcp turn s sh = elim turn.accepted [
  | none ↦ exit exit_failure
  | some client_sock ↦
      send_request turn.msgsnd_ok
        (record s {
          request = record {
            mtype = tcp_request;
            mtext = received_over turn.received s.request.mtext;
            client = fd client_sock;
          };
        })
        (open_fd sh)
]

unfoldable pub serve_udp : Turn → Server → Shared → Outcome (Server × Shared)
serve_udp turn s sh = elim turn.received [
  | none ↦ exit exit_failure
  | some bytes ↦ (do
    let mtext = receive bytes s.request.mtext
    sent ←
        send_request turn.msgsnd_ok
          (record s {
            request = record {
              mtype = udp_request;
              mtext = mtext;
              client = client_addr turn.sender;
            };
          })
          sh
    _ ← string_of mtext
    done sent)
]

abbrev pub waited : Turn → Server → Server
waited turn s = record s {
  triggered = elim turn.wait [ none ↦ s.triggered | some n ↦ n ];
  terminating = s.terminating || turn.sigint;
}

-- The loop's body after `epoll_wait`. At the label `terminating` the queue is removed and the program
-- ends.
unfoldable pub after_wait : Turn → Server → Shared → Outcome (Server × Shared)
after_wait turn s sh =
    if s.terminating
    then exit (if turn.msgctl_ok then exit_success else exit_failure)
    else if s.triggered == s.listen_socket_tcp
    then serve_tcp turn s sh
    else if s.triggered == s.listen_socket_udp
    then serve_udp turn s sh
    else done (s, sh)

-- One pass through the loop
unfoldable pub serve : Turn → Server → Shared → Outcome (Server × Shared)
unfolding after_wait serve_tcp serve_udp
serve turn s sh = after_wait turn (waited turn s) sh
