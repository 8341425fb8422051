-- ===== src/ServerQueue/Server/Laws.antt =====
-- What a pass through the loop of NETS/server_queue/server.c puts into the queue.
use eltex_courses_homeworks.Prelude.{
  receive, string_of, string_of-cases, ℕ, ◌+◌, ◌≡◌, ◌≢◌, refl, ◌⊎◌, inl, inr, true, false, some,
  List, [], ◌∷◌, ◌++◌, ◌==◌, if◌then◌else◌, Outcome, done, exit, fault, arith, Bool-cases,
  Option-cases, exit_success, exit_failure,
}
use eltex_courses_homeworks.ServerQueue.Msgbuf.{tcp_request, udp_request, fd, client_addr, Msgbuf}
use eltex_courses_homeworks.ServerQueue.Pool.{Shared}
use eltex_courses_homeworks.ServerQueue.Server.{
  Server, Turn, waited, serve_tcp, serve_udp, after_wait, serve, received_over,
}

-- The shared state with one more request, and the descriptors that the process then has open.
abbrev pub with_request : Shared → Msgbuf → ℕ → Shared
with_request sh m fds = record sh {
  queue = sh.queue ++ (m ∷ []);
  put = sh.put ++ (m ∷ []);
  open_fds = fds;
}

-- A pass has put one request into the queue: of a TCP client, with its socket newly open, or of a
-- UDP client, with its address. The text is as long as the buffer.
pub data Put (turn : Turn) (s : Server) (sh sh' : Shared) : Type 0 where
  tcp :
      (sock : ℕ) (m : Msgbuf)
      → turn.accepted ≡ some sock
      → m.mtype ≡ tcp_request
      → m.client ≡ fd sock
      → m.mtext ≡ received_over turn.received s.request.mtext
      → sh' ≡ with_request sh m (sh.open_fds + 1)
      → Put turn s sh sh'
  udp :
      (bytes : List ℕ) (m : Msgbuf)
      → turn.received ≡ some bytes
      → m.mtype ≡ udp_request
      → m.client ≡ client_addr turn.sender
      → m.mtext ≡ receive bytes s.request.mtext
      → sh' ≡ with_request sh m sh.open_fds
      → Put turn s sh sh'
  nothing :
      s.triggered ≢ s.listen_socket_tcp
      → s.triggered ≢ s.listen_socket_udp
      → sh' ≡ sh
      → Put turn s sh sh'

-- What holds of each way in which a pass may end.
abbrev pub ServeOk : Turn → Server → Shared → Outcome (Server × Shared) → Type 0
ServeOk turn s sh (done (s', sh')) = (s.terminating ≡ false) × Put turn s sh sh'
ServeOk turn s sh (exit c) =
    ((s.terminating ≡ true) × (c ≡ (if turn.msgctl_ok then exit_success else exit_failure)))
    ⊎ (c ≡ exit_failure)
ServeOk turn s sh fault =
    (bytes : List ℕ) × (turn.received ≡ some bytes)
    × (string_of (receive bytes s.request.mtext) ≡ fault)

module _ (turn : Turn) (s : Server) (sh : Shared) where
  serve_tcp-Ok : s.terminating ≡ false → ServeOk turn s sh (serve_tcp turn s sh)
  unfolding serve_tcp
  serve_tcp-Ok run = elim (Option-cases turn.accepted) [
    | inl refused ↦ simp (refused, serve_tcp) (inr refl)
    | inr (sock, hit) ↦ elim (Bool-cases turn.msgsnd_ok) [
      | inl sent ↦ simp (hit, sent, serve_tcp) ((run, tcp sock _ hit refl refl refl refl))
      | inr unsent ↦ simp (hit, unsent, serve_tcp) (inr refl)
    ]
  ]

  serve_udp-Ok : s.terminating ≡ false → ServeOk turn s sh (serve_udp turn s sh)
  unfolding serve_udp
  serve_udp-Ok run = elim (Option-cases turn.received) [
    | inl refused ↦ simp (refused, serve_udp) (inr refl)
    | inr (bytes, hit) ↦ elim (Bool-cases turn.msgsnd_ok) [
      | inl sent ↦ elim (string_of-cases (receive bytes s.request.mtext)) [
        | inl unended ↦ simp (hit, sent, serve_udp, unended) (bytes, refl, unended)
        | inr (text, ended) ↦
            simp (hit, sent, serve_udp, ended) ((run, udp bytes _ hit refl refl refl refl))
      ]
      | inr unsent ↦ simp (hit, unsent, serve_udp) (inr refl)
    ]
  ]

  after_wait-Ok : ServeOk turn s sh (after_wait turn s sh)
  unfolding after_wait
  after_wait-Ok = elim (Bool-cases s.terminating) [
    | inl stop ↦ simp stop (inl (refl, refl))
    | inr run ↦ elim (Bool-cases (s.triggered == s.listen_socket_tcp)) [
      | inl is_tcp ↦ simp (run, is_tcp) (serve_tcp-Ok run)
      | inr not_tcp ↦ elim (Bool-cases (s.triggered == s.listen_socket_udp)) [
        | inl is_udp ↦ simp (run, not_tcp, is_udp) (serve_udp-Ok run)
        | inr not_udp ↦
            simp (run, not_tcp, not_udp) (refl, nothing (ground arith) (ground arith) refl)
      ]
    ]
  ]

-- A pass through the loop of main either puts exactly one request into the queue, that of the TCP
-- client accepted or of the UDP client received, or changes nothing where neither socket is
-- reported, or ends the program: with a failure, or after SIGINT with the status of the removal of
-- the queue. It is undefined only where no zero ends the text of a UDP request.
pub serve_lem :
    (turn : Turn) (s : Server) (sh : Shared) → ServeOk turn (waited turn s) sh (serve turn s sh)
unfolding serve
serve_lem turn s sh = after_wait-Ok turn (waited turn s) sh
