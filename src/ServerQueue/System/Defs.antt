-- ===== src/ServerQueue/System/Defs.antt =====
-- The steps of the whole process of NETS/server_queue/, and its invariant.
use eltex_courses_homeworks.Prelude.{
  ℕ, ◌+◌, ◌<◌, ◌≡◌, List, [], ◌∷◌, ◌++◌, suc, ◌⊎◌, length, All, done,
}
use eltex_courses_homeworks.Prelude.Family.{update, total}
use eltex_courses_homeworks.ServerQueue.Msgbuf.{
  tcp_request, udp_request, tcp_message, udp_message, ClientData, fd, client_addr, Msgbuf, Packet,
  on_socket, to_addr,
}
use eltex_courses_homeworks.ServerQueue.Pool.{
  State, sleep, choose, work_tcp, work_udp, error, Service, replied, unsent, Shared, Calls, Worker,
  passed, exited, service_pass,
}
use eltex_courses_homeworks.ServerQueue.Server.{Server, Turn, serve}

-- A service thread runs, or has left `ServiceRoutine`.
pub data Thread : Type 0 where
  running : Worker → Thread
  ended : Thread

pub record System : Type 0 where
  pub server : Server
  pub shared : Shared
  pub threads : ℕ → Thread

-- `main` in front of its loop: the queue is new, `base` descriptors are open, and each thread is
-- before its first pass, its `request` not initialised.
abbrev pub initial : Server → ℕ → (ℕ → Msgbuf) → System
initial server base requests = record {
  server = server;
  shared = record { queue = []; open_fds = base; sent = []; put = []; taken = []; served = [] };
  threads = λ i. running (record { state = sleep; request = requests i });
}

pub data Step (n : ℕ) (s : System) : System → Type 0 where
  main_passes :
      (turn : Turn) {server : Server} {shared : Shared}
      → serve turn s.server s.shared ≡ done (server, shared)
      → Step n s (record s { server = server; shared = shared })
  thread_passes :
      (i : ℕ) (calls : Calls) {w w' : Worker} {shared : Shared}
      → i < n
      → s.threads i ≡ running w
      → service_pass calls w.state w s.shared ≡ passed w' shared
      → Step n s (record s { shared = shared; threads = update s.threads i (running w') })
  thread_ends :
      (i : ℕ) (calls : Calls) {w : Worker}
      → i < n
      → s.threads i ≡ running w
      → service_pass calls w.state w s.shared ≡ exited
      → Step n s (record s { threads = update s.threads i ended })

pub data Reach (n : ℕ) (s : System) : System → Type 0 where
  here : Reach n s s
  next : {t u : System} → Reach n s t → Step n t u → Reach n s u

-- A request of one of the two kinds, with the member of the union that belongs to it.
abbrev pub IsTcp : Msgbuf → Type 0
IsTcp m = (sock : ℕ) × (m.mtype ≡ tcp_request) × (m.client ≡ fd sock)

abbrev pub IsUdp : Msgbuf → Type 0
IsUdp m = (addr : ℕ) × (m.mtype ≡ udp_request) × (m.client ≡ client_addr addr)

-- What a thread holds in each of its states.
abbrev pub Holds : State → Msgbuf → Type 0
Holds sleep m = Unit
Holds choose m = IsTcp m ⊎ IsUdp m
Holds work_tcp m = IsTcp m
Holds work_udp m = IsUdp m
Holds error m = ⊥

abbrev pub ThreadOk : Thread → Type 0
ThreadOk ended = Unit
ThreadOk (running w) = Holds w.state w.request

-- A thread that has taken a request and not yet served it.
abbrev pub is_busy : State → ℕ
is_busy choose = 1
is_busy work_tcp = 1
is_busy work_udp = 1
is_busy _ = 0

abbrev pub busy : Thread → ℕ
busy ended = 0
busy (running w) = is_busy w.state

-- The descriptor that a request keeps open.
abbrev pub socket_of : ClientData → ℕ
socket_of (fd n) = 1
socket_of (client_addr a) = 0

abbrev pub sockets : List Msgbuf → ℕ
sockets [] = 0
sockets (m ∷ ms) = socket_of m.client + sockets ms

abbrev pub keeps : State → Msgbuf → ℕ
keeps choose m = socket_of m.client
keeps work_tcp m = socket_of m.client
keeps work_udp m = socket_of m.client
keeps _ m = 0

abbrev pub kept : Thread → ℕ
kept ended = 0
kept (running w) = keeps w.state w.request

abbrev pub reply : ClientData → Packet
reply (fd n) = on_socket n tcp_message
reply (client_addr a) = to_addr a udp_message

-- The replies of the requests that were served with one, and the sockets left open by the others.
abbrev pub replies : List (Msgbuf × Service) → List Packet
replies [] = []
replies ((m, replied) ∷ rest) = reply m.client ∷ replies rest
replies ((m, _) ∷ rest) = replies rest

abbrev pub leaks : List (Msgbuf × Service) → ℕ
leaks [] = 0
leaks ((m, unsent) ∷ rest) = suc (leaks rest)
leaks ((m, _) ∷ rest) = leaks rest

-- `base` is the number of descriptors that the server has open for itself.
pub record Balanced (n base : ℕ) (s : System) : Type 0 where
  pub formed : All (λ m. IsTcp m ⊎ IsUdp m) s.shared.queue
  pub threads : (i : ℕ) → ThreadOk (s.threads i)
  pub fifo : s.shared.put ≡ s.shared.taken ++ s.shared.queue
  pub none_lost : length s.shared.taken ≡ length s.shared.served + total busy n s.threads
  pub answered : s.shared.sent ≡ replies s.shared.served
  pub descriptors :
      s.shared.open_fds
      ≡ base + sockets s.shared.queue + total kept n s.threads + leaks s.shared.served
