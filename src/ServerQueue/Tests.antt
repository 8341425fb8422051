-- ===== src/ServerQueue/Tests.antt =====
-- Runs of NETS/server_queue/ with two service threads.
use eltex_courses_homeworks.Prelude.{
  ℕ, ◌+◌, ◌<◌, ◌≡◌, ◌≢◌, refl, true, false, some, [], ◌∷◌, ◌++◌, length, arith, ℕ_discrete,
}
use eltex_courses_homeworks.Prelude.Family.{update, total}
use eltex_courses_homeworks.ServerQueue.Msgbuf.{tcp_request, fd, client_addr, Msgbuf}
use eltex_courses_homeworks.ServerQueue.Pool.{
  State, sleep, choose, work_tcp, unsent, Shared, Calls, undefined, service_pass,
}
use eltex_courses_homeworks.ServerQueue.Server.{Server, Turn, serve}
use eltex_courses_homeworks.ServerQueue.System.Defs.{
  initial, running, System, Step, main_passes, thread_passes, Reach, here, next, busy, replies,
  leaks, Balanced,
}
use eltex_courses_homeworks.ServerQueue.System.Abstract.{
  empty_office, OfficeStep, OfficeReach, office,
}
use eltex_courses_homeworks.ServerQueue.System.Refines.{Step-refines}
use eltex_courses_homeworks.ServerQueue.System.Draining.{put_served}
use eltex_courses_homeworks.ServerQueue.System.Safety.{
  served_once, never_undefined, descriptors_leak,
}

abbrev blank : Msgbuf
blank = record { mtype = 0; mtext = 0 ∷ 0 ∷ 0 ∷ []; client = client_addr 0 }

abbrev server : Server
server = record {
  listen_socket_tcp = 3;
  listen_socket_udp = 4;
  triggered = 0;
  request = blank;
  terminating = false;
}

abbrev quiet : Shared
quiet = record { queue = []; open_fds = 6; sent = []; put = []; taken = []; served = [] }

abbrev at_start : System
at_start = initial server 6 (λ _. blank)

at_start-Balanced : Balanced 2 6 at_start
unfolding total
at_start-Balanced = record {
  formed = tt;
  threads = λ i. tt;
  fifo = refl;
  none_lost = refl;
  answered = refl;
  descriptors = refl;
}

-- A TCP client sends two bytes.
abbrev client_comes : Turn
client_comes = record {
  wait = some 3;
  sigint = false;
  accepted = some 7;
  received = some (b'H' ∷ b'i' ∷ []);
  sender = 0;
  msgsnd_ok = true;
  msgctl_ok = true;
}

abbrev request : Msgbuf
request = record { mtype = tcp_request; mtext = b'H' ∷ b'i' ∷ 0 ∷ []; client = fd 7 }

abbrev queued : Shared
queued = record quiet { queue = request ∷ []; open_fds = 7; put = request ∷ [] }

abbrev after_client : System
after_client = record at_start {
  server = record server { triggered = 3; request = request };
  shared = queued;
}

comes : Step 2 at_start after_client
unfolding serve
comes = main_passes client_comes refl

-- The thread 1 takes the request, and its reply cannot be sent.
abbrev calls : Calls
calls = record { msgrcv_ok = true; socket_ok = true; send_ok = false }

abbrev taken_shared : Shared
taken_shared = record queued { queue = []; taken = request ∷ [] }

abbrev thread_at : System → Shared → State → System
thread_at s sh st = record s {
  shared = sh;
  threads = update s.threads 1 (running (record { state = st; request = request }));
}

abbrev choosing : System
choosing = thread_at after_client taken_shared choose

abbrev working : System
working = thread_at choosing taken_shared work_tcp

abbrev unserved : System
unserved = thread_at working (record taken_shared { served = (request, unsent) ∷ [] }) sleep

to_working : Reach 2 at_start working
unfolding ℕ_discrete service_pass
to_working =
    next (next (next here comes) (thread_passes 1 calls (omega arith) refl refl))
      (thread_passes 1 calls (omega arith) refl refl)

to_unserved : Reach 2 at_start unserved
unfolding ℕ_discrete service_pass
to_unserved = next to_working (thread_passes 1 calls (omega arith) refl refl)

served_once_example :
    (unserved.shared.put ≡ unserved.shared.taken ++ unserved.shared.queue)
    × (length unserved.shared.taken ≡ length unserved.shared.served + total busy 2 unserved.threads)
    × (unserved.shared.sent ≡ replies unserved.shared.served)
served_once_example =
    served_once {n = 2} {base = 6} {s = at_start} {t = unserved} at_start-Balanced to_unserved

descriptors_leak_example : unserved.shared.open_fds ≡ 6 + leaks unserved.shared.served
descriptors_leak_example =
    descriptors_leak {n = 2} {base = 6} {s = at_start} {t = unserved} at_start-Balanced to_unserved
      refl idle
  where
    idle : (i : ℕ) → i < 2 → busy (unserved.threads i) ≡ 0
    idle i lt = ground arith

-- The thread 0 has not moved.
put_served_example :
    (u : System) × Reach 2 working u
    × (u.shared.put ≡ request ∷ [])
    × (u.shared.queue ≡ [])
    × (length u.shared.served ≡ length u.shared.put)
unfolding ℕ_discrete
put_served_example =
    put_served {n = 2} {base = 6} {server = server} {requests = λ _. blank} {t = working} 0
      to_working (omega arith) refl

Step-refines_example :
    OfficeReach empty_office (office 2 at_start)
    × OfficeStep (office 2 at_start) (office 2 after_client)
Step-refines_example =
    Step-refines {n = 2} {base = 6} {server = server} {requests = λ _. blank} {s = at_start}
      {t = after_client} here comes

never_undefined_example :
    service_pass calls work_tcp (record { state = work_tcp; request = request }) taken_shared
    ≢ undefined
unfolding ℕ_discrete
never_undefined_example =
    never_undefined {n = 2} {base = 6} {s = at_start} {t = working} at_start-Balanced to_working 1
      calls (record { state = work_tcp; request = request }) (omega arith) refl
