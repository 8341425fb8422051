-- ===== src/ServerQueue/Pool.antt =====
-- NETS/server_queue/service_pool.c. What is printed is left out.
pub mod Laws
use eltex_courses_homeworks.Prelude.{
  ℕ, zero, suc, ◌+◌, ◌-◌, ◌≡◌, Bool, true, false, Option, none, some, List, [], ◌∷◌, ◌++◌, ◌==◌,
  if◌then◌else◌, Outcome, done, exit, fault, deref, ◌>>=◌,
}
use eltex_courses_homeworks.Prelude.Int.{ℤ, pos, negsuc}
use eltex_courses_homeworks.ServerQueue.Msgbuf.{
  tcp_request, udp_request, ClientData, fd, client_addr, Msgbuf, Packet, on_socket, to_addr,
  tcp_message, udp_message,
}

-- `SLEEP` … `ERROR`
pub data State : Type 0 where
  sleep choose work_tcp work_udp error : State

-- The results EXIT_SUCCESS, EXIT_FAILURE and -1 of an `int` function.
abbrev pub success : ℤ
success = pos 0

abbrev pub failure : ℤ
failure = pos 1

abbrev pub minus_one : ℤ
minus_one = negsuc 0

-- `… == -1`
abbrev pub is_minus_one : ℤ → Bool
is_minus_one (pos n) = false
is_minus_one (negsuc n) = n == 0

-- How a request was served: with a reply, or without one, its socket left open or never opened.
pub data Service : Type 0 where
  replied unsent no_socket : Service

-- What the threads share: the message queue, how many descriptors the process has open, what has
-- been sent; and, for the specification, the requests put into the queue, those taken from it, and
-- those served.
pub record Shared : Type 0 where
  pub queue : List Msgbuf
  pub open_fds : ℕ
  pub sent : List Packet
  pub put : List Msgbuf
  pub taken : List Msgbuf
  pub served : List (Msgbuf × Service)

-- The results of the calls that a thread may make in one pass through its loop.
pub record Calls : Type 0 where
  pub msgrcv_ok : Bool
  pub socket_ok : Bool
  pub send_ok : Bool

abbrev pub transmit : Shared → Packet → Shared
transmit sh p = record sh { sent = sh.sent ++ (p ∷ []) }

abbrev pub close_fd : Shared → Shared
close_fd sh = record sh { open_fds = sh.open_fds - 1 }

abbrev pub open_fd : Shared → Shared
open_fd sh = record sh { open_fds = sh.open_fds + 1 }

-- A read of a member of the union that was not the one written is not modelled: `none`.
abbrev pub addr_of : ClientData → Option ℕ
addr_of (client_addr a) = some a
addr_of (fd n) = none

abbrev pub fd_of : ClientData → Option ℕ
fd_of (fd n) = some n
fd_of (client_addr a) = none

unfoldable pub servicing_request_udp : Calls → Msgbuf → Shared → Outcome (ℤ × Shared)
servicing_request_udp calls request sh = do
  addr ← deref (addr_of request.client)
  (if calls.socket_ok
      then if calls.send_ok
        then done (success, close_fd (transmit (open_fd sh) (to_addr addr udp_message)))
        else done (failure, open_fd sh)
      else done (failure, sh))

unfoldable pub servicing_request_tcp : Calls → Msgbuf → Shared → Outcome (ℤ × Shared)
servicing_request_tcp calls request sh = do
  send_sock ← deref (fd_of request.client)
  (if calls.send_ok
      then done (success, close_fd (transmit sh (on_socket send_sock tcp_message)))
      else done (success, sh))

-- The locals of `ServiceRoutine`, `request` as the last `msgrcv` left it.
pub record Worker : Type 0 where
  pub state : State
  pub request : Msgbuf

-- A pass through the loop: it comes to its end, or the thread waits in `msgrcv`, or has exited, or
-- reads the wrong member of the union.
pub data Pass : Type 0 where
  passed : Worker → Shared → Pass
  waiting : Pass
  exited : Pass
  undefined : Pass

abbrev pub log_served : Msgbuf → Service → Shared → Shared
log_served m how sh = record sh { served = sh.served ++ ((m, how) ∷ []) }

-- After a call of a `ServicingRequest` function
abbrev pub after_service : Worker → Service → Outcome (ℤ × Shared) → Pass
after_service w how (done (ret, sh)) =
    passed (record w { state = if is_minus_one ret then error else sleep })
      (log_served w.request how sh)
after_service w how (exit s) = exited
after_service w how fault = undefined

abbrev pub receive_request : Worker → Shared → List Msgbuf → Pass
receive_request w sh [] = waiting
receive_request w sh (m ∷ queue) =
    passed (record { state = choose; request = m })
      (record sh { queue = queue; taken = sh.taken ++ (m ∷ []) })

-- The `switch` of `ServiceRoutine`.
unfoldable pub service_pass : Calls → State → Worker → Shared → Pass
unfolding servicing_request_tcp servicing_request_udp
service_pass calls sleep w sh = if calls.msgrcv_ok then receive_request w sh sh.queue else exited
service_pass calls choose w sh =
    if w.request.mtype == tcp_request
    then passed (record w { state = work_tcp }) sh
    else if w.request.mtype == udp_request
    then passed (record w { state = work_udp }) sh
    else passed (record w { state = error }) sh
service_pass calls work_tcp w sh =
    after_service w (if calls.send_ok then replied else unsent)
      (servicing_request_tcp calls w.request sh)
service_pass calls work_udp w sh =
    after_service w
      (if calls.socket_ok then if calls.send_ok then replied else unsent else no_socket)
      (servicing_request_udp calls w.request sh)
service_pass calls error w sh = passed (record w { state = sleep }) sh

-- `GenerationServiceThreads`, over the results of the calls of `pthread_create`: its result and the
-- number of threads that it has started, or `none` while it is still trying.
unfoldable pub create_threads : List Bool → ℕ → ℕ → Option (ℤ × ℕ)
create_threads created zero i = some (success, i)
create_threads [] (suc n) i = none
create_threads (true ∷ created) (suc n) i = create_threads created n (i + 1)
create_threads (false ∷ created) (suc n) i = create_threads created (suc n) i

unfoldable pub generation_service_threads : Bool → List Bool → ℕ → Option (ℤ × ℕ)
unfolding create_threads
generation_service_threads attr_ok created num_thread =
    if attr_ok then create_threads created num_thread 0 else some (failure, 0)
