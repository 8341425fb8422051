-- ===== src/ServerQueue/Pool/Laws.antt =====
-- What the functions of NETS/server_queue/service_pool.c return and leave behind.
use eltex_courses_homeworks.Prelude.{
  ℕ, zero, suc, ◌+◌, ◌≡◌, ◌≢◌, Bool, true, false, some, List, [], ◌∷◌, done, arith, ◌⊎◌, inl, inr,
}
use eltex_courses_homeworks.Prelude.Int.{ℤ}
use eltex_courses_homeworks.ServerQueue.Msgbuf.{Msgbuf}
use eltex_courses_homeworks.ServerQueue.Pool.{
  success, failure, minus_one, Shared, Calls, servicing_request_tcp, servicing_request_udp,
  create_threads, generation_service_threads,
}

-- Where a service function ends, it does not return -1, whatever its calls give.
servicing-never_minus_one :
    (calls : Calls) (m : Msgbuf) (sh sh' : Shared) (ret : ℤ)
    → (servicing_request_tcp calls m sh ≡ done (ret, sh'))
      ⊎ (servicing_request_udp calls m sh ≡ done (ret, sh'))
    → ret ≢ minus_one
unfolding servicing_request_tcp servicing_request_udp
servicing-never_minus_one calls m sh sh' ret (inl h) = ground arith
servicing-never_minus_one calls m sh sh' ret (inr h) = ground arith

pub create_threads_lem :
    (created : List Bool) (n i k : ℕ) (ret : ℤ)
    → create_threads created n i ≡ some (ret, k)
    → (ret ≡ success) × (k ≡ i + n)
unfolding create_threads
create_threads_lem created zero i k ret h = ground arith
create_threads_lem [] (suc n) i k ret h = cc
create_threads_lem (true ∷ created) (suc n) i k ret h =
    let (good, all) = create_threads_lem created n (i + 1) k ret h in (good, omega arith)
create_threads_lem (false ∷ created) (suc n) i k ret h =
    create_threads_lem created (suc n) i k ret h

-- Where GenerationServiceThreads ends, it returns EXIT_FAILURE with no thread started, or
-- EXIT_SUCCESS with all the threads asked for.
generation_lem :
    (attr_ok : Bool) (created : List Bool) (n k : ℕ) (ret : ℤ)
    → generation_service_threads attr_ok created n ≡ some (ret, k)
    → ((ret ≡ failure) × (k ≡ 0)) ⊎ ((ret ≡ success) × (k ≡ n))
unfolding generation_service_threads
generation_lem true created n k ret h =
    let (good, all) = create_threads_lem created n 0 k ret h in inr (good, omega arith)
generation_lem false created n k ret h = ground arith
