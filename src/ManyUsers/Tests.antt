-- ===== src/ManyUsers/Tests.antt =====
-- A run of the server of NETS/multi-user UDP_ECHO/ with one client.
use eltex_courses_homeworks.Prelude.{
  ℕ, ◌≤◌, ◌≡◌, refl, true, false, none, ◌>>=◌, arith, length-zeros, List, [], ◌∷◌, ◌++◌, codes,
  length, receive, string_of, done, some, zeros, ℕ_discrete,
}
use eltex_courses_homeworks.ManyUsers.Defs
use eltex_courses_homeworks.ManyUsers.Defs.{
  clear, Child, child_of, sending, receiving, opens, sends, receives, System, request, forks,
  child_steps, Reach, here, next,
}
use eltex_courses_homeworks.ManyUsers.Client
use eltex_courses_homeworks.ManyUsers.Client.{application, data_to_send, Turn, start, passes}
use eltex_courses_homeworks.ManyUsers.Greeting.{start-prints}
use eltex_courses_homeworks.ManyUsers.Replies.{overlaid, replies, Reach-replies}

-- The buffer of the process at the `fork`, and after the first message.
abbrev asked : List ℕ
asked = receive application (zeros 500)

asked-string : string_of asked ≡ done (codes "Pls, give me new process")
unfolding string_of
asked-string = refl

-- The client 7 has been answered, and has sent its message.
abbrev answered : Child
answered = record {
  client = 7;
  buf = overlaid asked data_to_send;
  phase = sending;
  forked = asked;
  received = data_to_send ∷ [];
  sent = asked ∷ [];
}

served : (t : System) × Reach (Defs.start (zeros 500)) t × (t.children 0 ≡ some answered)
unfolding ℕ_discrete
served =
    let asks = next here (request 7 application refl asked-string) in
    let forked = next asks (forks refl) in
    let opened = next forked (child_steps 0 {c = child_of 7 asked} refl (opens refl)) in
    let sent = next opened (child_steps 0 refl (sends refl)) in
    (_, next sent (child_steps 0 refl (receives data_to_send refl)), refl)

Reach-replies_example :
    (rest : List (List ℕ)) × ((asked ∷ []) ++ rest ≡ replies asked (data_to_send ∷ []))
    × (length rest ≤ 1)
Reach-replies_example =
    Reach-replies {garbage = zeros 500} {t = served.0} 0 {c = answered} served.1 served.2

-- The message has been sent back.
abbrev replied : Child
replied = record {
  client = 7;
  buf = clear (overlaid asked data_to_send);
  phase = receiving;
  forked = asked;
  received = data_to_send ∷ [];
  sent = asked ∷ overlaid asked data_to_send ∷ [];
}

again : (t : System) × Reach (Defs.start (zeros 500)) t × (t.children 0 ≡ some replied)
unfolding ℕ_discrete
again =
    let (t, run, at) = served in (_, next run (child_steps 0 {c = answered} at (sends refl)), refl)

-- The client fails to send once, and then receives the reply.
abbrev turns : List Turn
turns =
    record { send_ok = false; received = none }
    ∷ record { send_ok = true; received = some (overlaid asked data_to_send) }
    ∷ []

abbrev client : Client.Client
client = record { buf = zeros 500; sent = []; printed = [] }

start-prints_example :
    (client' : Client.Client) × ((start true true true client >>= passes turns) ≡ done client')
    × (client'.printed ≡ [] ++ (codes "Hi!" ∷ []))
    × (client'.sent ≡ [] ++ (application ∷ data_to_send ∷ []))
start-prints_example =
    start-prints {garbage = zeros 500} {t = again.0} 0 {c = replied} asked
      (overlaid asked data_to_send ∷ []) turns client again.1 (omega (arith, length-zeros 500))
      again.2 (refl, tt) refl refl (omega (arith, length-zeros 500))
