-- ===== src/ManyUsers/Tcp/Tests.antt =====
-- A run of the server of NETS/multi-user TCP_ECHO/ with one client.
use eltex_courses_homeworks.Prelude.{
  ℕ, ◌≤◌, ◌≡◌, refl, ◌>>◌, true, false, none, arith, List, [], ◌∷◌, ◌++◌, codes, length, receive,
  done, some, zeros, length-zeros, ℕ_discrete,
}
use eltex_courses_homeworks.ManyUsers.Tcp.{
  send_from_serv, Child, child_of, receiving, greets, receives, sends, System, first, accepts,
  forks, child_steps, Reach, here, next,
}
use eltex_courses_homeworks.ManyUsers.Tcp.Client
use eltex_courses_homeworks.ManyUsers.Tcp.Client.{start, message_to, Turn, connected}
use eltex_courses_homeworks.ManyUsers.Tcp.Replies.{echoes, Reach-echoes}
use eltex_courses_homeworks.ManyUsers.Tcp.Welcome.{connected-prints}

abbrev echo : List ℕ
echo = receive message_to (zeros 500)

-- The process of the descriptor 4 has greeted its client and sent its message back.
abbrev echoed : Child
echoed = record {
  cfd = some 4;
  buf = echo;
  phase = receiving;
  forked = zeros 500;
  received = message_to ∷ [];
  sent = send_from_serv ∷ echo ∷ [];
}

served : (t : System) × Reach (first (zeros 500)) t × (t.children 0 ≡ some echoed)
unfolding ℕ_discrete
served =
    let accepted = next here (accepts (some 4) refl) in
    let forked = next accepted (forks refl) in
    let child = child_of (some 4) (zeros 500) in
    let greeted = next forked (child_steps 0 {c = child} refl (greets refl)) in
    let heard = next greeted (child_steps 0 refl (receives message_to refl)) in
    (_, next heard (child_steps 0 refl (sends refl)), refl)

Reach-echoes_example :
    (rest : List (List ℕ)) × ((send_from_serv ∷ echo ∷ []) ++ rest
      ≡ send_from_serv ∷ echoes (zeros 500) (message_to ∷ []))
    × (length rest ≤ 1)
Reach-echoes_example =
    Reach-echoes {garbage = zeros 500} {t = served.0} 0 {c = echoed} served.1 served.2

-- The client fails to receive once, and then receives the echo.
abbrev turns : List Turn
turns =
    record { send_ok = false; received = none }
    ∷ record { send_ok = true; received = some echo }
    ∷ []

abbrev client : Client.Client
client = record { message_from = zeros 500; sent = []; printed = [] }

connected-prints_example :
    (client' : Client.Client) × ((start true true >> connected (some send_from_serv) turns client)
      ≡ done client')
    × (client'.printed ≡ [] ++ (codes "Welcome" ∷ codes "Hi Ilya" ∷ []))
connected-prints_example =
    connected-prints {garbage = zeros 500} {t = served.0} 0 {c = echoed} send_from_serv turns client
      served.1 (omega (arith, length-zeros 500)) served.2 (refl, tt) refl
      (omega (arith, length-zeros 500))
