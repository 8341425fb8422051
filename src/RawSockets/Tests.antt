-- ===== src/RawSockets/Tests.antt =====
-- Runs of the raw clients of NETS/raw_socket_udp_client/ and NETS/raw_socket_l3/.
use eltex_courses_homeworks.Prelude.{
  zeros, length-zeros, ℕ, ◌≡◌, refl, some, none, List, [], ◌∷◌, ◌++◌, done, exit, exit_failure,
  arith,
}
use eltex_courses_homeworks.Echo.Udp.{serv_str, Server, serve}
use eltex_courses_homeworks.Echo.Udp.Laws.{arrives}
use eltex_courses_homeworks.RawSockets.Packet.{read16, from, message, filled, filled_l3}
use eltex_courses_homeworks.RawSockets.Client.{printed, await, udp_client, l3_client}
use eltex_courses_homeworks.RawSockets.Exchange.{answers, udp_client-prints, l3_client-prints}

-- The headers of a packet from port 1414, and the whole of one from port 2018.
abbrev from_server : List ℕ
from_server = zeros 20 ++ (5 ∷ 134 ∷ zeros 6)

abbrev from_other : List ℕ
from_other = zeros 20 ++ (7 ∷ 226 ∷ zeros 6)

abbrev server : Server
server = record { buf = zeros 500; sent = [] }

udp_client-prints_example :
    (s' : Server) × (read16 2 (filled (zeros 500)) ≡ 1414)
    × (serve (arrives (from 8 (filled (zeros 500)))) server ≡ done s')
    × (udp_client (answers (zeros 500) (from_other ∷ []) (from_server ++ s'.buf) [])
        ≡ done (printed (message ++ serv_str)))
udp_client-prints_example =
    udp_client-prints server (zeros 500) from_server (from_other ∷ []) [] (length-zeros 500)
      (length-zeros 500) refl refl ((omega arith, omega arith, omega arith), tt)

l3_client-prints_example :
    (s' : Server) × (read16 22 (filled_l3 (zeros 500)) ≡ 1414)
    × (serve (arrives (from 28 (filled_l3 (zeros 500)))) server ≡ done s')
    × (l3_client (answers (zeros 500) (from_other ∷ []) (from_server ++ s'.buf) [])
        ≡ done (printed (message ++ serv_str)))
l3_client-prints_example =
    l3_client-prints server (zeros 500) from_server (from_other ∷ []) [] (length-zeros 500)
      (length-zeros 500) refl refl ((omega arith, omega arith, omega arith), tt)

-- The identification of the IP header is 0, not 22222, and the length of the UDP header of the other
-- client is that of the packet.
identification : read16 4 (filled_l3 (zeros 28)) ≡ 0
unfolding filled_l3
identification = refl

await-failure : await (some from_other ∷ none ∷ []) (zeros 30) ≡ exit exit_failure
unfolding await
await-failure = refl
