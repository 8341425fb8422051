-- ===== src/Echo/Tests.antt =====
-- Runs of the echo servers of NETS/TCP_ECHO/ and NETS/UDP_ECHO/.
use eltex_courses_homeworks.Prelude.{
  zeros, length-zeros, ℕ, ◌+◌, ◌*◌, ◌≤◌, ◌≡◌, ◌↔◌, refl, List, [], ◌∷◌, ◌++◌, map, done, fault,
  HasString, arith,
}
use eltex_courses_homeworks.Echo.Answer.{buf_size}
use eltex_courses_homeworks.Echo.Udp
use eltex_courses_homeworks.Echo.Udp.{serve_all, data_to_send}
use eltex_courses_homeworks.Echo.Udp.Laws.{arrives, serve_all-fault_iff}
use eltex_courses_homeworks.Echo.Tcp
use eltex_courses_homeworks.Echo.Tcp.{dialogue}
use eltex_courses_homeworks.Echo.Tcp.Laws.{replies, dialogue_lem}

-- The buffer of the UDP server after the first message of the client.
abbrev greeted : Udp.Server
greeted = record { buf = data_to_send ++ (0 ∷ zeros 492); sent = [] }

greeted-HasString : HasString buf_size 7 greeted.buf
greeted-HasString = record {
  text = data_to_send;
  rest = zeros 492;
  shape = refl;
  plain = omega arith;
  long = refl;
  whole = omega (arith, length-zeros 492);
}

abbrev twice : List (List ℕ)
twice = data_to_send ∷ data_to_send ∷ []

serve_all-fault_iff_example :
    (serve_all (map arrives twice) greeted ≡ fault) ↔ (buf_size ≤ 7 + 11 * 2)
serve_all-fault_iff_example =
    serve_all-fault_iff twice greeted {n = 7} (omega arith) greeted-HasString
      ((omega arith, omega arith), ((omega arith, omega arith), tt))

abbrev client : Tcp.Client
client = record { message_from = zeros 500; printed = [] }

abbrev server : Tcp.Server
server = record { message = zeros 500; sent = [] }

dialogue_lem_example :
    (c' : Tcp.Client) × (s' : Tcp.Server) × (dialogue 3 client server ≡ done (c', s'))
    × (c'.printed ≡ [] ++ replies 3)
dialogue_lem_example = dialogue_lem 3 client server (length-zeros 500) (length-zeros 500)
