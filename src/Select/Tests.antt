-- ===== src/Select/Tests.antt =====
-- Runs of the server of NETS/select/tcp_udp_server.c.
use eltex_courses_homeworks.Prelude.{
  ◌≡◌, refl, true, false, none, some, [], ◌∷◌, ◌++◌, done, exit, exit_failure,
}
use eltex_courses_homeworks.Select.Defs.{
  Turn, on_fd, to_addr, Server, send_message_tcp, send_message_udp, serve, serve_all,
}
use eltex_courses_homeworks.Select.Answers.{answers, serve_all-answers}

abbrev server : Server
server = record { client_addr = 0; sent = [] }

abbrev both : Turn
both = record {
  retval = some (true, true);
  accepted = some (record { cfd = 5; addr = 40 });
  received = some 41;
}

abbrev only_udp : Turn
only_udp = record { retval = some (false, true); accepted = none; received = some 42 }

serve_all-answers_example :
    (s' : Server) × (serve_all (both ∷ only_udp ∷ []) server ≡ done s')
    × (s'.sent ≡ [] ++ answers (both ∷ only_udp ∷ []))
serve_all-answers_example =
    serve_all-answers (both ∷ only_udp ∷ []) server ((tt, tt), ((tt, tt), tt))

-- Where `recvfrom` fails, the client of the connection is sent the answer to a datagram.
wrong_client :
    serve (record both { received = none }) server
    ≡ done (record {
      client_addr = 40;
      sent = on_fd 5 send_message_tcp ∷ to_addr 40 send_message_udp ∷ [];
    })
unfolding serve
wrong_client = refl

-- Where `accept` fails, the server ends.
no_connection : serve (record both { accepted = none }) server ≡ exit exit_failure
unfolding serve
no_connection = refl
