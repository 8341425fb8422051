-- ===== src/RawSockets/Exchange.antt =====
-- What the raw clients print when the UDP server of NETS/UDP_ECHO/ answers them.
use eltex_courses_homeworks.Prelude.{
  receive-begins, ℕ, ◌+◌, ◌≤◌, ◌≡◌, ◌≢◌, refl, ap, ◌∙◌, true, some, Option, List, [], ◌∷◌, ◌++◌,
  All, map, length, length-append, done, arith, receive, length-receive, string_of, NoZero,
  strncat_lem, string_of-append, NoZero-append,
}
use eltex_courses_homeworks.RawSockets.Bytes.{
  length-from, byte-receive, byte-append, from-append, from-receive,
}
use eltex_courses_homeworks.RawSockets.Packet.{
  packet_size, ip_header_len, read16, from, message, filled, filled_l3,
}
use eltex_courses_homeworks.RawSockets.Filled.{
  Begins, filled-port, filled-Begins, length-filled, filled_l3-port, filled_l3-Begins,
  length-filled_l3,
}
use eltex_courses_homeworks.RawSockets.Client.{Calls, printed, await, udp_client, l3_client}
use eltex_courses_homeworks.Echo.Answer.{buf_size, answer}
use eltex_courses_homeworks.Echo.Udp.{serv_str, transform, Server, serve}
use eltex_courses_homeworks.Echo.Udp.Laws.{arrives}

message-NoZero : NoZero message
message-NoZero = omega arith

serv_str-NoZero : NoZero serv_str
serv_str-NoZero = omega arith

-- A packet from another port, with room for a port.
abbrev pub Other : List ℕ → Type 0
Other bytes =
    (22 ≤ length bytes) × (length bytes ≤ packet_size) × (read16 ip_header_len bytes ≢ 1414)

-- Packets from other ports are passed over.
await-others :
    (others : List (List ℕ)) (received : List (Option (List ℕ))) (packet : List ℕ)
    → length packet ≡ packet_size
    → All Other others
    → (packet' : List ℕ) × (await (map some others ++ received) packet ≡ await received packet')
      × (length packet' ≡ packet_size)
unfolding await
await-others [] received packet len h = (packet, refl, len)
await-others (o ∷ others) received packet len ((long, short, other), h) =
    let (p, run, len') =
      await-others others received (receive o packet) (length-receive o packet ∙ len) h in
    (
      p,
      ground (
        arith,
        run,
        other,
        byte-receive 20 o packet (omega arith) (omega arith),
        byte-receive 21 o packet (omega arith) (omega arith),
      ),
      len',
    )

-- The buffer of the server when it has received such a payload and extended the message.
answered :
    (payload : List ℕ) (s : Server)
    → Begins payload
    → length s.buf ≡ buf_size
    → (s' : Server) × (rest : List ℕ) × (serve (arrives payload) s ≡ done s')
      × (s'.buf ≡ (message ++ serv_str) ++ (0 ∷ rest))
unfolding serve transform answer
answered payload s (junk, begins) len =
    let (rest, received) = receive-begins (message ++ (0 ∷ [])) junk s.buf (omega (arith, len)) in
    let all : receive payload s.buf ≡ message ++ (0 ∷ rest) =
      ap (λ p. receive p s.buf) begins ∙ received in
    let room : length rest + 11 ≡ buf_size =
      omega (arith, ap length all, length-receive payload s.buf, len) in
    let (rest', run, _) = strncat_lem serv_str message rest message-NoZero (omega (arith, room)) in
    let ends = string_of-append message rest message-NoZero in
    (
      record {
        buf = message ++ (serv_str ++ (0 ∷ rest'));
        sent = s.sent ++ ((message ++ (serv_str ++ (0 ∷ rest'))) ∷ []);
      },
      rest',
      rw (all, ends, run) refl,
      refl,
    )

-- A packet from the server with such a buffer ends the loop.
await-answer :
    (header buf rest packet : List ℕ) (received : List (Option (List ℕ)))
    → length packet ≡ packet_size
    → length header ≡ 28
    → read16 ip_header_len header ≡ 1414
    → buf ≡ (message ++ serv_str) ++ (0 ∷ rest)
    → await (some (header ++ buf) ∷ received) packet ≡ done (printed (message ++ serv_str))
unfolding await
await-answer header buf rest packet received len long port e =
    let b20 =
      byte-receive 20 (header ++ buf) packet (omega (arith, length-append header buf))
        (omega arith) in
    let b21 =
      byte-receive 21 (header ++ buf) packet (omega (arith, length-append header buf))
        (omega arith) in
    let h20 = byte-append 20 header buf (omega arith) in
    let h21 = byte-append 21 header buf (omega arith) in
    let tail : from 28 (receive (header ++ buf) packet) ≡ receive buf (from 28 packet) =
      from-receive 28 (header ++ buf) packet
      ∙ ap (λ x. receive x (from 28 packet)) (from-append 28 header buf long) in
    let (junk, begins) =
      receive-begins ((message ++ serv_str) ++ (0 ∷ [])) rest (from 28 packet)
        (omega (arith, length-from 28 packet (omega arith))) in
    let text : string_of (from 28 (receive (header ++ buf) packet)) ≡ done (message ++ serv_str) =
      ap string_of (tail ∙ ap (λ x. receive x (from 28 packet)) e ∙ begins)
      ∙ string_of-append (message ++ serv_str) junk
          (NoZero-append message serv_str message-NoZero serv_str-NoZero) in
    ground (arith, b20, b21, h20, h21, text, port)

-- The calls of a client that all succeed: packets from other ports arrive, then one from the server.
abbrev pub answers : List ℕ → List (List ℕ) → List ℕ → List (Option (List ℕ)) → Calls
answers uninitialised others answer more = record {
  socket_ok = true;
  setsockopt_ok = true;
  send_ok = true;
  uninitialised = uninitialised;
  received = map some others ++ (some answer ∷ more);
}

module _ (s : Server) (uninitialised header : List ℕ) (others : List (List ℕ))
    (more : List (Option (List ℕ))) (len : length uninitialised ≡ packet_size)
    (served : length s.buf ≡ buf_size) (long : length header ≡ 28)
    (port : read16 ip_header_len header ≡ 1414) (passed : All Other others) where
  -- Whatever the packet of 500 bytes holds before it is filled and whatever the 500 bytes of the
  -- server's buffer are: the filled packet names port 1414, the UDP server is defined on its
  -- payload, and where all calls succeed and packets from other ports, of 22 to 500 bytes, arrive
  -- before the answer, which is a header of 28 bytes from port 1414 and the server's buffer, the
  -- client of raw_socket_udp_client prints its message extended by the server's text.
  pub udp_client-prints :
      (s' : Server) × (read16 2 (filled uninitialised) ≡ 1414)
      × (serve (arrives (from 8 (filled uninitialised))) s ≡ done s')
      × (udp_client (answers uninitialised others (header ++ s'.buf) more)
          ≡ done (printed (message ++ serv_str)))
  unfolding udp_client
  udp_client-prints =
      let (s', rest, run, e) =
        answered (from 8 (filled uninitialised)) s (filled-Begins uninitialised len) served in
      let (p, skip, len') =
        await-others others (some (header ++ s'.buf) ∷ more) (filled uninitialised)
          (length-filled uninitialised ∙ len) passed in
      (
        s',
        filled-port uninitialised len,
        run,
        skip ∙ await-answer header s'.buf rest p more len' long port e,
      )

  -- The same of the client of raw_socket_l3, which fills the IP header too: whatever the packet
  -- of 500 bytes holds before and whatever the 500 bytes of the server's buffer are, the filled
  -- packet names port 1414, the UDP server is defined on its payload, and where all calls succeed
  -- and packets from other ports, of 22 to 500 bytes, arrive before the answer, which is a header
  -- of 28 bytes from port 1414 and the server's buffer, the client prints its message extended by
  -- the server's text.
  pub l3_client-prints :
      (s' : Server) × (read16 22 (filled_l3 uninitialised) ≡ 1414)
      × (serve (arrives (from 28 (filled_l3 uninitialised))) s ≡ done s')
      × (l3_client (answers uninitialised others (header ++ s'.buf) more)
          ≡ done (printed (message ++ serv_str)))
  unfolding l3_client
  l3_client-prints =
      let (s', rest, run, e) =
        answered (from 28 (filled_l3 uninitialised)) s (filled_l3-Begins uninitialised len)
          served in
      let (p, skip, len') =
        await-others others (some (header ++ s'.buf) ∷ more) (filled_l3 uninitialised)
          (length-filled_l3 uninitialised ∙ len) passed in
      (
        s',
        filled_l3-port uninitialised len,
        run,
        skip ∙ await-answer header s'.buf rest p more len' long port e,
      )
