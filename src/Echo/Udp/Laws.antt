-- ===== src/Echo/Udp/Laws.antt =====
-- When the UDP server of NETS/UDP_ECHO/ writes beyond its buffer.
use eltex_courses_homeworks.Prelude.{
  ℕ, ◌+◌, ◌*◌, ◌≤◌, ◌<◌, ◌≡◌, ◌↔◌, refl, true, some, List, [], ◌∷◌, ◌++◌, All, map, length, done,
  fault, arith, NoZero, HasString, dec_lt,
}
use eltex_courses_homeworks.Echo.Answer.{buf_size, Unended, answer-HasString, answer-fault}
use eltex_courses_homeworks.Echo.Udp.{serv_str, Turn, Server, serve, serve_all}

-- A datagram that arrives, and whose answer is sent.
abbrev pub arrives : List ℕ → Turn
arrives bytes = record { received = some bytes; send_ok = true }

serv_str-NoZero : NoZero serv_str
serv_str-NoZero = omega arith

serve-HasString :
    (bytes : List ℕ) (s : Server) {n : ℕ}
    → HasString buf_size n s.buf
    → Unended n bytes
    → n + 11 < buf_size
    → (s' : Server) × (serve (arrives bytes) s ≡ done s') × HasString buf_size (n + 11) s'.buf
unfolding serve
serve-HasString bytes s v u room =
    let (buf, run, v') = answer-HasString serv_str bytes v u serv_str-NoZero room in
    (record { buf = buf; sent = s.sent ++ (buf ∷ []) }, rw run refl, v')

serve-fault :
    (bytes : List ℕ) (s : Server) {n : ℕ}
    → HasString buf_size n s.buf
    → Unended n bytes
    → buf_size ≤ n + 11
    → serve (arrives bytes) s ≡ fault
unfolding serve
serve-fault bytes s v u over = rw (answer-fault serv_str bytes v u over) refl

Unended-mono : {m n : ℕ} (bytes : List ℕ) → m ≤ n → Unended m bytes → Unended n bytes
Unended-mono bytes h u = (u.0, omega (arith, u.1))

-- With `m` the length of the longest message, and `n` that of the string in the buffer.
serve_all_lem :
    (ms : List (List ℕ)) (s : Server) {m n : ℕ}
    → m ≤ n
    → HasString buf_size n s.buf
    → All (Unended m) ms
    → n + 11 * length ms < buf_size
    → (s' : Server) × (serve_all (map arrives ms) s ≡ done s')
unfolding serve_all
serve_all_lem [] s le v us room = (s, refl)
serve_all_lem (bytes ∷ ms) s le v us room =
    let (s₁, run, v₁) = serve-HasString bytes s v (Unended-mono bytes le us.0) (omega arith) in
    let (s₂, rest) = serve_all_lem ms s₁ (omega arith) v₁ us.1 (omega arith) in (s₂, rw run rest)

serve_all-fault :
    (ms : List (List ℕ)) (s : Server) {m n : ℕ}
    → m ≤ n
    → HasString buf_size n s.buf
    → All (Unended m) ms
    → n < buf_size
    → buf_size ≤ n + 11 * length ms
    → serve_all (map arrives ms) s ≡ fault
unfolding serve_all
serve_all-fault [] s le v us small over = absurd (omega arith)
serve_all-fault (bytes ∷ ms) s {n = n} le v us small over = elim (dec_lt (n + 11) buf_size) [
  | yes room ↦
      let (s₁, run, v₁) = serve-HasString bytes s v (Unended-mono bytes le us.0) room in
      rw run (serve_all-fault ms s₁ (omega arith) v₁ us.1 room (omega arith))
  | no full ↦ rw (serve-fault bytes s v (Unended-mono bytes le us.0) (omega arith)) refl
]

-- On a buffer of 500 bytes that holds a string of `n` bytes, n below 500, and messages without a
-- zero that are no longer than `n`, each received and answered: the UDP server is undefined just
-- where `n` and 11 bytes for each message are together at least 500.
pub serve_all-fault_iff :
    (ms : List (List ℕ)) (s : Server) {n : ℕ}
    → n < buf_size
    → HasString buf_size n s.buf
    → All (Unended n) ms
    → (serve_all (map arrives ms) s ≡ fault) ↔ (buf_size ≤ n + 11 * length ms)
serve_all-fault_iff ms s {n} small v us = (
  λ bad. elim (dec_lt (n + 11 * length ms) buf_size) [
    | yes room ↦
        let (s', run) = serve_all_lem ms s (omega arith) v us room in
        absurd (ground (arith, bad, run))
    | no over ↦ omega arith
  ],
  λ over. serve_all-fault ms s (omega arith) v us small over,
)
