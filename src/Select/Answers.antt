-- ===== src/Select/Answers.antt =====
-- Whom the server of NETS/select/tcp_udp_server.c answers.
use eltex_courses_homeworks.Prelude.{
  ℕ, ◌≡◌, refl, sym, ap, ◌∙◌, Bool, true, false, Option, none, some, List, [], ◌∷◌, ◌++◌, done, All,
  if◌then◌else◌,
}
use mathlib.Core.List.{append-nil, append_assoc}
use eltex_courses_homeworks.Select.Defs.{
  Turn, Accepted, Sent, on_fd, to_addr, Server, send_message_tcp, send_message_udp, rfds, serve_tcp,
  serve_udp, serve, serve_all,
}

-- The specification: a connection is answered where the TCP socket is ready, and then a datagram, to
-- where it has come from, where the UDP socket is.
abbrev pub tcp_answer : Bool → Option Accepted → List Sent
tcp_answer true (some a) = on_fd a.cfd send_message_tcp ∷ []
tcp_answer _ _ = []

abbrev pub udp_answer : Bool → Option ℕ → List Sent
udp_answer true (some addr) = to_addr addr send_message_udp ∷ []
udp_answer _ _ = []

abbrev pub answers : List Turn → List Sent
answers [] = []
answers (t ∷ ts) =
    (tcp_answer (rfds t.retval).0 t.accepted ++ udp_answer (rfds t.retval).1 t.received)
    ++ answers ts

-- The call on a socket that is ready succeeds.
abbrev pub IsGiven : {A : Type 0} → Bool → Option A → Type 0
IsGiven true none = ⊥
IsGiven _ _ = Unit

abbrev pub Succeeds : Turn → Type 0
Succeeds t = IsGiven (rfds t.retval).0 t.accepted × IsGiven (rfds t.retval).1 t.received

tcp_lem :
    (ready : Bool) (accepted : Option Accepted) (s : Server)
    → IsGiven ready accepted
    → (s' : Server) × ((if ready then serve_tcp accepted s else done s) ≡ done s')
      × (s'.sent ≡ s.sent ++ tcp_answer ready accepted)
tcp_lem true none s h = absurd h
tcp_lem true (some a) s h = (_, refl, refl)
tcp_lem false none s h = (s, refl, sym (append-nil s.sent))
tcp_lem false (some a) s h = (s, refl, sym (append-nil s.sent))

udp_lem :
    (ready : Bool) (received : Option ℕ) (s : Server)
    → IsGiven ready received
    → (s' : Server) × ((if ready then done (serve_udp received s) else done s) ≡ done s')
      × (s'.sent ≡ s.sent ++ udp_answer ready received)
udp_lem true none s h = absurd h
udp_lem true (some a) s h = (_, refl, refl)
udp_lem false none s h = (s, refl, sym (append-nil s.sent))
udp_lem false (some a) s h = (s, refl, sym (append-nil s.sent))

serve-answers :
    (t : Turn) (s : Server)
    → Succeeds t
    → (s' : Server) × (serve t s ≡ done s')
      × (s'.sent
          ≡ s.sent
            ++ (tcp_answer (rfds t.retval).0 t.accepted ++ udp_answer (rfds t.retval).1 t.received))
unfolding serve
serve-answers t s (given, had) =
    let (s₁, run₁, e₁) = tcp_lem (rfds t.retval).0 t.accepted s given in
    let (s₂, run₂, e₂) = udp_lem (rfds t.retval).1 t.received s₁ had in
    (
      s₂,
      rw run₁ run₂,
      e₂
          ∙ ap (λ sent. sent ++ udp_answer (rfds t.retval).1 t.received) e₁
          ∙ append_assoc s.sent (tcp_answer (rfds t.retval).0 t.accepted)
              (udp_answer (rfds t.retval).1 t.received),
    )

-- Where accept succeeds in each pass in which the TCP socket is in `rfds` after select, and
-- recvfrom in each in which the UDP socket is, any number of passes of the server with select is
-- defined, and it has sent just one answer for each connection, on it, and one for each datagram,
-- to where it came from, in the order of the passes, in a pass the connection first.
pub serve_all-answers :
    (ts : List Turn) (s : Server)
    → All Succeeds ts
    → (s' : Server) × (serve_all ts s ≡ done s') × (s'.sent ≡ s.sent ++ answers ts)
unfolding serve_all
serve_all-answers [] s h = (s, refl, sym (append-nil s.sent))
serve_all-answers (t ∷ ts) s h =
    let (s₁, run₁, e₁) = serve-answers t s h.0 in
    let (s₂, run₂, e₂) = serve_all-answers ts s₁ h.1 in
    let now = tcp_answer (rfds t.retval).0 t.accepted ++ udp_answer (rfds t.retval).1 t.received in
    (
      s₂,
      rw run₁ run₂,
      e₂ ∙ ap (λ sent. sent ++ answers ts) e₁ ∙ append_assoc s.sent now (answers ts),
    )
