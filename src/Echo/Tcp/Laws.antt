-- ===== src/Echo/Tcp/Laws.antt =====
-- What the client of NETS/TCP_ECHO/ prints.
use eltex_courses_homeworks.Prelude.{
  ℕ, zero, suc, ◌+◌, ◌≤◌, ◌≡◌, refl, ap, ◌∙◌, sym, some, List, [], ◌∷◌, ◌++◌, codes, length, done,
  arith, receive, strncat_lem, string_of-append,
}
use mathlib.Core.List.{append_assoc, append-nil}
use eltex_courses_homeworks.Echo.Answer.{buf_size, answer}
use eltex_courses_homeworks.Echo.Tcp.{
  server_text, Server, message_to, Client, client_pass, dialogue,
}

abbrev pub greeting : List ℕ
greeting = codes "Hi Ilya"

-- As many strings as there are rounds.
abbrev pub replies : ℕ → List (List ℕ)
replies zero = []
replies (suc n) = (greeting ++ server_text) ∷ replies n

-- Bytes over as many bytes take their place.
receive_all : (bytes old : List ℕ) → length bytes ≡ length old → receive bytes old ≡ bytes
receive_all [] [] h = refl
receive_all [] (o ∷ old) h = absurd (omega arith)
receive_all (b ∷ bytes) [] h = absurd (omega arith)
receive_all (b ∷ bytes) (o ∷ old) h = ap (b ∷◌) (receive_all bytes old (omega arith))

-- Bytes over a longer buffer stand at its front.
receive_front :
    (bytes old : List ℕ)
    → length bytes ≤ length old
    → (rest : List ℕ) × (receive bytes old ≡ bytes ++ rest)
      × (length bytes + length rest ≡ length old)
receive_front [] [] h = ([], refl, refl)
receive_front [] (o ∷ old) h = (o ∷ old, refl, omega arith)
receive_front (b ∷ bytes) [] h = absurd (omega arith)
receive_front (b ∷ bytes) (o ∷ old) h =
    let (rest, e, len) = receive_front bytes old (omega arith) in (rest, ap (b ∷◌) e, omega arith)

-- The answer to the client's message.
answer-message_to :
    (buf : List ℕ)
    → length buf ≡ buf_size
    → (rest : List ℕ) × (answer server_text message_to buf
        ≡ done (greeting ++ (server_text ++ (0 ∷ rest))))
      × (25 + length rest ≡ buf_size)
unfolding answer
answer-message_to buf h =
    let (rest, e, len) = receive_front message_to buf (omega arith) in
    let (rest', run, len') = strncat_lem server_text greeting rest (omega arith) (omega arith) in
    (rest', rw (e, string_of-append greeting rest (omega arith)) run, omega arith)

-- The whole buffer that the client receives, and what it prints of it.
client_pass-answer :
    (rest : List ℕ) (c : Client)
    → 25 + length rest ≡ buf_size
    → length c.message_from ≡ buf_size
    → client_pass (some (greeting ++ (server_text ++ (0 ∷ rest)))) c
      ≡ done (record {
        message_from = greeting ++ (server_text ++ (0 ∷ rest));
        printed = c.printed ++ ((greeting ++ server_text) ∷ []);
      })
unfolding client_pass
client_pass-answer rest c h k =
    rw
      (
        receive_all (greeting ++ (server_text ++ (0 ∷ rest))) c.message_from (omega arith),
        string_of-append (greeting ++ server_text) rest (omega arith),
      )
      refl

-- With buffers of 500 bytes, whatever they hold, and messages that arrive whole, any number `n` of
-- rounds of the TCP client and server is defined, and the client prints n times its message
-- extended by the server's text.
pub dialogue_lem :
    (n : ℕ) (c : Client) (s : Server)
    → length c.message_from ≡ buf_size
    → length s.message ≡ buf_size
    → (c' : Client) × (s' : Server) × (dialogue n c s ≡ done (c', s'))
      × (c'.printed ≡ c.printed ++ replies n)
unfolding dialogue
dialogue_lem zero c s hc hs = (c, s, refl, sym (append-nil c.printed))
dialogue_lem (suc n) c s hc hs =
    let (rest, run, len) = answer-message_to s.message hs in
    let whole : List ℕ = greeting ++ (server_text ++ (0 ∷ rest)) in
    let c₁ : Client = record {
      message_from = whole;
      printed = c.printed ++ ((greeting ++ server_text) ∷ []);
    } in
    let s₁ : Server = record { message = whole; sent = s.sent ++ (whole ∷ []) } in
    let (c₂, s₂, more, all) = dialogue_lem n c₁ s₁ (omega arith) (omega arith) in
    (
      c₂,
      s₂,
      rw (run, client_pass-answer rest c len hc) more,
      all ∙ append_assoc c.printed ((greeting ++ server_text) ∷ []) (replies n),
    )
