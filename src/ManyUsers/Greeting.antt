-- ===== src/ManyUsers/Greeting.antt =====
-- What the client of NETS/multi-user UDP_ECHO/ prints of the messages of its process in the server.
use eltex_courses_homeworks.Prelude.{
  ℕ, ◌≤◌, ◌≡◌, ◌∙◌, refl, sym, ap, Bool-cases, ◌>>=◌, true, false, some, inl, inr, List, [], ◌∷◌,
  ◌++◌, map, codes, length, arith, receive, length-receive, done, All,
}
use mathlib.Core.List.{append_assoc, append-nil}
use eltex_courses_homeworks.ManyUsers.Begins.{Begins, receive-Begins, string_of-Begins, All-prefix}
use eltex_courses_homeworks.ManyUsers.Client.{
  data_to_send, application, Client, start, exchange, Turn, client_pass, passes, delivered,
}
use eltex_courses_homeworks.ManyUsers.Defs
use eltex_courses_homeworks.ManyUsers.Defs.{clear, System, Child, Reach}
use eltex_courses_homeworks.ManyUsers.Replies.{overlaid, replies, Reach-replies}
use eltex_courses_homeworks.ManyUsers.Sizes.{forked-length}

abbrev hi : List ℕ
hi = codes "Hi!"

length-clear : (buf : List ℕ) → length (clear buf) ≡ length buf
length-clear [] = refl
length-clear (b ∷ buf) = refl

overlaid-Begins : (buf m : List ℕ) → m ≡ data_to_send → 4 ≤ length buf → Begins hi (overlaid buf m)
overlaid-Begins buf m same room =
    receive-Begins hi m (clear buf) ([], same) (omega (arith, length-clear buf))

-- From a buffer that begins with the client's message, all replies do.
replies-Begins :
    (buf : List ℕ) (ms : List (List ℕ))
    → Begins hi buf
    → All (λ m. m ≡ data_to_send) ms
    → 4 ≤ length buf
    → All (Begins hi) (replies buf ms)
replies-Begins buf [] begun held room = (begun, tt)
replies-Begins buf (m ∷ ms) begun (now, held) room = (
  begun,
  replies-Begins (overlaid buf m) ms (overlaid-Begins buf m now room) held
      (omega (arith, length-receive m (clear buf), length-clear buf)),
)

-- The replies after the first one.
later-Begins :
    (buf : List ℕ) (ms : List (List ℕ)) {b : List ℕ} {bs : List (List ℕ)}
    → b ∷ bs ≡ replies buf ms
    → All (λ m. m ≡ data_to_send) ms
    → 4 ≤ length buf
    → All (Begins hi) bs
later-Begins buf [] {b} {bs} e held room = let none_later : bs ≡ [] = cc e in rw none_later tt
later-Begins buf (m ∷ ms) {b} {bs} e (now, held) room =
    let later : bs ≡ replies (overlaid buf m) ms = cc e in
    rw later (
      replies-Begins (overlaid buf m) ms (overlaid-Begins buf m now room) held
        (omega (arith, length-receive m (clear buf), length-clear buf)))

-- A pass that sends and receives.
exchange-Begins :
    (c : Client) (m : List ℕ)
    → Begins hi m
    → 4 ≤ length c.buf
    → exchange (some m) c
      ≡ done (record {
        buf = receive m c.buf;
        sent = c.sent ++ (data_to_send ∷ []);
        printed = c.printed ++ (hi ∷ []);
      })
unfolding exchange
exchange-Begins c m begun room =
    rw
      (string_of-Begins hi (receive m c.buf) (omega arith)
        (receive-Begins hi m c.buf begun (omega arith)))
      refl

delivered-sends :
    (turn : Turn) (turns : List Turn)
    → turn.send_ok ≡ true
    → delivered (turn ∷ turns) ≡ turn.received ∷ delivered turns
delivered-sends turn turns e = rw e refl

delivered-fails :
    (turn : Turn) (turns : List Turn)
    → turn.send_ok ≡ false
    → delivered (turn ∷ turns) ≡ delivered turns
delivered-fails turn turns e = rw e refl

passes-prints :
    (turns : List Turn) (ms : List (List ℕ)) (c : Client)
    → delivered turns ≡ map some ms
    → All (Begins hi) ms
    → 4 ≤ length c.buf
    → (c' : Client) × (passes turns c ≡ done c')
      × (c'.printed ≡ c.printed ++ map (λ _. hi) ms)
      × (c'.sent ≡ c.sent ++ map (λ _. data_to_send) ms)
unfolding passes client_pass
passes-prints [] [] c e begun room = (c, refl, sym (append-nil c.printed), sym (append-nil c.sent))
passes-prints [] (m ∷ ms) c e begun room = absurd (cc e)
passes-prints (turn ∷ turns) [] c e begun room = elim (Bool-cases turn.send_ok) [
  | inl sends ↦ absurd (cc (e, delivered-sends turn turns sends))
  | inr fails ↦
      let (c', run, said, sent) =
        passes-prints turns [] c (sym (delivered-fails turn turns fails) ∙ e) begun room in
      (c', rw fails run, said, sent)
]
passes-prints (turn ∷ turns) (m ∷ ms) c e (now, later) room = elim (Bool-cases turn.send_ok) [
  | inl sends ↦
      let all : turn.received ∷ delivered turns ≡ some m ∷ map some ms =
        sym (delivered-sends turn turns sends) ∙ e in
      let received : turn.received ≡ some m = cc all in
      let c₁ : Client = record {
        buf = receive m c.buf;
        sent = c.sent ++ (data_to_send ∷ []);
        printed = c.printed ++ (hi ∷ []);
      } in
      let (c', run, said, sent) =
        passes-prints turns ms c₁ (cc all) later (omega (arith, length-receive m c.buf)) in
      (
        c',
        rw (sends, received, exchange-Begins c m now room) run,
        said ∙ append_assoc c.printed (hi ∷ []) (map (λ _. hi) ms),
        sent ∙ append_assoc c.sent (data_to_send ∷ []) (map (λ _. data_to_send) ms),
      )
  | inr fails ↦
      let (c', run, said, sent) =
        passes-prints turns (m ∷ ms) c (sym (delivered-fails turn turns fails) ∙ e) (now, later)
          room in
      (c', rw fails run, said, sent)
]

-- In a state of the UDP server for many users that is reachable from its start, with a buffer of at
-- least 4 bytes: where a process has received only the message Hi! of its client, and the client,
-- with a buffer of at least 4 bytes, starts without a failure and receives in its loop all but the
-- first message of the process, among calls of sendto that fail, then it is defined, has sent its
-- application and its message as often as it received one, and has printed Hi! as often.
pub start-prints :
    {garbage : List ℕ} {t : System} (i : ℕ) {c : Child} (m : List ℕ) (ms : List (List ℕ))
    (turns : List Turn) (client : Client)
    → Reach (Defs.start garbage) t
    → 4 ≤ length garbage
    → t.children i ≡ some c
    → All (λ b. b ≡ data_to_send) c.received
    → c.sent ≡ m ∷ ms
    → delivered turns ≡ map some ms
    → 4 ≤ length client.buf
    → (client' : Client) × ((start true true true client >>= passes turns) ≡ done client')
      × (client'.printed ≡ client.printed ++ map (λ _. hi) ms)
      × (client'.sent ≡ client.sent ++ (application ∷ map (λ _. data_to_send) ms))
unfolding start
start-prints i {c} m ms turns client r long at held sent e room =
    let (rest, refined, _) = Reach-replies i r at in
    let all : m ∷ (ms ++ rest) ≡ replies c.forked c.received =
      ap (λ x. x ++ rest) (sym sent) ∙ refined in
    let later =
      later-Begins c.forked c.received all held (omega (arith, forked-length i r at, long)) in
    let known : Client = record client { sent = client.sent ++ (application ∷ []) } in
    let (client', run, said, total) =
      passes-prints turns ms known e (All-prefix (Begins hi) ms rest later) room in
    (
      client',
      run,
      said,
      total ∙ append_assoc client.sent (application ∷ []) (map (λ _. data_to_send) ms),
    )
