-- ===== src/Prelude/Buffers.antt =====
-- Buffers of bytes: what the calls that receive leave in them, and the strings of C that they hold.
use Prim.Native.Nat.{ℕ, suc, ◌+◌, ◌≤◌, ◌<◌}
use mathlib.Core.Path.{◌≡◌, refl, ap, ◌∙◌, sym}
use mathlib.Core.Logic.{◌≢◌, ◌⊎◌, inl, inr}
use mathlib.Core.List.{List, [], ◌∷◌, ◌++◌, append_assoc}
use native.Mathlib.Omega.{arith}
use eltex_courses_homeworks.Prelude.Tests.{Bool-cases, ◌==◌, if◌then◌else◌}
use eltex_courses_homeworks.Prelude.Lists.{length, length-append, All}
use eltex_courses_homeworks.Prelude.Receive.{receive, length-receive, receive_none}
use eltex_courses_homeworks.Prelude.Exits.{Outcome, done, fault, ◌>>=◌}

-- The string in a buffer, or undefined behaviour where no zero ends it.
unfoldable pub string_of : List ℕ → Outcome (List ℕ)
string_of [] = fault
string_of (b ∷ buf) =
    let rest = (do s ← string_of buf; done (b ∷ s)) in if b == 0 then done [] else rest

-- Bytes written from the front of a buffer on, which has to hold them.
unfoldable pub write_over : List ℕ → List ℕ → Outcome (List ℕ)
write_over [] buf = done buf
write_over (s ∷ src) [] = fault
write_over (s ∷ src) (b ∷ buf) = do rest ← write_over src buf; done (s ∷ rest)

-- `strncat (buf, …, n)` of a text of at most `n` bytes: it and a zero from the first zero on.
unfoldable pub strncat : List ℕ → List ℕ → Outcome (List ℕ)
unfolding write_over
strncat text [] = fault
strncat text (b ∷ buf) =
    let more = (do rest ← strncat text buf; done (b ∷ rest)) in
    if b == 0 then write_over (text ++ (0 ∷ [])) (b ∷ buf) else more

-- No byte is zero.
abbrev pub NoZero : List ℕ → Type 0
NoZero = All (λ b. b ≢ 0)

-- A buffer that holds `n` bytes of text, a zero, and the rest of its `size` bytes.
pub record HasString (size n : ℕ) (buf : List ℕ) : Type 0 where
  pub text : List ℕ
  pub rest : List ℕ
  pub shape : buf ≡ text ++ (0 ∷ rest)
  pub plain : NoZero text
  pub long : length text ≡ n
  pub whole : length buf ≡ size

pub NoZero-append : (s t : List ℕ) → NoZero s → NoZero t → NoZero (s ++ t)
NoZero-append [] t p q = q
NoZero-append (b ∷ s) t p q = (p.0, NoZero-append s t p.1 q)

pub string_of-append :
    (text rest : List ℕ) → NoZero text → string_of (text ++ (0 ∷ rest)) ≡ done text
unfolding string_of
string_of-append [] rest p = refl
string_of-append (b ∷ text) rest p = ground (arith, string_of-append text rest p.1)

write_over_lem :
    (src buf : List ℕ)
    → length src ≤ length buf
    → (rest : List ℕ) × (write_over src buf ≡ done (src ++ rest))
      × (length src + length rest ≡ length buf)
unfolding write_over
write_over_lem [] buf h = (buf, refl, omega arith)
write_over_lem (s ∷ src) [] h = absurd (omega arith)
write_over_lem (s ∷ src) (b ∷ buf) h =
    let (rest, run, len) = write_over_lem src buf (omega arith) in (rest, rw run refl, omega arith)

write_over-fault : (src buf : List ℕ) → length buf < length src → write_over src buf ≡ fault
unfolding write_over
write_over-fault [] buf h = absurd (omega arith)
write_over-fault (s ∷ src) [] h = refl
write_over-fault (s ∷ src) (b ∷ buf) h = rw (write_over-fault src buf (omega arith)) refl

pub strncat_lem :
    (src text rest : List ℕ)
    → NoZero text
    → length src ≤ length rest
    → (rest' : List ℕ) × (strncat src (text ++ (0 ∷ rest)) ≡ done (text ++ (src ++ (0 ∷ rest'))))
      × (length src + length rest' ≡ length rest)
unfolding strncat
strncat_lem src [] rest p h =
    let (rest', run, len) =
      write_over_lem (src ++ (0 ∷ [])) (0 ∷ rest) (omega (arith, length-append src (0 ∷ []))) in
    (
      rest',
      rw run (ap done (append_assoc src (0 ∷ []) rest')),
      omega (arith, length-append src (0 ∷ [])),
    )
strncat_lem src (b ∷ text) rest p h =
    let (rest', run, len) = strncat_lem src text rest p.1 h in
    (rest', ground (arith, p.0, run), len)

pub strncat-fault :
    (src text rest : List ℕ)
    → NoZero text
    → length rest < length src
    → strncat src (text ++ (0 ∷ rest)) ≡ fault
unfolding strncat
strncat-fault src [] rest p h =
    write_over-fault (src ++ (0 ∷ [])) (0 ∷ rest) (omega (arith, length-append src (0 ∷ [])))
strncat-fault src (b ∷ text) rest p h = ground (arith, p.0, strncat-fault src text rest p.1 h)

-- Bytes received over a string that is as long stay a string of that length.
receive-append :
    (bytes text rest : List ℕ)
    → NoZero bytes
    → NoZero text
    → length bytes ≤ length text
    → (text' : List ℕ) × (receive bytes (text ++ rest) ≡ text' ++ rest)
      × NoZero text'
      × (length text' ≡ length text)
receive-append [] [] rest p q h = ([], receive_none rest, tt, refl)
receive-append [] (t ∷ text) rest p q h = (t ∷ text, refl, q, refl)
receive-append (b ∷ bytes) [] rest p q h = absurd (omega arith)
receive-append (b ∷ bytes) (t ∷ text) rest p q h =
    let (text', e, plain, len) = receive-append bytes text rest p.1 q.1 (omega arith) in
    (b ∷ text', ap (b ∷◌) e, (p.0, plain), ap suc len)

pub receive-HasString :
    {size n : ℕ} {buf : List ℕ} (bytes : List ℕ)
    → NoZero bytes
    → length bytes ≤ n
    → HasString size n buf
    → HasString size n (receive bytes buf)
receive-HasString {buf = buf} bytes p h v =
    let (text', e, plain, len) =
      receive-append bytes v.text (0 ∷ v.rest) p v.plain (omega (arith, v.long)) in
    record {
      text = text';
      rest = v.rest;
      shape = ap (receive bytes) v.shape ∙ e;
      plain = plain;
      long = len ∙ v.long;
      whole = length-receive bytes buf ∙ v.whole;
    }

module _ {size n : ℕ} {buf : List ℕ} (src : List ℕ) (v : HasString size n buf) where
  room : length v.rest + n + 1 ≡ size
  room = omega (arith, ap length v.shape, length-append v.text (0 ∷ v.rest), v.long, v.whole)

  -- A text that fits behind the string makes it longer.
  pub strncat-HasString :
      NoZero src
      → n + length src < size
      → (buf' : List ℕ) × (strncat src buf ≡ done buf') × HasString size (n + length src) buf'
  strncat-HasString p h =
      let (rest', run, len) = strncat_lem src v.text v.rest v.plain (omega (arith, room)) in
      (
        v.text ++ (src ++ (0 ∷ rest')),
        ap (strncat src) v.shape ∙ run,
        record {
          text = v.text ++ src;
          rest = rest';
          shape = sym (append_assoc v.text src (0 ∷ rest'));
          plain = NoZero-append v.text src v.plain p;
          long = omega (arith, length-append v.text src, v.long);
          whole = omega (
            arith,
            length-append v.text (src ++ (0 ∷ rest')),
            length-append src (0 ∷ rest'),
            v.long,
            room,
          );
        },
      )

  -- One that does not is undefined.
  pub strncat-overflows : size ≤ n + length src → strncat src buf ≡ fault
  strncat-overflows h =
      ap (strncat src) v.shape ∙ strncat-fault src v.text v.rest v.plain (omega (arith, room))

pub string_of-HasString :
    {size n : ℕ} {buf : List ℕ} (v : HasString size n buf) → string_of buf ≡ done v.text
string_of-HasString v = ap string_of v.shape ∙ string_of-append v.text v.rest v.plain

pub string_of-cases :
    (buf : List ℕ) → (string_of buf ≡ fault) ⊎ ((s : List ℕ) × (string_of buf ≡ done s))
unfolding string_of
string_of-cases [] = inl refl
string_of-cases (b ∷ buf) = elim (string_of-cases buf) [
  | inl bad ↦ elim (Bool-cases (b == 0)) [
    | inl zero_here ↦ inr ([], rw zero_here refl)
    | inr more ↦ inl (rw (more, bad) refl)
  ]
  | inr (s, good) ↦ elim (Bool-cases (b == 0)) [
    | inl zero_here ↦ inr ([], rw zero_here refl)
    | inr more ↦ inr (b ∷ s, rw (more, good) refl)
  ]
]

-- A buffer without a zero holds no string.
pub string_of-NoZero : (buf : List ℕ) → NoZero buf → string_of buf ≡ fault
unfolding string_of
string_of-NoZero [] h = refl
string_of-NoZero (b ∷ buf) h = ground (arith, h.0, string_of-NoZero buf h.1)
