-- ===== src/Editor/RwTest.antt =====
-- text editor/rw_test.c: a text is written to a file and read back. The messages about the calls are
-- left out; what is printed is the string in the buffer.
use mathlib.Core.List.{append-nil}
use eltex_courses_homeworks.Prelude.{
  ℕ, zero, suc, ◌≤◌, ◌≡◌, refl, ap, ◌∙◌, sym, Bool, true, false, Option, none, some, List, [], ◌∷◌,
  ◌++◌, codes, length, arith, NoZero, string_of-cases, inl, inr, receive, string_of, if◌then◌else◌,
  Outcome, done, ◌>>=◌,
}
use eltex_courses_homeworks.Editor.Buffer.{write_front}

-- The text has 18 bytes, and no zero is written.
abbrev pub write_buf : List ℕ
write_buf = codes "Hello, i`m birning"

-- The size of `read_buf`.
abbrev pub trial_size : ℕ
trial_size = 255

abbrev pub drop : ℕ → List ℕ → List ℕ
drop zero bytes = bytes
drop (suc n) [] = []
drop (suc n) (b ∷ bytes) = drop n bytes

-- An open file: its contents, and where it is read or written next.
pub record File : Type 0 where
  pub contents : List ℕ
  pub position : ℕ

-- `write (fd, write_buf, 18)` at the start of the file.
abbrev write : Bool → File → File
write true f = record { contents = write_front write_buf f.contents; position = 18 }
write false f = f

-- `lseek (fd, 0, SEEK_SET)`
abbrev lseek : Bool → File → File
lseek true f = record f { position = 0 }
lseek false f = f

-- The results of the calls, where the file could be opened.
pub record Trial : Type 0 where
  pub write_ok : Bool
  pub lseek_ok : Bool
  pub read_ok : Bool

-- `printf ("%s\n", read_buf)`, with the contents of the file.
abbrev shown : List ℕ → List ℕ → Outcome (Option (List ℕ) × Option (List ℕ))
shown contents read_buf = do s ← string_of read_buf; done (some contents, some s)

-- `main`: the contents of the file, `none` being a descriptor of -1, on which the calls fail, and
-- what the buffer holds before. It gives the contents at the end and the string printed, if any.
unfoldable pub trial :
    Trial → Option (List ℕ) → List ℕ → Outcome (Option (List ℕ) × Option (List ℕ))
trial calls none read_buf = done (none, none)
trial calls (some contents) read_buf =
    let f =
      lseek calls.lseek_ok (write calls.write_ok (record { contents = contents; position = 0 })) in
    let reads = shown f.contents (receive (drop f.position f.contents) read_buf) in
    if calls.read_ok then reads else done (some f.contents, none)

write_front-drop : (bytes old : List ℕ) → write_front bytes old ≡ bytes ++ drop (length bytes) old
write_front-drop [] old = refl
write_front-drop (b ∷ bytes) [] = ap (b ∷◌) (sym (append-nil bytes))
write_front-drop (b ∷ bytes) (o ∷ old) = ap (b ∷◌) (write_front-drop bytes old)

-- Bytes that fit, and then others.
receive-append :
    (text rest old : List ℕ)
    → length text ≤ length old
    → receive (text ++ rest) old ≡ text ++ receive rest (drop (length text) old)
receive-append [] rest old h = refl
receive-append (b ∷ text) rest [] h = absurd (omega arith)
receive-append (b ∷ text) rest (o ∷ old) h = ap (b ∷◌) (receive-append text rest old (omega arith))

-- The string behind bytes that are no zero.
string_of-prefix :
    (text rest : List ℕ)
    → NoZero text
    → string_of (text ++ rest) ≡ (do s ← string_of rest; done (text ++ s))
unfolding string_of
string_of-prefix [] rest plain = elim (string_of-cases rest) [
  | inl bad ↦ rw bad refl
  | inr (s, good) ↦ rw good refl
]
string_of-prefix (b ∷ text) rest plain = elim (string_of-cases rest) [
  | inl bad ↦ ground (arith, plain.0, string_of-prefix text rest plain.1, bad)
  | inr (s, good) ↦ ground (arith, plain.0, string_of-prefix text rest plain.1, good)
]

-- What is printed behind bytes that are no zero.
shown-prefix :
    (text rest contents : List ℕ)
    → NoZero text
    → shown contents (text ++ rest)
      ≡ (do s ← string_of rest; done (some contents, some (text ++ s)))
shown-prefix text rest contents plain = elim (string_of-cases rest) [
  | inl bad ↦ rw (string_of-prefix text rest plain, bad) refl
  | inr (s, good) ↦ rw (string_of-prefix text rest plain, good) refl
]

-- Where its write and its read succeed on a file that was opened, rw_test leaves its text of 18
-- bytes in the file and behind it what the file held there. With the lseek it prints the text
-- followed by the string that stands behind it in the file over the buffer; without it, that string
-- over the whole buffer. It is undefined where no zero ends the string.
pub trial_lem :
    (old read_buf : List ℕ)
    → length read_buf ≡ trial_size
    → (trial (record { write_ok = true; lseek_ok = true; read_ok = true }) (some old) read_buf ≡ (do
      s ← string_of (receive (drop 18 old) (drop 18 read_buf))
      done (some (write_buf ++ drop 18 old), some (write_buf ++ s))))
      × (trial (record { write_ok = true; lseek_ok = false; read_ok = true }) (some old) read_buf
          ≡ (do
            s ← string_of (receive (drop 18 old) read_buf)
            done (some (write_buf ++ drop 18 old), some s)))
unfolding trial
trial_lem old read_buf size =
    let whole : write_front write_buf old ≡ write_buf ++ drop 18 old =
      write_front-drop write_buf old in
    let read_back = receive-append write_buf (drop 18 old) read_buf (omega (arith, size)) in
    (
      ap (λ c. shown c (receive c read_buf)) whole
          ∙ (ap (shown (write_buf ++ drop 18 old)) read_back
              ∙ shown-prefix write_buf (receive (drop 18 old) (drop 18 read_buf))
                  (write_buf ++ drop 18 old) (omega arith)),
      ap (λ c. shown c (receive (drop 18 c) read_buf)) whole,
    )
