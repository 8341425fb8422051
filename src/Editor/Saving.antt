-- ===== src/Editor/Saving.antt =====
-- Saving and reading the file of the editor in text editor/.
use eltex_courses_homeworks.Prelude.{
  receive-begins, ℕ, ◌≤◌, ◌≡◌, refl, sym, ap, true, some, List, [], ◌∷◌, ◌++◌, length, drop,
  receive, string_of, NoZero, string_of-NoZero, done, fault, arith,
}
use mathlib.Core.List.{append-nil}
use eltex_courses_homeworks.Editor.Buffer.{buf_size, write_front, safe_file, read_file}
use eltex_courses_homeworks.Editor.Keys.{Curses, start}

-- A `write` at the start leaves the bytes behind those written.
write_front_lem : (s old : List ℕ) → write_front s old ≡ s ++ drop (length s) old
write_front_lem [] old = refl
write_front_lem (b ∷ s) [] = ap (b ∷◌) (sym (append-nil s))
write_front_lem (b ∷ s) (o ∷ old) = ap (b ∷◌) (write_front_lem s old)

-- Where the string in `read_buf` is `s` and the write succeeds on a file that was opened, SafeFile
-- leaves in the file `s` and then just those bytes that the old contents had behind the length of
-- `s`; where `s` fits, reading the file into a buffer then puts it at the front of the buffer.
pub read_file-safe_file :
    (buf s old garbage : List ℕ)
    → string_of buf ≡ done s
    → length s ≤ length garbage
    → (rest : List ℕ) × (safe_file true (some old) buf ≡ done (some (s ++ drop (length s) old)))
      × (read_file true (some (s ++ drop (length s) old)) garbage ≡ s ++ rest)
unfolding safe_file read_file
read_file-safe_file buf s old garbage e h =
    let (rest, r) = receive-begins s (drop (length s) old) garbage h in
    (rest, rw (e, write_front_lem s old) refl, r)

receive-NoZero :
    (bytes old : List ℕ) → NoZero bytes → length old ≤ length bytes → NoZero (receive bytes old)
receive-NoZero bytes [] p h = tt
receive-NoZero [] (o ∷ old) p h = absurd (omega arith)
receive-NoZero (b ∷ bytes) (o ∷ old) p h = (p.0, receive-NoZero bytes old p.1 (omega arith))

-- A file without a zero that is as long as the buffer is undefined to show.
start-overlong :
    (C : Curses) (contents garbage : List ℕ)
    → NoZero contents
    → buf_size ≤ length contents
    → length garbage ≡ buf_size
    → start C true (some contents) true garbage ≡ fault
unfolding start read_file
start-overlong C contents garbage p long size =
    rw
      (string_of-NoZero (receive contents garbage)
        (receive-NoZero contents garbage p (omega arith)))
      refl
