-- ===== src/Editor/Buffer.antt =====
-- The buffer and the file of text editor/main.c, and SafeFile of text editor/interactive.c.
use mathlib.Core.Option
use eltex_courses_homeworks.Prelude.{
  ℕ, ◌+◌, ◌*◌, Bool, Option, none, some, List, [], ◌∷◌, if◌then◌else◌, ltb, length, set, receive,
  string_of, Outcome, done, fault, ◌>>=◌,
}

-- The size of `read_buf`.
abbrev pub buf_size : ℕ
buf_size = 2400

-- Where a cell of the screen stands in `read_buf`: the program multiplies by the number of rows.
abbrev pub offset : ℕ → ℕ → ℕ → ℕ
offset max_y y x = y * max_y + x

-- `read_buf[i] = c`
unfoldable pub store : ℕ → ℕ → List ℕ → Outcome (List ℕ)
store i c buf = if ltb i (length buf) then done (set buf i c) else fault

-- The contents of a file after a `write` at its start, which does not cut it off.
abbrev pub write_front : List ℕ → List ℕ → List ℕ
write_front [] old = old
write_front (b ∷ bytes) [] = b ∷ bytes
write_front (b ∷ bytes) (o ∷ old) = b ∷ write_front bytes old

-- SafeFile on the contents of the file, `none` being a descriptor of -1, on which `lseek` and `write`
-- fail. A `write` that does not fail writes everything.
unfoldable pub safe_file : Bool → Option (List ℕ) → List ℕ → Outcome (Option (List ℕ))
safe_file write_ok file buf = do
  s ← string_of buf
  (if write_ok then done (Option.map (write_front s) file) else done file)

-- `read (fd, read_buf, 2400)`, which fails where `open` has failed or `read_ok` is `false`.
unfoldable pub read_file : Bool → Option (List ℕ) → List ℕ → List ℕ
read_file read_ok none buf = buf
read_file read_ok (some contents) buf = if read_ok then receive contents buf else buf
