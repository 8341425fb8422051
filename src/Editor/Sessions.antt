-- ===== src/Editor/Sessions.antt =====
-- Whole sessions of text editor/main.c.
use eltex_courses_homeworks.Prelude.{
  ℕ, zero, suc, ◌+◌, ◌*◌, ◌≤◌, ◌<◌, ◌≡◌, ◌≢◌, inl, inr, refl, ap, ◌∙◌, Bool, Option, none, some,
  List, [], ◌∷◌, ◌==◌, Bool-cases, length, get_elem?, string_of, Outcome, done, exit, fault, arith,
  string_of-cases,
}
use eltex_courses_homeworks.Editor.Buffer.{buf_size, offset}
use eltex_courses_homeworks.Editor.Cells.{get_elem?-set}
use eltex_courses_homeworks.Editor.Keys.{Curses, Mode, Editor, press, session}
use eltex_courses_homeworks.Editor.Bounds.{OnScreen, Changed, Pressed, press-Pressed}

-- The last cell of the screen stands in the buffer before its last byte.
abbrev pub FitsBefore : ℕ → ℕ → Type 0
FitsBefore max_y max_x = max_y * max_y + max_x + 1 ≤ buf_size + max_y

offset-lt_last :
    (max_y max_x y x : ℕ) → y < max_y → x < max_x → FitsBefore max_y max_x → offset max_y y x < 2399
offset-lt_last max_y max_x y x hy hx fits = grind arith

-- A buffer with a zero somewhere holds a string.
string_of-zero : (buf : List ℕ) (i : ℕ) → get_elem? buf i ≡ some 0 → string_of buf ≢ fault
unfolding string_of
string_of-zero [] i e = λ bad. absurd (cc)
string_of-zero (b ∷ buf) zero e = ground (arith, e)
string_of-zero (b ∷ buf) (suc i) e = elim (string_of-cases buf) [
  | inl bad ↦ absurd (string_of-zero buf i e bad)
  | inr (s, good) ↦ elim (Bool-cases (b == 0)) [
    | inl zero_here ↦ λ bad. ground (arith, zero_here, good, bad)
    | inr more ↦ λ bad. ground (arith, more, good, bad)
  ]
]

-- The buffer is whole, and ends with a zero.
abbrev pub EndsWithZero : List ℕ → Type 0
EndsWithZero buf = (length buf ≡ buf_size) × (get_elem? buf 2399 ≡ some 0)

module _ (C : Curses) (max_y max_x : ℕ) (on : OnScreen C max_y max_x) where
  Changed-EndsWithZero :
      (e e' : Editor C)
      → FitsBefore max_y max_x
      → Changed C max_y max_x on e e'
      → EndsWithZero e.read_buf
      → EndsWithZero e'.read_buf
  Changed-EndsWithZero e e' fits (len, inl same) z =
      (len, ap (λ buf. get_elem? buf 2399) same ∙ z.1)
  Changed-EndsWithZero e e' fits (len, inr (v, w)) z =
      let (hy, hx) = on.within e.screen in
      let at : ℕ = offset max_y (C.getyx e.screen).0 (C.getyx e.screen).1 in
      let below : at < 2399 =
        offset-lt_last max_y max_x (C.getyx e.screen).0 (C.getyx e.screen).1 hy hx fits in
      (
        len,
        ap (λ buf. get_elem? buf 2399) w
            ∙ get_elem?-set e.read_buf at 2399 v (omega (arith, z.0))
            ∙ ground (arith, z.1),
      )

  -- The editor that a session leaves, unless q has ended it.
  abbrev pub Kept : Option (Editor C) → Type 0
  Kept none = Unit
  Kept (some e) = EndsWithZero e.read_buf

  Pressed-done :
      (m : Mode) (key : ℕ) (e : Editor C) (o : Outcome (Option (Editor C)))
      → FitsBefore max_y max_x
      → EndsWithZero e.read_buf
      → Pressed C max_y max_x on m key e o
      → (r : Option (Editor C)) × (o ≡ done r) × Kept r
  Pressed-done m key e (done none) fits z p = (none, refl, tt)
  Pressed-done m key e (done (some e')) fits z p =
      (some e', refl, Changed-EndsWithZero e e' fits p z)
  Pressed-done m key e (exit s) fits z p = absurd p
  Pressed-done m key e fault fits z p = absurd (string_of-zero e.read_buf 2399 z.1 p.2)

  -- With the cursor always on a screen whose last cell stands in `read_buf` before its last byte,
  -- and that byte a zero: any sequence of keys, whether or not its writes succeed, is defined.
  -- Either q has ended the loop, or `read_buf` has its 2400 bytes and the last one is still zero.
  pub session-done :
      (keys : List (ℕ × Bool)) (e : Editor C)
      → FitsBefore max_y max_x
      → EndsWithZero e.read_buf
      → (r : Option (Editor C)) × (session C max_y keys e ≡ done r) × Kept r
  unfolding session
  session-done [] e fits z = (some e, refl, z)
  session-done ((key, write_ok) ∷ keys) e fits z =
      let (r, run, k) =
        Pressed-done e.mode key e (press C max_y write_ok e.mode key e) fits z
          (press-Pressed C max_y max_x on write_ok e.mode key e (omega arith) z.0) in
      continued (λ e₁ z₁. session-done keys e₁ fits z₁) r run k
    where
      Done : (Editor C) → List (ℕ × Bool) → Type 0
      Done e keys = (r : Option (Editor C)) × (session C max_y keys e ≡ done r) × Kept r

      continued :
          ((e₁ : Editor C) → EndsWithZero e₁.read_buf → Done e₁ keys)
          → (r : Option (Editor C)) → press C max_y write_ok e.mode key e ≡ done r
          → Kept r
          → Done e ((key, write_ok) ∷ keys)
      continued rest none run k = (none, rw run refl, tt)
      continued rest (some e₁) run k = let (r', more, kept) = rest e₁ k in (r', rw run more, kept)
