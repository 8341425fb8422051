-- ===== src/Calculator/Program/Laws.antt =====
-- What a pass through the loop of calculater/main.c does with lines of input, and at their end.
use eltex_courses_homeworks.Prelude.{
  ℕ, zero, suc, ◌<◌, ◌≡◌, ◌≢◌, ◌⊎◌, refl, true, some, List, [], ◌∷◌, ◌++◌, if◌then◌else◌, done,
  arith, Bool-cases, inl, inr,
}
use eltex_courses_homeworks.Prelude.Int.{ℤ, ◌+ℤ◌}
use eltex_courses_homeworks.Calculator.Arithmetic.{Double, fits_int}
use eltex_courses_homeworks.Calculator.Arithmetic.Laws.{add_lem}
use eltex_courses_homeworks.Calculator.Input.{newline, fgets, atoi}
use eltex_courses_homeworks.Calculator.Input.Decimal.{
  decimal, atoi-decimal, decimal-IsLine, fgets-line,
}
use eltex_courses_homeworks.Calculator.Program.{
  first_byte, Line, result_line, overflow_error, Calc, operate, round, rounds,
}

module _ (D : Double) where
  open D use {Value}

  -- On two lines with the numerals of `int`s and a line with one byte that is no newline, a pass
  -- through the loop takes the three lines and carries out the command of that byte on the two
  -- `int`s.
  round_lem :
      (a b : ℤ) (k : ℕ) (rest : List ℕ) (c : Calc D)
      → fits_int a ≡ true
      → fits_int b ≡ true
      → k ≢ newline
      → c.stdin ≡ decimal a ++ (newline ∷ (decimal b ++ (newline ∷ (k ∷ newline ∷ rest))))
      → round D c ≡ operate D k a b (record c { stdin = rest; buff = some (k ∷ newline ∷ []) })
  unfolding round
  round_lem a b k rest c ha hb hk lines = simp (
    lines,
    fgets-line 255 (decimal a) (decimal b ++ (newline ∷ (k ∷ newline ∷ rest))) c.buff
        (decimal-IsLine a),
    fgets-line 255 (decimal b) (k ∷ newline ∷ rest) (some (decimal a ++ (newline ∷ [])))
        (decimal-IsLine b),
    fgets-line 3 (k ∷ []) rest (some (decimal b ++ (newline ∷ []))) (omega arith, (hk, tt)),
    atoi-decimal a ha,
    atoi-decimal b hb,
  )

  -- What the command 1 prints.
  abbrev pub sum_line : ℤ → Line D
  sum_line z = if fits_int z then result_line z else overflow_error

  -- A pass through the loop on the numerals of two `int`s and the command 1, each on a line,
  -- takes these three lines, prints the sum, or that it overflows where it is no `int`, and keeps
  -- the former result in that case.
  pub round-add :
      (a b : ℤ) (rest : List ℕ) (c : Calc D)
      → fits_int a ≡ true
      → fits_int b ≡ true
      → c.stdin ≡ decimal a ++ (newline ∷ (decimal b ++ (newline ∷ (b'1' ∷ newline ∷ rest))))
      → round D c
        ≡ done (
          true,
          record c {
            stdin = rest;
            buff = some (b'1' ∷ newline ∷ []);
            result = if fits_int (a +ℤ b) then a +ℤ b else c.result;
            out = c.out ++ (sum_line (a +ℤ b) ∷ []);
          },
        )
  unfolding operate
  round-add a b rest c ha hb lines =
      rw (round_lem a b b'1' rest c ha hb (λ e. omega arith) lines, add_lem a b c.result ha hb)
        (elim (Bool-cases (fits_int (a +ℤ b))) [ inl fits ↦ simp fits | inr over ↦ simp over ])

  -- The end of the input, with `s` in the buffer.
  abbrev pub at_end : List ℕ → Calc D → Calc D
  at_end s c = record c { stdin = []; buff = some s }

  operate-other :
      (k : ℕ) (a b : ℤ) (c : Calc D) → (k < b'0') ⊎ (b'4' < k) → operate D k a b c ≡ done (true, c)
  unfolding operate
  operate-other k a b c no_command = ground arith

  stays :
      (c : Calc D) (s : List ℕ) (v : ℤ)
      → atoi s ≡ done v
      → (first_byte s < b'0') ⊎ (b'4' < first_byte s)
      → round D (at_end s c) ≡ done (true, at_end s c)
  unfolding round fgets
  stays c s v value no_command =
      rw (value, operate-other (first_byte s) v v (at_end s c) no_command) refl

  -- At the end of the input, where the buffer holds a line on which atoi is defined and whose
  -- first byte is none of 0 to 4, the loop has not ended after any number of passes, and nothing
  -- has changed.
  pub never_ends :
      (n : ℕ) (c : Calc D) (s : List ℕ) (v : ℤ)
      → atoi s ≡ done v
      → (first_byte s < b'0') ⊎ (b'4' < first_byte s)
      → rounds D n (at_end s c) ≡ done (true, at_end s c)
  unfolding rounds
  never_ends zero c s v value no_command = refl
  never_ends (suc n) c s v value no_command =
      rw (stays c s v value no_command) (never_ends n c s v value no_command)
