-- ===== src/Calculator/Program.antt =====
-- `main` of calculater/main.c. What is printed is the list of the lines with a result or an error.
pub mod Laws
use eltex_courses_homeworks.Prelude.{
  ℕ, zero, suc, ◌≡◌, Bool, true, false, Option, none, some, List, [], ◌∷◌, ◌++◌, ◌==◌,
  if◌then◌else◌, Outcome, done, ◌>>=◌, deref,
}
use eltex_courses_homeworks.Prelude.Int.{ℤ, pos, negsuc}
use eltex_courses_homeworks.Calculator.Arithmetic.{Double, minus_one, add, sub, mult, div}
use eltex_courses_homeworks.Calculator.Input.{fgets, atoi}

-- `catcher == -1`
abbrev pub is_error : ℤ → Bool
is_error (pos n) = false
is_error (negsuc n) = n == 0

-- `buff[0]`
abbrev pub first_byte : List ℕ → ℕ
first_byte [] = 0
first_byte (c ∷ s) = c

module _ (D : Double) where
  open D use {Value}

  pub data Line : Type 0 where
    result_line : ℤ → Line
    quotient_line : Value → Line
    overflow_error : Line
    division_error : Line

  -- The variables of `main`, the input that is left and the lines printed.
  pub record Calc : Type 0 where
    pub stdin : List ℕ
    pub buff : Option (List ℕ)
    pub result : ℤ
    pub result_f : Value
    pub out : List Line

  abbrev pub read_line : ℕ → Calc → Calc
  read_line size c =
      let (buff, stdin) = fgets size c.stdin c.buff in record c { stdin = stdin; buff = buff }

  abbrev pub print : Line → Calc → Calc
  print l c = record c { out = c.out ++ (l ∷ []) }

  -- `Sub` and `Mult` report an error without a line.
  abbrev pub report : Outcome (ℤ × ℤ) → (Calc → Calc) → Calc → Outcome Calc
  report ret on_error c = do
    (catcher, r) ← ret
    (if is_error catcher
        then done (on_error (record c { result = r }))
        else done (print (result_line r) (record c { result = r })))

  -- The `switch` on the byte of the command: the state, and whether the loop goes on.
  unfoldable pub operate : ℕ → ℤ → ℤ → Calc → Outcome (Bool × Calc)
  operate command a b c =
      if command == b'1'
      then (do c' ← report (add a b c.result) (print overflow_error) c; done (true, c'))
      else if command == b'2'
      then (do c' ← report (sub a b c.result) (λ e. e) c; done (true, c'))
      else if command == b'3'
      then (do c' ← report (mult a b c.result) (λ e. e) c; done (true, c'))
      else if command == b'4'
      then (let (catcher, q) = div D a b c.result_f in
          if is_error catcher
          then done (true, print division_error (record c { result_f = q }))
          else done (true, print (quotient_line q) (record c { result_f = q })))
      else if command == b'0'
      then done (false, c)
      else done (true, c)

  -- One pass through the loop of `main`.
  unfoldable pub round : Calc → Outcome (Bool × Calc)
  round c = do
    let c₁ = read_line 255 c
    s₁ ← deref c₁.buff
    first_number ← atoi s₁
    let c₂ = read_line 255 c₁
    s₂ ← deref c₂.buff
    second_number ← atoi s₂
    let c₃ = read_line 3 c₂
    s₃ ← deref c₃.buff
    operate (first_byte s₃) first_number second_number c₃

  -- The loop of `main`, for `n` passes at most: whether it still goes on, and the state.
  unfoldable pub rounds : ℕ → Calc → Outcome (Bool × Calc)
  rounds zero c = done (true, c)
  rounds (suc n) c = do
    (on, c') ← round c
    (let rest = rounds n c' in if on then rest else done (false, c'))

  -- The variables as `main` initialises them.
  abbrev pub initial : List ℕ → Value → Calc
  initial stdin zero_f = record {
    stdin = stdin;
    buff = none;
    result = pos 0;
    result_f = zero_f;
    out = [];
  }
