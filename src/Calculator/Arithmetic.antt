-- ===== src/Calculator/Arithmetic.antt =====
-- calculater/lib/add.c, sub.c, mult.c and div.c. An `int` is an integer of 32 bits; an operation on
-- `int` whose value does not fit is undefined. `double` is a parameter.
pub mod Laws
use eltex_courses_homeworks.Prelude.{
  ℕ, ◌+◌, ◌-◌, ◌^◌, ◌≤◌, ◌≡◌, Bool, true, false, ◌&&◌, ltb, leb, if◌then◌else◌, Outcome, done,
  fault, ◌>>=◌,
}
use eltex_courses_homeworks.Prelude.Int.{
  ℤ, pos, negsuc, pos_part, neg_part, ◌+ℤ◌, ◌-ℤ◌, ◌*ℤ◌, ltb_ℤ,
}

abbrev pub int_max : ℤ
int_max = pos (2 ^ 31 - 1)

abbrev pub int_min : ℤ
int_min = negsuc (2 ^ 31 - 1)

-- An integer that `int` holds.
abbrev pub fits_int : ℤ → Bool
fits_int (pos n) = ltb n (2 ^ 31)
fits_int (negsuc n) = ltb n (2 ^ 31)

-- The value of an operation on `int`
abbrev pub int_value : ℤ → Outcome ℤ
int_value z = if fits_int z then done z else fault

-- `double`, with the conversion from `int` and the division of the machine.
pub record Double : Type 1 where
  pub Value : Type 0
  pub of_int : ℤ → Value
  pub divide : Value → Value → Value

abbrev pub minus_one : ℤ
minus_one = negsuc 0

-- The condition of `Add`, from left to right: a difference is taken only where the signs allow it.
unfoldable pub over_max : ℤ → ℤ → Outcome Bool
over_max a b =
    if ltb_ℤ (pos 0) a && ltb_ℤ (pos 0) b
    then (do d ← int_value (int_max -ℤ b); done (ltb_ℤ d a))
    else done false

unfoldable pub under_min : ℤ → ℤ → Outcome Bool
under_min a b =
    if ltb_ℤ a (pos 0) && ltb_ℤ b (pos 0)
    then (do d ← int_value (int_min -ℤ b); done (ltb_ℤ a d))
    else done false

-- Each function gives its result and what `*result` holds after it.
unfoldable pub add : ℤ → ℤ → ℤ → Outcome (ℤ × ℤ)
unfolding over_max under_min
add first_summand second_summand result = do
  over ← over_max first_summand second_summand
  under ← (if over then done true else under_min first_summand second_summand)
  (if under
      then done (minus_one, result)
      else (do s ← int_value (first_summand +ℤ second_summand); done (pos 0, s)))

unfoldable pub sub : ℤ → ℤ → ℤ → Outcome (ℤ × ℤ)
sub minuend subtrahend result = do d ← int_value (minuend -ℤ subtrahend); done (pos 0, d)

unfoldable pub mult : ℤ → ℤ → ℤ → Outcome (ℤ × ℤ)
mult first_multiplier second_multiplier result = do
  p ← int_value (first_multiplier *ℤ second_multiplier)
  done (pos 0, p)

abbrev pub is_zero : ℤ → Bool
is_zero (pos n) = leb n 0
is_zero (negsuc n) = false

module _ (D : Double) where
  open D use {Value, of_int, divide}

  unfoldable pub div : ℤ → ℤ → Value → ℤ × Value
  div dividend divider result =
      if is_zero divider
      then (minus_one, result)
      else (pos 0, divide (of_int dividend) (of_int divider))
