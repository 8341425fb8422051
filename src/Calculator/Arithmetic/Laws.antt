-- ===== src/Calculator/Arithmetic/Laws.antt =====
-- When the operations of calculater/lib/ are defined, and what they give.
use eltex_courses_homeworks.Prelude.{◌≡◌, ◌↔◌, true, if◌then◌else◌, done, fault, arith}
use eltex_courses_homeworks.Prelude.Int.{ℤ, pos, negsuc, ◌+ℤ◌, ◌-ℤ◌}
use eltex_courses_homeworks.Calculator.Arithmetic.{fits_int, minus_one, add, sub}

-- For any two `int`s, Add is defined: it gives 0 and the sum where the sum is an `int`, and
-- otherwise -1 and the result as it was.
pub add_lem :
    (a b r : ℤ)
    → fits_int a ≡ true
    → fits_int b ≡ true
    → add a b r ≡ done (if fits_int (a +ℤ b) then (pos 0, a +ℤ b) else (minus_one, r))
unfolding add ◌+ℤ◌ ◌-ℤ◌
add_lem (pos a) (pos b) r ha hb = ground arith
add_lem (pos a) (negsuc b) r ha hb = ground arith
add_lem (negsuc a) (pos b) r ha hb = ground arith
add_lem (negsuc a) (negsuc b) r ha hb = ground arith

-- For any two `int`s of which the second has an opposite, Sub is undefined just where Add reports
-- an overflow on the first and the opposite of the second.
pub sub-fault_iff :
    (a b r : ℤ)
    → fits_int a ≡ true
    → fits_int b ≡ true
    → fits_int (pos 0 -ℤ b) ≡ true
    → (sub a b r ≡ fault) ↔ (add a (pos 0 -ℤ b) r ≡ done (minus_one, r))
unfolding sub add ◌+ℤ◌ ◌-ℤ◌
sub-fault_iff (pos a) (pos b) r ha hb hc = ground arith
sub-fault_iff (pos a) (negsuc b) r ha hb hc = ground arith
sub-fault_iff (negsuc a) (pos b) r ha hb hc = ground arith
sub-fault_iff (negsuc a) (negsuc b) r ha hb hc = ground arith
