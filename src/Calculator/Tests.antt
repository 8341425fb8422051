-- ===== src/Calculator/Tests.antt =====
-- Runs of calculater/.
use eltex_courses_homeworks.Prelude.{
  ℕ, ◌≡◌, ◌↔◌, refl, inr, true, some, none, List, [], ◌∷◌, ◌++◌, done, fault, arith, if◌then◌else◌,
}
use eltex_courses_homeworks.Prelude.Int.{ℤ, pos, negsuc, ◌+ℤ◌, ◌-ℤ◌}
use eltex_courses_homeworks.Calculator.Arithmetic.{Double, int_min, fits_int, minus_one, add, sub}
use eltex_courses_homeworks.Calculator.Arithmetic.Laws.{sub-fault_iff}
use eltex_courses_homeworks.Calculator.Input.{newline, atoi}
use eltex_courses_homeworks.Calculator.Input.Decimal.{decimal}
use eltex_courses_homeworks.Calculator.Program.{Calc, round, rounds}
use eltex_courses_homeworks.Calculator.Program.Laws.{sum_line, at_end, round-add, never_ends}

sub-fault_iff_example :
    (sub int_min (pos 1) (pos 5) ≡ fault)
    ↔ (add int_min (pos 0 -ℤ pos 1) (pos 5) ≡ done (minus_one, pos 5))
unfolding ◌-ℤ◌
sub-fault_iff_example = sub-fault_iff int_min (pos 1) (pos 5) refl refl refl

-- Numbers that stand in for `double`.
abbrev whole : Double
whole = record { Value = ℤ; of_int = λ z. z; divide = λ a b. a }

abbrev typed : List ℕ → Calc whole
typed lines = record { stdin = lines; buff = none; result = pos 0; result_f = pos 0; out = [] }

abbrev two_numbers : List ℕ → List ℕ
two_numbers rest = decimal (pos 12) ++ (newline ∷ (decimal (negsuc 29) ++ (newline ∷ rest)))

round-add_example :
    round whole (typed (two_numbers (b'1' ∷ newline ∷ [])))
    ≡ done (
      true,
      record (typed []) {
        buff = some (b'1' ∷ newline ∷ []);
        result = if fits_int (pos 12 +ℤ negsuc 29) then pos 12 +ℤ negsuc 29 else pos 0;
        out = sum_line whole (pos 12 +ℤ negsuc 29) ∷ [];
      },
    )
round-add_example =
    round-add whole (pos 12) (negsuc 29) [] (typed (two_numbers (b'1' ∷ newline ∷ []))) refl refl
      refl

never_ends_example :
    rounds whole 1000 (at_end whole (b'7' ∷ newline ∷ []) (typed []))
    ≡ done (true, at_end whole (b'7' ∷ newline ∷ []) (typed []))
unfolding atoi
never_ends_example =
    never_ends whole 1000 (typed []) (b'7' ∷ newline ∷ []) (pos 7) refl (inr (omega arith))
