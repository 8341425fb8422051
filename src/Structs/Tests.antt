-- ===== src/Structs/Tests.antt =====
-- The array of playing_with_struct/playing_with_struct.c.
use eltex_courses_homeworks.Prelude.{◌≡◌, refl, done}
use eltex_courses_homeworks.Prelude.Int.{pos}
use eltex_courses_homeworks.Structs.{
  str, Layouts, Documented, Printed, print_structs, print_structs_lem,
}

abbrev layouts : Layouts
layouts = record { test = 4; packed = 1; bit_field = 5 }

layouts-Documented : Documented layouts
layouts-Documented = record { test = refl; packed = refl; bit_field = refl }

print_structs_lem_example :
    (p : Printed) × (print_structs layouts str ≡ done p)
    × (p.shifted_test ≡ p.shifted_packed)
    × (p.shifted_test ≡ p.bit_field.b)
print_structs_lem_example = print_structs_lem layouts str layouts-Documented refl

-- What the program prints of its own array.
str-printed :
    print_structs layouts str
    ≡ done (record {
      test = record { a = pos 65; b = pos 16896 };
      packed = record { a = pos 65; b = pos 0 };
      shifted_test = pos 66;
      shifted_packed = pos 66;
      bit_field = record { a = pos 65; b = pos 66 };
    })
unfolding print_structs
str-printed = refl
