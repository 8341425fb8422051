-- ===== src/Calculator/Input.antt =====
-- What calculater/main.c uses of the C library to read: `fgets` and `atoi`, on bytes.
pub mod Decimal
use eltex_courses_homeworks.Prelude.{
  ℕ, zero, suc, ◌+◌, ◌-◌, ◌*◌, ◌≡◌, Bool, true, false, ◌&&◌, ◌||◌, List, [], ◌∷◌, ◌==◌, leb,
  if◌then◌else◌, Outcome, done, fault, ◌>>=◌, Option, none, some,
}
use eltex_courses_homeworks.Prelude.Int.{ℤ, pos, negsuc, sub_ℕ}
use eltex_courses_homeworks.Calculator.Arithmetic.{int_value}

abbrev pub newline : ℕ
newline = 10

-- The bytes that `fgets (buff, k + 1, stdin)` takes, and those that it leaves.
unfoldable pub take_line : ℕ → List ℕ → List ℕ × List ℕ
take_line zero stdin = ([], stdin)
take_line (suc k) [] = ([], [])
take_line (suc k) (c ∷ stdin) =
    let (line, rest) = take_line k stdin in
    if c == newline then (c ∷ [], stdin) else (c ∷ line, rest)

-- `fgets`: the string in the buffer, which stays as it was at the end of the input, and the input
-- that is left. A buffer that is not initialised is `none`.
unfoldable pub fgets : ℕ → List ℕ → Option (List ℕ) → Option (List ℕ) × List ℕ
unfolding take_line
fgets size [] buff = (buff, [])
fgets size (c ∷ stdin) buff =
    let (line, rest) = take_line (size - 1) (c ∷ stdin) in (some line, rest)

abbrev pub is_space : ℕ → Bool
is_space c = c == 32 || (leb 9 c && leb c 13)

abbrev pub is_digit : ℕ → Bool
is_digit c = leb 48 c && leb c 57

-- The number in the digits at the front, behind the digits read so far.
unfoldable pub digits_value : ℕ → List ℕ → ℕ
digits_value acc [] = acc
digits_value acc (c ∷ s) =
    let more = digits_value (acc * 10 + (c - 48)) s in if is_digit c then more else acc

abbrev pub signed_value : List ℕ → ℤ
signed_value [] = pos 0
signed_value (c ∷ s) =
    if c == b'-'
    then sub_ℕ 0 (digits_value 0 s)
    else if c == b'+'
    then pos (digits_value 0 s)
    else pos (digits_value 0 (c ∷ s))

unfoldable pub skip_spaces : List ℕ → List ℕ
skip_spaces [] = []
skip_spaces (c ∷ s) = let rest = skip_spaces s in if is_space c then rest else c ∷ s

-- `atoi`: undefined where the number is no `int`.
unfoldable pub atoi : List ℕ → Outcome ℤ
unfolding skip_spaces digits_value
atoi s = int_value (signed_value (skip_spaces s))
