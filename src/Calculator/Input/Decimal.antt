-- ===== src/Calculator/Input/Decimal.antt =====
-- Decimal numerals, and that `atoi` reads them back.
use eltex_courses_homeworks.Prelude.{
  ℕ, zero, suc, ◌+◌, ◌-◌, ◌*◌, ◌/◌, ◌%◌, ◌^◌, ◌≤◌, ◌<◌, ◌≡◌, ◌≢◌, refl, ◌∙◌, ap, true, List, [],
  ◌∷◌, ◌++◌, length, length-append, ltb, if◌then◌else◌, done, arith, All, Option, some, Bool-cases,
  inl, inr, ltb→lt, lt→ltb,
}
use native.Mathlib.Nat.{pow-suc}
use eltex_courses_homeworks.Prelude.Int.{ℤ, pos, negsuc, sub_ℕ}
use eltex_courses_homeworks.Calculator.Arithmetic.{fits_int}
use eltex_courses_homeworks.Calculator.Input.{
  take_line, fgets, newline, digits_value, signed_value, skip_spaces, atoi,
}

-- The digits of a number, at most `k` of them.
unfoldable pub digits : ℕ → ℕ → List ℕ
digits zero n = []
digits (suc k) n =
    let front = digits k (n / 10) in
    if ltb n 10 then (48 + n) ∷ [] else front ++ ((48 + n % 10) ∷ [])

-- The numeral of an `int`.
unfoldable pub decimal : ℤ → List ℕ
decimal (pos n) = digits 10 n
decimal (negsuc n) = b'-' ∷ digits 10 (n + 1)

abbrev pub Digits : List ℕ → Type 0
Digits = All (λ c. (48 ≤ c) × (c ≤ 57))

Digits-append : (xs ys : List ℕ) → Digits xs → Digits ys → Digits (xs ++ ys)
Digits-append [] ys h g = g
Digits-append (x ∷ xs) ys h g = (h.0, Digits-append xs ys h.1 g)

digits-Digits : (k n : ℕ) → Digits (digits k n)
unfolding digits
digits-Digits zero n = tt
digits-Digits (suc k) n = elim (Bool-cases (ltb n 10)) [
  | inl small ↦ rw small (omega (arith, ltb→lt n 10 small))
  | inr large ↦
      rw large (Digits-append (digits k (n / 10)) _ (digits-Digits k (n / 10)) (omega arith))
]

digits_value-append :
    (xs ys : List ℕ) (acc : ℕ)
    → Digits xs
    → digits_value acc (xs ++ ys) ≡ digits_value (digits_value acc xs) ys
unfolding digits_value
digits_value-append [] ys acc h = refl
digits_value-append (x ∷ xs) ys acc h =
    ground (arith, digits_value-append xs ys (acc * 10 + (x - 48)))

digits_value_last :
    (k n : ℕ)
    → digits_value 0 (digits k (n / 10)) ≡ n / 10
    → digits_value 0 (digits k (n / 10) ++ ((48 + n % 10) ∷ [])) ≡ n
unfolding digits_value
digits_value_last k n h =
    rw
      (digits_value-append (digits k (n / 10)) ((48 + n % 10) ∷ []) 0 (digits-Digits k (n / 10)), h)
      (ground arith)

digits_value-digits : (k n : ℕ) → n < 10 ^ suc k → digits_value 0 (digits (suc k) n) ≡ n
unfolding digits digits_value
digits_value-digits zero n h = rw (lt→ltb n 10 h) (ground arith)
digits_value-digits (suc k) n h = elim (Bool-cases (ltb n 10)) [
  | inl small ↦ rw small (ground arith)
  | inr large ↦ rw large (
      digits_value_last (suc k) n
        (digits_value-digits k (n / 10) (omega (arith, pow-suc 10 (suc k)))))
]

length-digits : (k n : ℕ) → length (digits k n) ≤ k
unfolding digits
length-digits zero n = omega arith
length-digits (suc k) n = elim (Bool-cases (ltb n 10)) [
  | inl small ↦ rw small (omega arith)
  | inr large ↦ rw large (
      omega
        (arith, length-digits k (n / 10), length-append (digits k (n / 10)) ((48 + n % 10) ∷ [])))
]

length-digits_pos : (k n : ℕ) → 0 < length (digits (suc k) n)
unfolding digits
length-digits_pos k n = elim (Bool-cases (ltb n 10)) [
  | inl small ↦ rw small (omega arith)
  | inr large ↦ rw large (omega (arith, length-append (digits k (n / 10)) ((48 + n % 10) ∷ [])))
]

digits_value-newline : (n : ℕ) → digits_value n (newline ∷ []) ≡ n
unfolding digits_value
digits_value-newline n = refl

digits_value_line :
    (s : List ℕ) → Digits s → digits_value 0 (s ++ (newline ∷ [])) ≡ digits_value 0 s
digits_value_line s h =
    digits_value-append s (newline ∷ []) 0 h ∙ digits_value-newline (digits_value 0 s)

-- A numeral is not empty, and its first digit is neither a space nor a sign.
signed_value-Digits :
    (t : List ℕ)
    → Digits t
    → 0 < length t
    → signed_value (skip_spaces (t ++ (newline ∷ []))) ≡ pos (digits_value 0 (t ++ (newline ∷ [])))
unfolding skip_spaces
signed_value-Digits [] h g = absurd (omega (arith, g))
signed_value-Digits (c ∷ s) h g = ground arith

read_digits :
    (n : ℕ) → n < 10 ^ 10 → signed_value (skip_spaces (digits 10 n ++ (newline ∷ []))) ≡ pos n
read_digits n h =
    signed_value-Digits (digits 10 n) (digits-Digits 10 n) (length-digits_pos 9 n)
    ∙ ap pos (digits_value_line (digits 10 n) (digits-Digits 10 n) ∙ digits_value-digits 9 n h)

read_minus :
    (n : ℕ)
    → n < 10 ^ 10
    → signed_value (skip_spaces (b'-' ∷ (digits 10 n ++ (newline ∷ [])))) ≡ sub_ℕ 0 n
unfolding skip_spaces
read_minus n h =
    ap (sub_ℕ 0) (digits_value_line (digits 10 n) (digits-Digits 10 n) ∙ digits_value-digits 9 n h)

-- For any `int`, atoi reads its decimal numeral back from a line that holds it.
pub atoi-decimal : (z : ℤ) → fits_int z ≡ true → atoi (decimal z ++ (newline ∷ [])) ≡ done z
unfolding atoi decimal
atoi-decimal (pos n) h = rw (read_digits n (omega (arith, ltb→lt n (2 ^ 31) h)), h) refl
atoi-decimal (negsuc n) h =
    rw (read_minus (n + 1) (omega (arith, ltb→lt n (2 ^ 31) h))) (ground arith)

-- A line of input fits into a buffer and has no newline before its end.
abbrev pub IsLine : ℕ → List ℕ → Type 0
IsLine size s = (length s + 2 ≤ size) × All (λ c. c ≢ newline) s

Digits-All : (s : List ℕ) → Digits s → All (λ c. c ≢ newline) s
Digits-All [] h = tt
Digits-All (c ∷ s) h = (λ e. omega (arith, h.0), Digits-All s h.1)

pub decimal-IsLine : (z : ℤ) → IsLine 255 (decimal z)
unfolding decimal
decimal-IsLine (pos n) =
    (omega (arith, length-digits 10 n), Digits-All (digits 10 n) (digits-Digits 10 n))
decimal-IsLine (negsuc n) = (
  omega (arith, length-digits 10 (n + 1)),
  (λ e. omega arith, Digits-All (digits 10 (n + 1)) (digits-Digits 10 (n + 1))),
)

take_line_lem :
    (k : ℕ) (s rest : List ℕ)
    → length s < k
    → All (λ c. c ≢ newline) s
    → take_line k (s ++ (newline ∷ rest)) ≡ (s ++ (newline ∷ []), rest)
unfolding take_line
take_line_lem zero s rest h g = absurd (omega arith)
take_line_lem (suc k) [] rest h g = refl
take_line_lem (suc k) (c ∷ s) rest h g = ground (arith, take_line_lem k s rest (omega arith) g.1)

pub fgets-line :
    (size : ℕ) (s rest : List ℕ) (buff : Option (List ℕ))
    → IsLine size s
    → fgets size (s ++ (newline ∷ rest)) buff ≡ (some (s ++ (newline ∷ [])), rest)
unfolding fgets
fgets-line size [] rest buff h = rw (take_line_lem (size - 1) [] rest (omega (arith, h)) tt)
fgets-line size (c ∷ s) rest buff h =
    rw (take_line_lem (size - 1) (c ∷ s) rest (omega (arith, h)) h.1)
