-- ===== src/Editor/Cells.antt =====
-- Which byte of `read_buf` in text editor/ a cell of the screen has.
use eltex_courses_homeworks.Prelude.{
  ℕ, zero, suc, ◌+◌, ◌*◌, ◌∙◌, ◌&&◌, ◌≤◌, ◌<◌, ◌≡◌, refl, ap, Bool, true, false, some, List, [],
  ◌∷◌, ◌==◌, if◌then◌else◌, ==_iff, lt→ltb, length, get_elem?, set, done, arith, dec_lt, ℕ_discrete,
}
use eltex_courses_homeworks.Editor.Buffer.{buf_size, offset, store}

-- The last cell of the screen stands in the buffer.
abbrev pub Fits : ℕ → ℕ → Type 0
Fits max_y max_x = max_y * max_y + max_x ≤ buf_size + max_y

pub offset-lt :
    (max_y max_x y x : ℕ) → y < max_y → x < max_x → Fits max_y max_x → offset max_y y x < buf_size
offset-lt max_y max_x y x hy hx fits = grind arith

row-le : (m y y' : ℕ) → y < y' → y * m + m ≤ y' * m
row-le m y y' h = grind arith

-- On a screen that is no wider than it is tall each cell has a byte of its own.
offset-injective :
    (max_y y x y' x' : ℕ)
    → x < max_y
    → x' < max_y
    → offset max_y y x ≡ offset max_y y' x'
    → (y ≡ y') × (x ≡ x')
offset-injective max_y y x y' x' h h' e = elim (dec_lt y y') [
  | yes above ↦ absurd (omega (arith, row-le max_y y y' above))
  | no not_above ↦ elim (dec_lt y' y) [
    | yes below ↦ absurd (omega (arith, row-le max_y y' y below))
    | no not_below ↦
        let same : y ≡ y' = omega arith in (same, omega (arith, ap (λ (r : ℕ). r * max_y) same))
  ]
]

pub store-done : (i v : ℕ) (buf : List ℕ) → i < length buf → store i v buf ≡ done (set buf i v)
unfolding store
store-done i v buf h = rw (lt→ltb i (length buf) h) refl

pub get_elem?-set :
    (xs : List ℕ) (i j v : ℕ)
    → i < length xs
    → get_elem? (set xs i v) j ≡ (if i == j then some v else get_elem? xs j)
get_elem?-set [] i j v h = absurd (omega arith)
get_elem?-set (x ∷ xs) zero zero v h = ground arith
get_elem?-set (x ∷ xs) zero (suc j) v h = ground arith
get_elem?-set (x ∷ xs) (suc i) zero v h = ground arith
get_elem?-set (x ∷ xs) (suc i) (suc j) v h = ground (arith, get_elem?-set xs i j v (omega arith))

-- A store to one cell, read at any other.
pub get_elem?-set_cell :
    (max_y cy cx y x v : ℕ) (buf : List ℕ)
    → cx < max_y
    → x < max_y
    → offset max_y cy cx < length buf
    → get_elem? (set buf (offset max_y cy cx) v) (offset max_y y x)
      ≡ (if cy == y && cx == x then some v else get_elem? buf (offset max_y y x))
get_elem?-set_cell max_y cy cx y x v buf hc hx h =
    get_elem?-set buf (offset max_y cy cx) (offset max_y y x) v h
    ∙ (elim (ℕ_discrete (offset max_y cy cx) (offset max_y y x)) [
      | yes same ↦
          let cell = offset-injective max_y cy cx y x hc hx same in
          rw
            (
              (==_iff (offset max_y cy cx) (offset max_y y x)).1 same,
              (==_iff cy y).1 cell.0,
              (==_iff cx x).1 cell.1,
            )
            refl
      | no other ↦ ground (arith, ap (λ (r : ℕ). r * max_y))
    ])

pub if_cases :
    {A : Type 0} (P : A → Type 0) (b : Bool) {x y : A}
    → (b ≡ true → P x)
    → (b ≡ false → P y)
    → P (if b then x else y)
if_cases P true f g = f refl
if_cases P false f g = g refl
