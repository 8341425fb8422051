-- ===== src/Structs.antt =====
-- playing_with_struct/: structures laid over an array of bytes. Where the compiler puts the field B
-- of each structure is a parameter; what is kept of the output is the values printed.
mod Tests
use eltex_courses_homeworks.Prelude.{
  ℕ, suc, ◌+◌, ◌-◌, ◌*◌, ◌^◌, ◌≤◌, ◌<◌, ◌≡◌, refl, ltb, List, [], ◌∷◌, length, get_elem?,
  get_elem?-some, arith, if◌then◌else◌, Outcome, done, deref, ◌>>=◌,
}
use eltex_courses_homeworks.Prelude.Int.{ℤ, pos, negsuc}

-- `str`
abbrev pub str : List ℕ
str = b'A' ∷ 0 ∷ 0 ∷ 0 ∷ 0 ∷ b'B' ∷ 0 ∷ 0 ∷ 0 ∷ 0 ∷ []

-- The offset of B in `struct Test`, `struct TestWithAttribute` and `struct TestWithBitFeild`; A
-- stands at 0.
pub record Layouts : Type 0 where
  pub test : ℕ
  pub packed : ℕ
  pub bit_field : ℕ

-- An `int` is aligned to 4 bytes; in a packed structure each field follows the one before, here one
-- of 1 byte, and 32 bits more in the last structure.
pub record Documented (l : Layouts) : Type 0 where
  pub test : l.test ≡ 4
  pub packed : l.packed ≡ 1
  pub bit_field : l.bit_field ≡ 5

-- The number of type `char` or `int` with the given bits.
abbrev signed : ℕ → ℕ → ℤ
signed half n = if ltb n half then pos n else negsuc (2 * half - 1 - n)

unfoldable pub read_char : ℕ → List ℕ → Outcome ℤ
read_char i bytes = do b ← deref (get_elem? bytes i); done (signed (2 ^ 7) b)

-- Four bytes, the lowest first.
unfoldable pub read_int : ℕ → List ℕ → Outcome ℤ
read_int i bytes = do
  b₀ ← deref (get_elem? bytes i)
  b₁ ← deref (get_elem? bytes (i + 1))
  b₂ ← deref (get_elem? bytes (i + 2))
  b₃ ← deref (get_elem? bytes (i + 3))
  done (signed (2 ^ 31) (b₀ + 2 ^ 8 * b₁ + 2 ^ 16 * b₂ + 2 ^ 24 * b₃))

pub record Fields : Type 0 where
  pub a : ℤ
  pub b : ℤ

-- A structure with B at `offset`, over the bytes.
unfoldable pub fields : ℕ → List ℕ → Outcome Fields
unfolding read_char read_int
fields offset bytes = do
  a ← read_char 0 bytes
  b ← read_int offset bytes
  done (record { a = a; b = b })

-- What `main` prints, in order.
pub record Printed : Type 0 where
  pub test : Fields
  pub packed : Fields
  pub shifted_test : ℤ
  pub shifted_packed : ℤ
  pub bit_field : Fields

unfoldable pub print_structs : Layouts → List ℕ → Outcome Printed
unfolding fields
print_structs l bytes = do
  test ← fields l.test bytes
  packed ← fields l.packed bytes
  shifted_test ← read_int (1 + l.test) bytes
  shifted_packed ← read_int (4 + l.packed) bytes
  bit_field ← fields l.bit_field bytes
  done (record {
    test = test;
    packed = packed;
    shifted_test = shifted_test;
    shifted_packed = shifted_packed;
    bit_field = bit_field;
  })

read_char-done :
    (i : ℕ) (bytes : List ℕ) → i < length bytes → (v : ℤ) × (read_char i bytes ≡ done v)
unfolding read_char
read_char-done i bytes inside =
    let (b, e) = get_elem?-some bytes i inside in (signed (2 ^ 7) b, rw e refl)

read_int-done :
    (i : ℕ) (bytes : List ℕ) → i + 3 < length bytes → (v : ℤ) × (read_int i bytes ≡ done v)
unfolding read_int
read_int-done i bytes inside =
    let (b₀, e₀) = get_elem?-some bytes i (omega arith) in
    let (b₁, e₁) = get_elem?-some bytes (i + 1) (omega arith) in
    let (b₂, e₂) = get_elem?-some bytes (i + 2) (omega arith) in
    let (b₃, e₃) = get_elem?-some bytes (i + 3) (omega arith) in
    (signed (2 ^ 31) (b₀ + 2 ^ 8 * b₁ + 2 ^ 16 * b₂ + 2 ^ 24 * b₃), rw (e₀, e₁, e₂, e₃) refl)

-- With the layouts documented for the compiler and any array of 10 bytes, all that
-- playing_with_struct reads lies in the array, and the field B that it reads through `struct Test`
-- one byte on, through the packed structure 4 bytes on and through the one with the bit-field is
-- the same.
pub print_structs_lem :
    (l : Layouts) (bytes : List ℕ)
    → Documented l
    → length bytes ≡ 10
    → (p : Printed) × (print_structs l bytes ≡ done p)
      × (p.shifted_test ≡ p.shifted_packed)
      × (p.shifted_test ≡ p.bit_field.b)
unfolding print_structs fields
print_structs_lem l bytes d size =
    let (a, first) = read_char-done 0 bytes (omega arith) in
    let (b₄, at_4) = read_int-done 4 bytes (omega arith) in
    let (b₁, at_1) = read_int-done 1 bytes (omega arith) in
    let (b₅, at_5) = read_int-done 5 bytes (omega arith) in
    (
      record {
        test = record { a = a; b = b₄ };
        packed = record { a = a; b = b₁ };
        shifted_test = b₅;
        shifted_packed = b₅;
        bit_field = record { a = a; b = b₅ };
      },
      rw (d.test, d.packed, d.bit_field, first, at_4, at_1, at_5) refl,
      refl,
      refl,
    )
