-- ===== src/Prelude/Receive.antt =====
-- What a call like `recv` leaves in a buffer of bytes.
use Prim.Native.Nat.{ℕ, suc, ◌≤◌}
use mathlib.Core.Path.{◌≡◌, refl, ap}
use mathlib.Core.List.{List, [], ◌∷◌, ◌++◌}
use native.Mathlib.Omega.{arith}
use eltex_courses_homeworks.Prelude.Lists.{length}

-- The bytes that fit, over the old ones.
abbrev pub receive : List ℕ → List ℕ → List ℕ
receive bytes [] = []
receive [] (o ∷ old) = o ∷ old
receive (b ∷ bytes) (o ∷ old) = b ∷ receive bytes old

pub length-receive : (bytes old : List ℕ) → length (receive bytes old) ≡ length old
length-receive [] [] = refl
length-receive (b ∷ bytes) [] = refl
length-receive [] (o ∷ old) = refl
length-receive (b ∷ bytes) (o ∷ old) = ap suc (length-receive bytes old)

pub receive_none : (old : List ℕ) → receive [] old ≡ old
receive_none [] = refl
receive_none (o ∷ old) = refl

-- Bytes that fit stand in front, whatever follows them.
pub receive-begins :
    (text rest old : List ℕ)
    → length text ≤ length old
    → (junk : List ℕ) × (receive (text ++ rest) old ≡ text ++ junk)
receive-begins [] rest old h = (receive rest old, refl)
receive-begins (b ∷ text) rest [] h = absurd (omega arith)
receive-begins (b ∷ text) rest (o ∷ old) h =
    let (junk, e) = receive-begins text rest old (omega arith) in (junk, ap (b ∷◌) e)
