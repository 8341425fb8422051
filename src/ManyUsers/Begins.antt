-- ===== src/ManyUsers/Begins.antt =====
-- Buffers that begin with a string of the programs of NETS/multi-user UDP_ECHO/ and
-- NETS/multi-user TCP_ECHO/.
use eltex_courses_homeworks.Prelude.{
  ℕ, ◌<◌, ◌≡◌, ◌∙◌, sym, ap, List, [], ◌∷◌, ◌++◌, length, length-append, arith, receive,
  receive-begins, string_of, string_of-append, NoZero, done, All,
}
use mathlib.Core.List.{append_assoc}

-- The buffer begins with the string and its zero.
abbrev pub Begins : List ℕ → List ℕ → Type 0
Begins text buf = (junk : List ℕ) × (buf ≡ text ++ (0 ∷ junk))

-- A message that begins with a string, over a buffer with room for it.
pub receive-Begins :
    (text m old : List ℕ) → Begins text m → length text < length old → Begins text (receive m old)
receive-Begins text m old (rest, same) room =
    let ended = append_assoc text (0 ∷ []) rest in
    let (junk, e) =
      receive-begins (text ++ (0 ∷ [])) rest old (omega (arith, length-append text (0 ∷ []))) in
    (junk, ap (λ b. receive b old) (same ∙ sym ended) ∙ (e ∙ append_assoc text (0 ∷ []) junk))

pub string_of-Begins :
    (text buf : List ℕ) → NoZero text → Begins text buf → string_of buf ≡ done text
string_of-Begins text buf plain (junk, same) = ap string_of same ∙ string_of-append text junk plain

pub All-prefix {ℓ κ} : {A : Type ℓ} (P : A → Type κ) (xs ys : List A) → All P (xs ++ ys) → All P xs
All-prefix P [] ys held = tt
All-prefix P (x ∷ xs) ys (now, held) = (now, All-prefix P xs ys held)
