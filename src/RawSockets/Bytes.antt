-- ===== src/RawSockets/Bytes.antt =====
-- Storing and reading the bytes of a packet of the raw clients.
use eltex_courses_homeworks.Prelude.{
  sym, ◌≡◌, ap, refl, ◌<◌, ◌≤◌, ◌++◌, length-receive, receive_none, ℕ, zero, suc, ◌+◌, List, [],
  ◌∷◌, length, arith, receive,
}
use eltex_courses_homeworks.RawSockets.Packet.{put, from, byte}

pub length-put : (i : ℕ) (bytes buf : List ℕ) → length (put i bytes buf) ≡ length buf
length-put zero bytes buf = length-receive bytes buf
length-put (suc i) bytes [] = refl
length-put (suc i) bytes (b ∷ buf) = ap suc (length-put i bytes buf)

pub length-from : (i : ℕ) (buf : List ℕ) → i ≤ length buf → length (from i buf) + i ≡ length buf
length-from zero buf h = omega arith
length-from (suc i) [] h = absurd (omega arith)
length-from (suc i) (b ∷ buf) h = omega (arith, length-from i buf (omega arith))

receive-from :
    (bytes buf : List ℕ)
    → length bytes ≤ length buf
    → (junk : List ℕ) × (receive bytes buf ≡ bytes ++ junk)
receive-from [] buf h = (buf, receive_none buf)
receive-from (b ∷ bytes) [] h = absurd (omega arith)
receive-from (b ∷ bytes) (o ∷ buf) h =
    let (junk, e) = receive-from bytes buf (omega arith) in (junk, ap (λ x. b ∷ x) e)

-- What is stored is what is read there, and before it nothing changes.
pub from-put :
    (i : ℕ) (bytes buf : List ℕ)
    → i + length bytes ≤ length buf
    → (junk : List ℕ) × (from i (put i bytes buf) ≡ bytes ++ junk)
from-put zero bytes buf h = receive-from bytes buf (omega arith)
from-put (suc i) bytes [] h = absurd (omega arith)
from-put (suc i) bytes (b ∷ buf) h = from-put i bytes buf (omega arith)

pub byte-put : (i j : ℕ) (bytes buf : List ℕ) → j < i → byte j (put i bytes buf) ≡ byte j buf
byte-put zero j bytes buf h = absurd (omega arith)
byte-put (suc i) j bytes [] h = refl
byte-put (suc i) zero bytes (b ∷ buf) h = refl
byte-put (suc i) (suc j) bytes (b ∷ buf) h = byte-put i j bytes buf (omega arith)

pub byte-receive :
    (i : ℕ) (bytes buf : List ℕ)
    → i < length bytes
    → i < length buf
    → byte i (receive bytes buf) ≡ byte i bytes
byte-receive i [] buf h k = absurd (omega arith)
byte-receive i (b ∷ bytes) [] h k = absurd (omega arith)
byte-receive zero (b ∷ bytes) (o ∷ buf) h k = refl
byte-receive (suc i) (b ∷ bytes) (o ∷ buf) h k =
    byte-receive i bytes buf (omega arith) (omega arith)

pub byte-append : (i : ℕ) (xs ys : List ℕ) → i < length xs → byte i (xs ++ ys) ≡ byte i xs
byte-append i [] ys h = absurd (omega arith)
byte-append zero (x ∷ xs) ys h = refl
byte-append (suc i) (x ∷ xs) ys h = byte-append i xs ys (omega arith)

pub from-append : (i : ℕ) (xs ys : List ℕ) → length xs ≡ i → from i (xs ++ ys) ≡ ys
from-append zero [] ys h = refl
from-append (suc i) [] ys h = absurd (omega arith)
from-append zero (x ∷ xs) ys h = absurd (omega arith)
from-append (suc i) (x ∷ xs) ys h = from-append i xs ys (omega arith)

from_all-receive : (i : ℕ) (buf : List ℕ) → from i (receive [] buf) ≡ receive [] (from i buf)
from_all-receive zero buf = refl
from_all-receive (suc i) [] = refl
from_all-receive (suc i) (b ∷ buf) = sym (receive_none (from i buf))

pub from-receive :
    (i : ℕ) (bytes buf : List ℕ) → from i (receive bytes buf) ≡ receive (from i bytes) (from i buf)
from-receive zero bytes buf = refl
from-receive (suc i) [] buf = from_all-receive (suc i) buf
from-receive (suc i) (b ∷ bytes) [] = empty (from i bytes)
  where
    empty : (bytes : List ℕ) → [] ≡ receive bytes []
    empty [] = refl
    empty (b ∷ bytes) = refl
from-receive (suc i) (b ∷ bytes) (o ∷ buf) = from-receive i bytes buf
