-- ===== src/Prelude/Family.antt =====
-- Arrays of any length: functions of the index, with a store to one cell, and what the cells below a
-- bound weigh together.
use Prim.Native.Nat.{ℕ, zero, suc, ◌+◌, ◌≤◌, ◌<◌}
use mathlib.Core.Path.{◌≡◌, refl, subst}
use mathlib.Core.Option.{Option, none, some}
use mathlib.Core.Logic.{◌≢◌, ite, if_pos, if_neg}
use native.Mathlib.Decide.{ℕ_discrete}
use native.Mathlib.Omega.{arith}
use eltex_courses_homeworks.Prelude.Tests.{ltb, lt→ltb, if◌then◌else◌}

-- The array `cells` after `cells[k] = v`.
abbrev pub update {ℓ} : {V : Type ℓ} → (ℕ → V) → ℕ → V → ℕ → V
update cells k v at = ite (ℕ_discrete k at) v (cells at)

pub update_eq {ℓ} :
    {V : Type ℓ} (cells : ℕ → V) (k : ℕ) (v : V) (at : ℕ) → k ≡ at → update cells k v at ≡ v
update_eq cells k v at same = if_pos (ℕ_discrete k at) same v (cells at)

pub update_ne {ℓ} :
    {V : Type ℓ} (cells : ℕ → V) (k : ℕ) (v : V) (at : ℕ) → k ≢ at → update cells k v at ≡ cells at
update_ne cells k v at apart = if_neg (ℕ_discrete k at) apart v (cells at)

-- What stands in a cell, if anything does, has the property.
abbrev pub Slot {ℓ ℓ'} : {V : Type ℓ} → (V → Type ℓ') → Option V → Type ℓ'
Slot P none = Unit
Slot P (some v) = P v

pub Slot-at {ℓ ℓ'} :
    {V : Type ℓ} (P : V → Type ℓ') (slot : Option V) {v : V} → slot ≡ some v → Slot P slot → P v
Slot-at P slot at held = subst (Slot P) at held

-- A store to one cell of what has the property.
pub update-Slot {ℓ ℓ'} :
    {V : Type ℓ} (P : V → Type ℓ') (slots : ℕ → Option V) (k : ℕ) (v : V)
    → ((i : ℕ) → Slot P (slots i))
    → P v
    → (i : ℕ) → Slot P (update slots k (some v) i)
update-Slot P slots k v held w i = elim (ℕ_discrete k i) [
  | yes same ↦ rw (update_eq slots k (some v) i same) w
  | no apart ↦ rw (update_ne slots k (some v) i apart) (held i)
]

-- The weight of the cells below `bound`.
unfoldable pub total {ℓ} : {V : Type ℓ} → (V → ℕ) → ℕ → (ℕ → V) → ℕ
total weight zero cells = 0
total weight (suc bound) cells = weight (cells bound) + total weight bound cells

-- A store to a cell counts where the cell is below the bound.
total-update_if {ℓ} :
    {V : Type ℓ} (weight : V → ℕ) (bound : ℕ) (cells : ℕ → V) (k : ℕ) (v : V)
    → (if ltb k bound then weight (cells k) else 0) + total weight bound (update cells k v)
      ≡ (if ltb k bound then weight v else 0) + total weight bound cells
unfolding total
total-update_if weight zero cells k v = ground arith
total-update_if weight (suc bound) cells k v =
    ground (arith, total-update_if weight bound cells k v)

pub total-update {ℓ} :
    {V : Type ℓ} (weight : V → ℕ) (bound : ℕ) (cells : ℕ → V) (k : ℕ) (v : V)
    → k < bound
    → weight (cells k) + total weight bound (update cells k v) ≡ weight v + total weight bound cells
total-update weight bound cells k v inside =
    ground (arith, total-update_if weight bound cells k v, lt→ltb k bound inside)

-- A cell below the bound weighs no more than all of them, and nothing where they weigh nothing.
pub total-ge {ℓ} :
    {V : Type ℓ} (weight : V → ℕ) (bound : ℕ) (cells : ℕ → V) (k : ℕ)
    → k < bound
    → weight (cells k) ≤ total weight bound cells
unfolding total
total-ge weight zero cells k inside = absurd (omega arith)
total-ge weight (suc bound) cells k inside = elim (ℕ_discrete k bound) [
  | yes last ↦ rw last (omega arith)
  | no below ↦ omega (arith, total-ge weight bound cells k (omega arith))
]

pub total-eq-zero {ℓ} :
    {V : Type ℓ} (weight : V → ℕ) (bound : ℕ) (cells : ℕ → V)
    → ((k : ℕ) → k < bound → weight (cells k) ≡ 0)
    → total weight bound cells ≡ 0
unfolding total
total-eq-zero weight zero cells weightless = refl
total-eq-zero weight (suc bound) cells weightless = ground (
  arith,
  weightless bound,
  total-eq-zero weight bound cells (λ k inside. weightless k (omega arith)),
)
