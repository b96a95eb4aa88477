-- ===== src/AppendOnlyVec/Invariant.antt =====
-- What holds of the vector and its writers after any number of steps.
use vec.Base.{ℕ, ◌≤◌, ◌<◌, ◌≡◌, Option, none, some, get_elem?}
use vec.AppendOnlyVec.{AppendOnlyVec, capacity}
use vec.AppendOnlyVec.Push.{Pc, idle, claiming, writing, waiting, publishing, returned}

module _ {ℓ} {A : Type ℓ} where
  -- The slot that a writer has claimed, until it leaves `push`.
  abbrev pub slot_of : Pc A → Option ℕ
  slot_of (writing a k) = some k
  slot_of (waiting a k) = some k
  slot_of (publishing a k) = some k
  slot_of (returned a r) = r
  slot_of _ = none

  -- The slot that a writer has claimed and not yet published.
  abbrev pub pending : Pc A → Option ℕ
  pending (writing a k) = some k
  pending (waiting a k) = some k
  pending (publishing a k) = some k
  pending _ = none

  -- What the place of one writer says of the vector.
  abbrev pub Local : AppendOnlyVec A → Pc A → Type ℓ
  Local v idle = Unit
  Local v (claiming a c) = (c ≤ v.reserved) × Unit {ℓ}
  Local v (writing a k) = (v.published ≤ k) × (k < v.reserved) × (get_elem? v.slots k ≡ some none)
  Local v (waiting a k) =
      (v.published ≤ k) × (k < v.reserved) × (get_elem? v.slots k ≡ some (some a))
  Local v (publishing a k) =
      (v.published ≡ k) × (k < v.reserved) × (get_elem? v.slots k ≡ some (some a))
  Local v (returned a none) = (v.reserved ≡ capacity v) × Unit {ℓ}
  Local v (returned a (some k)) = (k < v.published) × (get_elem? v.slots k ≡ some (some a))

  pub record Inv (cap : ℕ) (v : AppendOnlyVec A) (pc : ℕ → Pc A) : Type ℓ where
    pub sized : capacity v ≡ cap
    pub published_le : v.published ≤ v.reserved
    pub reserved_le : v.reserved ≤ cap
    pub local : (i : ℕ) → Local v (pc i)
    pub unique : (i j k : ℕ) → slot_of (pc i) ≡ some k → slot_of (pc j) ≡ some k → i ≡ j
    pub covered : (k : ℕ) → v.published ≤ k → k < v.reserved → (i : ℕ) × (pending (pc i) ≡ some k)
    pub filled : (k : ℕ) → k < v.published → (a : A) × (get_elem? v.slots k ≡ some (some a))
    pub empty : (k : ℕ) → v.reserved ≤ k → k < cap → get_elem? v.slots k ≡ some none
