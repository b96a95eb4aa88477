-- ===== src/AppendOnlyVec/Push.antt =====
-- `AppendOnlyVec::push` by any number of writers, one atomic access to a step. A `Relaxed` or
-- `Acquire` load of a counter may return any value that the counter has had, so it returns one
-- that is at most the current value. The value that a writer pushes stays in its state after it
-- has moved into the slot, so that statements can name it.
use vec.Base.{ℕ, ◌+◌, ◌≤◌, ◌<◌, ◌≡◌, ◌≢◌, Option, none, some, set, ite, ℕ_discrete}
use vec.AppendOnlyVec.{AppendOnlyVec, capacity, with_capacity}

module _ {ℓ} {A : Type ℓ} where
  -- The successful exchange of `reserved` from `cur` to `cur + 1`.
  abbrev pub reserve : AppendOnlyVec A → ℕ → AppendOnlyVec A
  reserve v cur = record v { reserved = cur + 1 }

  -- `(*self.slots[idx].get()).write(value)`
  abbrev pub write_slot : AppendOnlyVec A → ℕ → A → AppendOnlyVec A
  write_slot v idx value = record v { slots = set v.slots idx (some value) }

  -- `self.published.store(idx + 1, Release)`
  abbrev pub publish : AppendOnlyVec A → ℕ → AppendOnlyVec A
  publish v idx = record v { published = idx + 1 }

-- Where a writer stands in `push`.
pub data Pc {ℓ} (A : Type ℓ) : Type ℓ where
  idle : Pc A
  claiming : (value : A) (cur : ℕ) → Pc A  -- in the compare-exchange loop
  writing : (value : A) (idx : ℕ) → Pc A  -- slot claimed
  waiting : (value : A) (idx : ℕ) → Pc A  -- in the spin loop on `published`
  publishing : (value : A) (idx : ℕ) → Pc A  -- before the store
  returned : (value : A) (result : Option ℕ) → Pc A

pub data Move {ℓ} {A : Type ℓ} (v : AppendOnlyVec A) : Pc A → AppendOnlyVec A → Pc A → Type ℓ where
  load : (value : A) (cur : ℕ) → cur ≤ v.reserved → Move v idle v (claiming value cur)
  full : {a : A} {cur : ℕ} → capacity v ≤ cur → Move v (claiming a cur) v (returned a none)
  cas_win :
      {a : A} {cur : ℕ}
      → cur < capacity v
      → v.reserved ≡ cur
      → Move v (claiming a cur) (reserve v cur) (writing a cur)
  cas_lose :
      {a : A} {cur : ℕ} (actual : ℕ)
      → cur < capacity v
      → actual ≤ v.reserved
      → Move v (claiming a cur) v (claiming a actual)
  write : {a : A} {idx : ℕ} → Move v (writing a idx) (write_slot v idx a) (waiting a idx)
  spin :
      {a : A} {idx : ℕ} (seen : ℕ)
      → seen ≤ v.published
      → seen ≢ idx
      → Move v (waiting a idx) v (waiting a idx)
  pass :
      {a : A} {idx : ℕ} (seen : ℕ)
      → seen ≤ v.published
      → seen ≡ idx
      → Move v (waiting a idx) v (publishing a idx)
  store : {a : A} {idx : ℕ} → Move v (publishing a idx) (publish v idx) (returned a (some idx))
  leave : {a : A} {r : Option ℕ} → Move v (returned a r) v idle

abbrev pub update {ℓ} : {B : Type ℓ} → (ℕ → B) → ℕ → B → ℕ → B
update f i b j = ite (ℕ_discrete i j) b (f j)

-- A vector and the writers that share it.
pub record System {ℓ} (A : Type ℓ) : Type ℓ where
  pub vec : AppendOnlyVec A
  pub pc : ℕ → Pc A

-- The scheduler picks a writer, which makes one of its moves.
pub data Step {ℓ} {A : Type ℓ} (s : System A) : System A → Type ℓ where
  pick :
      (i : ℕ) {v : AppendOnlyVec A} {p : Pc A}
      → Move s.vec (s.pc i) v p
      → Step s (record { vec = v; pc = update s.pc i p })

abbrev pub init {ℓ} : {A : Type ℓ} → ℕ → System A
init cap = record { vec = with_capacity cap; pc = λ _. Pc.idle }

pub data Steps {ℓ} {A : Type ℓ} (s : System A) : System A → Type ℓ where
  here : Steps s s
  later : {t u : System A} → Steps s t → Step t u → Steps s u
