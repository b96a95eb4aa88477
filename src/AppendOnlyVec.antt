-- ===== src/AppendOnlyVec.antt =====
-- src/append_only_vec.rs: the vector, its constructors, and what readers and an exclusive owner do.
-- A `MaybeUninit` slot is an `Option`: `none` is uninitialised memory. The concurrent `push` is in
-- the children.
pub mod Push
pub mod Invariant
mod Moves
pub mod Slice
pub mod Concurrent
pub mod Exclusive
pub mod Solo
pub mod Iterate
pub mod Settle
pub mod Log
mod Tests
use vec.Base.{
  ℕ, zero, suc, ◌+◌, List, [], ◌∷◌, ◌++◌, Option, none, some, Bool, length, get_elem?, set,
  replicate, leb, ◌==◌, if◌then◌else◌, map,
}
pub use vec.Base.Outcome.{Outcome, done, panic, undefined}

pub record AppendOnlyVec {ℓ} (A : Type ℓ) : Type ℓ where
  pub slots : List (Option A)
  pub reserved : ℕ
  pub published : ℕ

pub record Iter {ℓ} (A : Type ℓ) : Type ℓ where
  pub slice : List A
  pub idx : ℕ

module _ {ℓ} {A : Type ℓ} where
  -- `set_len(cap)` makes `cap` slots of the fresh allocation, and initialises none.
  abbrev pub with_capacity : ℕ → AppendOnlyVec A
  with_capacity cap = record { slots = replicate cap none; reserved = 0; published = 0 }

  abbrev pub default : AppendOnlyVec A
  default = with_capacity 0

  abbrev pub capacity : AppendOnlyVec A → ℕ
  capacity v = length v.slots

  abbrev pub count : AppendOnlyVec A → ℕ
  count v = v.published

  pub is_empty : AppendOnlyVec A → Bool
  is_empty v = count v == 0

  -- `assume_init` of one slot; `slots[idx]` panics out of range.
  pub assume_init : Option (Option A) → Outcome A
  assume_init none = panic
  assume_init (some none) = undefined
  assume_init (some (some a)) = done a

  -- Put a value before the values of a result.
  abbrev pub cons_done : A → Outcome (List A) → Outcome (List A)
  cons_done a (done xs) = done (a ∷ xs)
  cons_done a panic = panic
  cons_done a undefined = undefined

  -- `from_raw_parts(slots, n)`, read in full. A slice longer than the buffer is undefined.
  pub raw_parts : List (Option A) → ℕ → Outcome (List A)
  raw_parts slots zero = done []
  raw_parts [] (suc n) = undefined
  raw_parts (none ∷ slots) (suc n) = undefined
  raw_parts (some a ∷ slots) (suc n) = cons_done a (raw_parts slots n)

  pub as_slice : AppendOnlyVec A → Outcome (List A)
  as_slice v = raw_parts v.slots (count v)

  -- `Deref::deref`
  pub deref : AppendOnlyVec A → Outcome (List A)
  deref v = as_slice v

  abbrev pub some_done : Outcome A → Outcome (Option A)
  some_done (done a) = done (some a)
  some_done panic = panic
  some_done undefined = undefined

  pub get : AppendOnlyVec A → ℕ → Outcome (Option A)
  get v idx =
      if leb (count v) idx then done none else some_done (assume_init (get_elem? v.slots idx))

  abbrev pub unwrap : Outcome (Option A) → Outcome A
  unwrap (done none) = panic
  unwrap (done (some a)) = done a
  unwrap panic = panic
  unwrap undefined = undefined

  -- `Index::index`
  pub index : AppendOnlyVec A → ℕ → Outcome A
  index v idx = unwrap (get v idx)

  abbrev pub iter_of : Outcome (List A) → Outcome (Iter A)
  iter_of (done xs) = done (record { slice = xs; idx = 0 })
  iter_of panic = panic
  iter_of undefined = undefined

  pub iter : AppendOnlyVec A → Outcome (Iter A)
  iter v = iter_of (as_slice v)

  -- The element at `i` with its index, and the iterator past it.
  abbrev pub yield : Iter A → Option A → Option (ℕ × A) × Iter A
  yield it none = (none, it)
  yield it (some a) = (some (it.idx, a), record it { idx = it.idx + 1 })

  -- `Iterator::next`; `&slice[i]` is in range by the test.
  pub next : Iter A → Option (ℕ × A) × Iter A
  next it =
      if leb (length it.slice) it.idx then (none, it) else yield it (get_elem? it.slice it.idx)

  -- `as_mut_slice`: the elements, which the owner may replace by `write_back`.
  pub as_mut_slice : AppendOnlyVec A → Outcome (List A)
  as_mut_slice v = raw_parts v.slots v.published

  pub write_back : List (Option A) → List A → List (Option A)
  write_back slots [] = slots
  write_back [] (x ∷ xs) = []
  write_back (s ∷ slots) (x ∷ xs) = some x ∷ write_back slots xs

  abbrev pub edited : AppendOnlyVec A → (A → A) → Outcome (List A) → Outcome (AppendOnlyVec A)
  edited v f (done xs) = done (record v { slots = write_back v.slots (map f xs) })
  edited v f panic = panic
  edited v f undefined = undefined

  -- A loop over `iter_mut` that replaces each element by its image under `f`.
  pub iter_mut : AppendOnlyVec A → (A → A) → Outcome (AppendOnlyVec A)
  unfolding write_back
  iter_mut v f = edited v f (as_mut_slice v)

  -- `Drop::drop`: the values whose destructor runs, in order, from slot `i` with `n` to go.
  abbrev pub drop_then : Outcome A → Outcome (List A) → Outcome (List A)
  drop_then (done a) rest = cons_done a rest
  drop_then panic rest = panic
  drop_then undefined rest = undefined

  pub drop_loop : List (Option A) → ℕ → ℕ → Outcome (List A)
  drop_loop slots i zero = done []
  drop_loop slots i (suc n) =
      drop_then (assume_init (get_elem? slots i)) (drop_loop slots (i + 1) n)

  pub drop_vec : AppendOnlyVec A → Outcome (List A)
  unfolding drop_loop
  drop_vec v = drop_loop v.slots 0 v.published
