-- ===== src/Vec64/Items.antt =====
-- src/vec64.rs: vectors made and extended item by item. An item is the list of its bytes. What `Vec::push`,
-- `Vec::extend`, `Vec::extend_from_slice` and `Vec::resize` document is written out, with `Vec::reserve` and the clone of an
-- item as parameters.
pub mod Extends
pub mod Put
pub mod Pushed
pub mod Slices
pub mod Collecting
pub mod Collected
pub mod Cloned
use vec.Base.{
  ◌++◌, ltb, ℕ, zero, suc, ◌+◌, ◌-◌, ◌*◌, Option, none, some, List, [], ◌∷◌, map, length, replicate,
  Bool, true, false, ◌&&◌, ◌==◌, if◌then◌else◌, within,
}
use vec.Base.Outcome.{Outcome, done, ◌>>=◌}
use vec.Build.{Config}
use vec.Machine.{Mem, Sys}
use vec.Vec64.Raw.{RawVec}
use vec.Vec64.New.{new, with_capacity}
use vec.Vec64.Chunks.Contents.{read}

abbrev pub Item : Type 0
Item = List ℕ

abbrev pub byte_at : List ℕ → ℕ → ℕ
byte_at [] i = 0
byte_at (x ∷ xs) zero = x
byte_at (x ∷ xs) (suc i) = byte_at xs i

-- `ptr::write`
unfoldable pub put : ℕ → Item → Mem → Mem
put p xs m = record m {
  byte = λ a. if within p (length xs) a then byte_at xs (a - p) else m.byte a;
}

-- The `n` items from `p` on.
unfoldable pub items : ℕ → ℕ → ℕ → Mem → List Item
items elem p zero m = []
items elem p (suc n) m = read p elem m ∷ items elem (p + elem) n m

-- What an iterator will give, and its `size_hint`.
pub record Iterator : Type 0 where
  pub rest : List Item
  pub lower : ℕ
  pub upper : Option ℕ

abbrev pub hinted_capacity : ℕ → Option ℕ → ℕ
hinted_capacity lower none = lower
hinted_capacity lower (some exact) = exact

-- What `Vec::resize` adds: clones of the item, and the item itself at the end.
abbrev pub repeated : (Item → Item) → Item → ℕ → List Item
repeated clone x zero = []
repeated clone x (suc n) = replicate n (clone x) ++ (x ∷ [])

module _ (reserve : RawVec → ℕ → Mem → Outcome (RawVec × Mem)) (elem : ℕ) where
  -- `Vec::push`
  unfoldable pub push_item : RawVec → Item → Mem → Outcome (RawVec × Mem)
  push_item v x m = do
    (v1, m1) ← reserve v 1 m
    done (record v1 { len = v1.len + 1 }, put (v1.ptr + v1.len * elem) x m1)

  -- `Vec::extend`, item after item.
  unfoldable pub push_all : RawVec → List Item → Mem → Outcome (RawVec × Mem)
  push_all v [] m = done (v, m)
  push_all v (x ∷ xs) m = push_item v x m >>= (λ r. push_all r.0 xs r.1)

  -- `Vec::extend_from_slice`, by the `n` items from `src` on.
  pub extend_from_slice : (Item → Item) → RawVec → ℕ → ℕ → Mem → Outcome (RawVec × Mem)
  extend_from_slice clone v src n m = do
    (v1, m1) ← reserve v n m
    push_all v1 (map clone (items elem src n m1)) m1

  -- `Vec::resize`
  pub resize : (Item → Item) → RawVec → ℕ → Item → Mem → Outcome (RawVec × Mem)
  resize clone v n x m =
      if ltb v.len n
      then (do (v1, m1) ← reserve v (n - v.len) m; push_all v1 (repeated clone x (n - v.len)) m1)
      else done (record v { len = n }, m)

  module _ (dangling : ℕ) (c : Config) (s : Sys) (align : ℕ) where
    -- `from_slice_clone` and `From<&[T]>`
    pub from_slice_clone : (Item → Item) → ℕ → ℕ → Mem → Outcome (RawVec × Mem)
    from_slice_clone clone src n m = do
      (v, m1) ← with_capacity dangling c s elem align n m
      extend_from_slice clone v src n m1

    pub from_ref : (Item → Item) → ℕ → ℕ → Mem → Outcome (RawVec × Mem)
    from_ref clone src n m = do
      (v, m1) ← with_capacity dangling c s elem align n m
      extend_from_slice clone v src n m1

    -- `Clone`: what `Vec::clone` documents, by the items of the vector.
    pub clone_vec : (Item → Item) → RawVec → Mem → Outcome (RawVec × Mem)
    clone_vec clone v m = from_slice_clone clone v.ptr v.len m

    pub from_iter : Iterator → Mem → Outcome (RawVec × Mem)
    from_iter it m = do
      (v, m1) ← with_capacity dangling c s elem align (hinted_capacity it.lower it.upper) m
      push_all v it.rest m1

    -- `vec64![]`, `vec64![elem; n]` and `vec64![x, ...]`
    pub vec64_empty : Mem → Outcome (RawVec × Mem)
    vec64_empty m = done (new dangling c s elem align, m)

    pub vec64_repeat : (Item → Item) → Item → ℕ → Mem → Outcome (RawVec × Mem)
    vec64_repeat clone x n m = do
      (v, m1) ← with_capacity dangling c s elem align n m
      resize clone v n x m1

    pub vec64_list : List Item → Mem → Outcome (RawVec × Mem)
    vec64_list xs m = do
      (v, m1) ← with_capacity dangling c s elem align (length xs) m
      push_all v xs m1

-- `io::Write` for bytes: the result, and the vector and the memory afterwards.
module _ (reserve : RawVec → ℕ → Mem → Outcome (RawVec × Mem)) where
  pub write : RawVec → ℕ → ℕ → Mem → Outcome (ℕ × RawVec × Mem)
  unfolding extend_from_slice
  write v src n m = do (v1, m1) ← extend_from_slice reserve 1 (λ x. x) v src n m; done (n, v1, m1)

  pub write_all : RawVec → ℕ → ℕ → Mem → Outcome (RawVec × Mem)
  unfolding extend_from_slice
  write_all v src n m = extend_from_slice reserve 1 (λ x. x) v src n m

pub flush : RawVec → Mem → Outcome (RawVec × Mem)
flush v m = done (v, m)

-- `PartialEq`, by that of the items.
abbrev pub eq_lists : (Item → Item → Bool) → List Item → List Item → Bool
eq_lists eq_item [] [] = true
eq_lists eq_item (x ∷ xs) (y ∷ ys) = eq_item x y && eq_lists eq_item xs ys
eq_lists eq_item _ _ = false

pub eq : (Item → Item → Bool) → ℕ → RawVec → RawVec → Mem → Bool
unfolding items
eq eq_item elem v w m = eq_lists eq_item (items elem v.ptr v.len m) (items elem w.ptr w.len m)
