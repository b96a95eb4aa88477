-- ===== src/Vec64/Items/Cloned.antt =====
-- `Clone` gives a vector that `PartialEq` finds equal.
use vec.Base.{
  ℕ, ◌+◌, ◌*◌, ◌^◌, ◌≤◌, ◌<◌, ◌≡◌, refl, sym, ap, ap₂, ◌∙◌, List, [], ◌∷◌, ◌++◌, map, take, drop,
  length, Bool, true, false, within, arith,
}
use vec.Base.Outcome.{Outcome}
use vec.Build.{Config, IsBuilt}
use vec.Machine.{Mem, Sys}
use vec.Machine.Effect.{IsSys}
use vec.Allocator.{IsLayout}
use vec.Vec64.Raw.{RawVec}
use vec.Vec64.Held.{layout_of, IsVec, extent, cap-extent, cap-owned, extent-owned}
use vec.Vec64.New.{allocate_by}
use vec.Vec64.New.Correct.{Making, Making-map}
use vec.Vec64.Chunks.Contents.{contents, read-eq}
use vec.Vec64.Items.{Item, items, clone_vec, eq_lists, eq}
use vec.Vec64.Items.Pushed.{IsReserve, Sized, flat}
use vec.Vec64.Items.Slices.{items-Sized, length-items, flat-items, map-Sized, length-map, items-eq}
use vec.Vec64.Items.Collecting.{Collected}
use vec.Vec64.Items.Collected.{from_slice_clone-Collected}
use vec.Vec64.Splice.Kept.{within-sub}
use native.Mathlib.Nat.{mul-le-mul_right}

take-append : (xs ys : List ℕ) → take (length xs) (xs ++ ys) ≡ xs
take-append [] ys = refl
take-append (x ∷ xs) ys = ap (λ t. x ∷ t) (take-append xs ys)

drop-append : (xs ys : List ℕ) → drop (length xs) (xs ++ ys) ≡ ys
drop-append [] ys = refl
drop-append (x ∷ xs) ys = drop-append xs ys

-- Items of one size with the same bytes are the same items.
pub flat-injective :
    (elem : ℕ) (xs ys : List Item)
    → Sized elem xs
    → Sized elem ys
    → length xs ≡ length ys
    → flat xs ≡ flat ys
    → xs ≡ ys
flat-injective elem [] [] sx sy l e = refl
flat-injective elem [] (y ∷ ys) sx sy l e = absurd (omega (arith, l))
flat-injective elem (x ∷ xs) [] sx sy l e = absurd (omega (arith, l))
flat-injective elem (x ∷ xs) (y ∷ ys) (one, sx) (two, sy) l e =
    let same : length x ≡ length y = one ∙ sym two in
    ap₂ (λ z zs. z ∷ zs) (sym (take-append x (flat xs)) ∙ ap₂ take same e ∙ take-append y (flat ys))
      (flat-injective elem xs ys sx sy (omega (arith, l))
        (sym (drop-append x (flat xs)) ∙ ap₂ drop same e ∙ drop-append y (flat ys)))

-- What a clone is: a vector of its own, equal to the old one, which is untouched.
abbrev pub IsClone :
    (Item → Item → Bool) → Config → Sys → (elem align : ℕ) → RawVec → Mem → RawVec → Mem → Type 0
IsClone eq_item c s elem align v m v1 m1 =
    (eq eq_item elem v1 v m1 ≡ true)
    × (contents elem v m1 ≡ contents elem v m)
    × IsVec c s elem align v1 m1
    × IsVec c s elem align v m1
    × ((a : ℕ)
        → within v1.ptr (extent c s elem align v1) a ≡ true
        → within v.ptr (extent c s elem align v) a ≡ false)

module _ (eq_item : Item → Item → Bool) (clone : Item → Item)
    (same : (x : Item) → eq_item (clone x) x ≡ true) where
  eq_lists-clone : (xs : List Item) → eq_lists eq_item (map clone xs) xs ≡ true
  eq_lists-clone [] = refl
  eq_lists-clone (x ∷ xs) = rw (same x) (eq_lists-clone xs)

  module _ {c : Config} (b : IsBuilt c) {s : Sys} (sys : IsSys s) (small : sys.page_bits ≤ b.bits)
      (gigantic : sys.page_bits ≤ 30) (elem align : ℕ)
      (reserve : RawVec → ℕ → Mem → Outcome (RawVec × Mem)) (law : IsReserve c s elem align reserve)
      (dangling : ℕ) (v : RawVec) (m : Mem) (ok : s.Ok m) (vv : IsVec c s elem align v m)
      (sized : (x : Item) → length x ≡ elem → length (clone x) ≡ elem)
      (vl : IsLayout (layout_of elem align v.len)) (word : v.len < 2 ^ 64) where
    len_bytes : v.len * elem ≤ v.cap * elem
    len_bytes = mul-le-mul_right elem vv.in_cap

    module _ (v1 : RawVec) (m1 : Mem)
        (col : Collected c s elem align
          (flat (map clone (items elem v.ptr v.len m)))
          v.len
          m
          v1
          m1) where
      untouched : (i : ℕ) → i < v.len * elem → m1.byte (v.ptr + i) ≡ m.byte (v.ptr + i)
      untouched i h = col.kept (v.ptr + i) (cap-owned b sys vv i (omega (arith, len_bytes)))

      cloned_items : items elem v1.ptr v1.len m1 ≡ map clone (items elem v.ptr v.len m)
      cloned_items =
          flat-injective elem _ _ (items-Sized elem v1.ptr v1.len m1)
            (map-Sized elem clone sized _ (items-Sized elem v.ptr v.len m))
            (length-items elem v1.ptr v1.len m1
              ∙ col.len
              ∙ sym (length-map clone _ ∙ length-items elem v.ptr v.len m))
            (flat-items elem v1.ptr v1.len m1 ∙ col.bytes)

      cloned-IsClone : IsClone eq_item c s elem align v m v1 m1
      unfolding eq
      cloned-IsClone = (
        rw (cloned_items, items-eq elem v.ptr v.len m m1 untouched)
            (eq_lists-clone (items elem v.ptr v.len m)),
        read-eq v.ptr v.ptr (v.len * elem) m m1 untouched,
        col.vec,
        record {
          is_layout = vv.is_layout;
          in_cap = vv.in_cap;
          held =
              λ pos. col.others v.ptr (layout_of elem align v.cap) pos vv.is_layout (vv.held pos);
        },
        λ a h. ground (arith, col.fresh a h, extent-owned b sys vv a),
      )

    -- A clone of a vector is a vector of its own, without a byte in common with the old one, and `==` finds the two equal; the old vector
    -- still holds its block and its elements. Cloning panics only where the allocator reports that it is out of memory. An item
    -- equals its clone, which has its size; the size of the elements is one that `Layout::array` accepts, and
    -- `Vec::reserve` keeps its promise.
    pub clone_vec-eq :
        Making
          (allocate_by c.mmap c s (layout_of elem align v.len) m)
          (IsClone eq_item c s elem align v m)
          (clone_vec reserve elem dangling c s align clone v m)
    unfolding clone_vec
    clone_vec-eq =
        Making-map _ _ (IsClone eq_item c s elem align v m) _ cloned-IsClone
          (from_slice_clone-Collected b sys small gigantic elem align reserve law dangling m ok
            v.len vl word clone v.ptr sized
            (λ a h. extent-owned b sys vv a (
              within-sub v.ptr (extent c s elem align v) v.ptr (v.len * elem) a (omega arith)
                (omega (arith, len_bytes, cap-extent b sys vv)) h))).0
