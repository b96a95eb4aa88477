-- ===== src/AppendOnlyVec/Exclusive.antt =====
-- `push` by a writer that is alone.
use vec.Base.{
  ℕ, zero, suc, ◌≤◌, ◌<◌, ◌≡◌, refl, Option, none, some, List, [], ◌∷◌, ◌++◌, length, set, arith,
  leb, ltb, ◌==◌, if◌then◌else◌, ap, ◌∙◌, get_elem?-set_ne, get_elem?-set_self, length-set, dec_lt,
  le→leb, lt→leb, lt→ltb, le→ltb, ==_iff, subst, ℕ_discrete,
}
use native.Mathlib.Numerals.{add-one}
use vec.AppendOnlyVec.{AppendOnlyVec, done, capacity, count, as_slice, raw_parts}
use vec.AppendOnlyVec.Push.{reserve, write_slot, publish}
use vec.AppendOnlyVec.Slice.{IsFilled, raw_parts_inv, done-inj, cons_done-inv}

module _ {ℓ} {A : Type ℓ} where
  -- `push` with no other writer about: the exchange succeeds, and the wait ends at once or never
  -- (`none`), since nobody else moves `published`.
  unfoldable pub push : AppendOnlyVec A → A → Option (Option ℕ × AppendOnlyVec A)
  push v value =
      let cur = v.reserved in
      if leb (capacity v) cur
      then some (none, v)
      else (if v.published == cur
          then some (some cur, publish (write_slot (reserve v cur) cur value) cur)
          else none)

  -- No push is under way: what is claimed is published.
  pub record IsQuiet (v : AppendOnlyVec A) : Type ℓ where
    pub settled : v.published ≡ v.reserved
    pub fits : v.reserved ≤ capacity v
    pub filled : IsFilled v.slots v.published

  raw_parts-set_last :
      (slots : List (Option A)) (n : ℕ) (a : A) (xs : List A)
      → n < length slots
      → raw_parts slots n ≡ done xs
      → raw_parts (set slots n (some a)) (suc n) ≡ done (xs ++ a ∷ [])
  unfolding raw_parts
  raw_parts-set_last [] n a xs h e = elim h [ ]
  raw_parts-set_last (s ∷ slots) zero a xs h e = rw (done-inj [] xs e)
  raw_parts-set_last (none ∷ slots) (suc n) a xs h e = cc
  raw_parts-set_last (some b ∷ slots) (suc n) a xs h e =
      let (ys, e', split) = cons_done-inv b (raw_parts slots n) xs e in
      rw (split, raw_parts-set_last slots n a ys (omega arith) e')

  -- What a lone `push` returns and leaves: the next index and the longer slice if there is room,
  -- and otherwise `None` and the same slice.
  pub record Pushed (v : AppendOnlyVec A) (a : A) (xs : List A) : Type ℓ where
    pub result : Option ℕ
    pub after : AppendOnlyVec A
    pub returns : push v a ≡ some (result, after)
    pub index_is : result ≡ (if ltb (count v) (capacity v) then some (length xs) else none)
    pub slice_is : as_slice after ≡ done (if ltb (count v) (capacity v) then xs ++ a ∷ [] else xs)
    pub room_is : capacity after ≡ capacity v
    pub quiet : IsQuiet after

  push-room :
      (v : AppendOnlyVec A) (a : A) (xs : List A)
      → IsQuiet v
      → as_slice v ≡ done xs
      → count v < capacity v
      → Pushed v a xs
  unfolding push as_slice
  push-room v a xs q e room = record {
    result = some v.reserved;
    after = publish (write_slot (reserve v v.reserved) v.reserved a) v.reserved;
    returns =
        rw (lt→leb (capacity v) v.reserved below, (==_iff v.published v.reserved).1 q.settled);
    index_is =
        rw (lt→ltb _ _ room) (ap some (omega (arith, (raw_parts_inv _ _ xs e).0, q.settled)));
    slice_is = rw (lt→ltb _ _ room, add-one) (raw_parts-set_last v.slots v.reserved a xs below at);
    room_is = length-set v.slots v.reserved (some a);
    quiet = record {
      settled = refl;
      fits = rw (length-set v.slots v.reserved (some a)) (omega arith);
      filled = λ k h. elim (ℕ_discrete v.reserved k) [
        | yes e ↦ (a, rw (← e) (get_elem?-set_self v.slots v.reserved (some a) below))
        | no ne ↦
            let (b, f) = q.filled k (omega (arith, q.settled)) in
            (b, get_elem?-set_ne v.slots v.reserved k (some a) ne ∙ f)
      ];
    };
  }
    where
      below : v.reserved < length v.slots
      below = omega (arith, q.settled)

      at : raw_parts v.slots v.reserved ≡ done xs
      at = subst (λ n. raw_parts v.slots n ≡ done xs) q.settled e

  push-no_room :
      (v : AppendOnlyVec A) (a : A) (xs : List A)
      → IsQuiet v
      → as_slice v ≡ done xs
      → capacity v ≤ count v
      → Pushed v a xs
  unfolding push as_slice
  push-no_room v a xs q e over = record {
    result = none;
    after = v;
    returns = rw (le→leb (capacity v) v.reserved (omega (arith, q.settled)));
    index_is = rw (le→ltb _ _ over);
    slice_is = rw (le→ltb _ _ over) e;
    room_is = refl;
    quiet = q;
  }

  -- A lone `push` always returns. If there is room it appends its value at the next index, and
  -- otherwise it returns `None` and changes nothing that a reader sees; either way the capacity
  -- stays and the vector is ready for the next `push`.
  pub push-Pushed :
      (v : AppendOnlyVec A) (a : A) (xs : List A) → IsQuiet v → as_slice v ≡ done xs → Pushed v a xs
  push-Pushed v a xs q e = elim (dec_lt (count v) (capacity v)) [
    | yes room ↦ push-room v a xs q e room
    | no over ↦ push-no_room v a xs q e (omega arith)
  ]
