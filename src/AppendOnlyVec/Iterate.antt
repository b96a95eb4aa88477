-- ===== src/AppendOnlyVec/Iterate.antt =====
-- Reading, editing and dropping what is published.
use vec.Base.{
  ℕ, zero, suc, ◌+◌, ◌≤◌, ◌≡◌, refl, Option, none, some, List, [], ◌∷◌, map, length, get_elem?,
  arith, ap, sym, ◌∙◌, get_elem?_ge, dec_lt, le→leb, lt→leb, length-map,
}
use native.Mathlib.Nat.{add-zero}
use vec.AppendOnlyVec.{
  AppendOnlyVec, done, Iter, count, as_slice, get, iter, next, iter_mut, as_mut_slice, drop_vec,
  drop_loop, raw_parts, assume_init, write_back,
}
use vec.AppendOnlyVec.Slice.{raw_parts_inv, done-inj, cons_done-inv}

module _ {ℓ} {A : Type ℓ} where
  -- `get` reads the slice that `as_slice` returns, and is `None` past its end.
  pub get-as_slice :
      (v : AppendOnlyVec A) (xs : List A) (k : ℕ)
      → as_slice v ≡ done xs
      → get v k ≡ done (get_elem? xs k)
  unfolding get as_slice assume_init
  get-as_slice v xs k e = elim (dec_lt k v.published) [
    | yes h ↦
        let (l, at) = raw_parts_inv v.slots v.published xs e in
        let (a, p, q) = at k h in rw (lt→leb v.published k h, p, q)
    | no h ↦
        let (l, at) = raw_parts_inv v.slots v.published xs e in
        rw (le→leb v.published k (omega arith), get_elem?_ge xs k (omega arith))
  ]

  abbrev pub enumerate : ℕ → List A → List (ℕ × A)
  enumerate i [] = []
  enumerate i (x ∷ xs) = (i, x) ∷ enumerate (i + 1) xs

  abbrev pub cons_some : ℕ × A → Option (List (ℕ × A)) → Option (List (ℕ × A))
  cons_some p none = none
  cons_some p (some ps) = some (p ∷ ps)

  abbrev pub collect_then : Option (ℕ × A) → Option (List (ℕ × A)) → Option (List (ℕ × A))
  collect_then none rest = some []
  collect_then (some p) rest = cons_some p rest

  -- Call `next` until it returns `None`, at most `fuel` times; `none` if it has not.
  pub collect : ℕ → Iter A → Option (List (ℕ × A))
  collect zero it = none
  collect (suc fuel) it = let (o, it') = next it in collect_then o (collect fuel it')

  -- The iterator at `i` yields the elements `xs` that are left.
  collect-enumerate :
      (xs slice : List A) (i : ℕ)
      → length slice ≡ i + length xs
      → ((k : ℕ) → get_elem? slice (i + k) ≡ get_elem? xs k)
      → collect (suc (length xs)) (record { slice = slice; idx = i }) ≡ some (enumerate i xs)
  unfolding collect next
  collect-enumerate [] slice i l h = rw (le→leb (length slice) i (omega arith))
  collect-enumerate (x ∷ xs) slice i l h =
      let at : get_elem? slice i ≡ some x = ap (get_elem? slice) (sym (add-zero i)) ∙ h 0 in
      let rest =
        collect-enumerate xs slice (i + 1) (omega arith)
          (λ k. ap (get_elem? slice) (omega arith) ∙ h (suc k)) in
      rw (lt→leb (length slice) i (omega arith), at, rest)

  -- `iter` yields every published element once, in order, with its index, and then ends.
  pub iter-enumerate :
      (v : AppendOnlyVec A) (xs : List A)
      → as_slice v ≡ done xs
      → (it : Iter A) × (iter v ≡ done it) × (collect (suc (length xs)) it ≡ some (enumerate 0 xs))
  unfolding iter
  iter-enumerate v xs e = (
    record { slice = xs; idx = 0 },
    rw e,
    collect-enumerate xs xs 0 (omega arith) (λ k. ap (get_elem? xs) (omega arith)),
  )

  raw_parts-write_back :
      (slots : List (Option A)) (n : ℕ) (xs : List A) (f : A → A)
      → raw_parts slots n ≡ done xs
      → raw_parts (write_back slots (map f xs)) n ≡ done (map f xs)
  unfolding raw_parts write_back
  raw_parts-write_back slots zero xs f e = rw (done-inj [] xs e)
  raw_parts-write_back [] (suc n) xs f e = cc
  raw_parts-write_back (none ∷ slots) (suc n) xs f e = cc
  raw_parts-write_back (some b ∷ slots) (suc n) xs f e =
      let (ys, e', split) = cons_done-inv b (raw_parts slots n) xs e in
      rw (split, raw_parts-write_back slots n ys f e')

  get_elem?-write_back :
      (slots : List (Option A)) (ys : List A) (k : ℕ)
      → length ys ≤ k
      → get_elem? (write_back slots ys) k ≡ get_elem? slots k
  unfolding write_back
  get_elem?-write_back slots [] k h = refl
  get_elem?-write_back [] (y ∷ ys) k h = refl
  get_elem?-write_back (s ∷ slots) (y ∷ ys) zero h = elim h [ ]
  get_elem?-write_back (s ∷ slots) (y ∷ ys) (suc k) h =
      get_elem?-write_back slots ys k (omega arith)

  -- Editing through `iter_mut` replaces each published element by its image, and leaves the
  -- counters and the slots past them alone.
  pub iter_mut_lem :
      (v : AppendOnlyVec A) (f : A → A) (xs : List A)
      → as_slice v ≡ done xs
      → (v' : AppendOnlyVec A) × (iter_mut v f ≡ done v')
        × (as_slice v' ≡ done (map f xs))
        × (v'.reserved ≡ v.reserved)
        × ((k : ℕ) → count v ≤ k → get_elem? v'.slots k ≡ get_elem? v.slots k)
  unfolding iter_mut as_mut_slice as_slice
  iter_mut_lem v f xs e = (
    record v { slots = write_back v.slots (map f xs) },
    rw e,
    raw_parts-write_back v.slots v.published xs f e,
    refl,
    λ k h.
        get_elem?-write_back v.slots (map f xs) k
          (omega (arith, length-map xs f, (raw_parts_inv v.slots v.published xs e).0)),
  )

  drop_loop-raw_parts :
      (rest slots : List (Option A)) (i n : ℕ) (xs : List A)
      → ((k : ℕ) → get_elem? slots (i + k) ≡ get_elem? rest k)
      → raw_parts rest n ≡ done xs
      → drop_loop slots i n ≡ done xs
  unfolding drop_loop raw_parts assume_init
  drop_loop-raw_parts rest slots i zero xs h e = rw (done-inj [] xs e)
  drop_loop-raw_parts [] slots i (suc n) xs h e = cc
  drop_loop-raw_parts (none ∷ rest) slots i (suc n) xs h e = cc
  drop_loop-raw_parts (some a ∷ rest) slots i (suc n) xs h e =
      let (ys, e', split) = cons_done-inv a (raw_parts rest n) xs e in
      let at : get_elem? slots i ≡ some (some a) = ap (get_elem? slots) (sym (add-zero i)) ∙ h 0 in
      let more =
        drop_loop-raw_parts rest slots (i + 1) n ys
          (λ k. ap (get_elem? slots) (omega arith) ∙ h (suc k)) e' in
      rw (at, split, more)

  -- Dropping the vector runs the destructor of every published element once, in order, and of
  -- nothing else.
  pub drop_vec-as_slice :
      (v : AppendOnlyVec A) (xs : List A) → as_slice v ≡ done xs → drop_vec v ≡ done xs
  unfolding drop_vec as_slice
  drop_vec-as_slice v xs e =
      drop_loop-raw_parts v.slots v.slots 0 v.published xs
        (λ k. ap (get_elem? v.slots) (omega arith)) e
