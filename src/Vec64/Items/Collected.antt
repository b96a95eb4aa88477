-- ===== src/Vec64/Items/Collected.antt =====
-- New vectors of given items: `FromIterator`, the general forms of `vec64!`, `from_slice_clone` and `Clone`.
use vec.Base.{
  zero, suc, [], ◌∷◌, ◌++◌, ◌-◌, ltb, Bool-cases, inl, inr, ℕ, ◌+◌, ◌*◌, ◌^◌, ◌≤◌, ◌<◌, ◌≡◌, ◌≢◌,
  refl, ap, subst, within-add, List, map, length, replicate, true, within, arith,
}
use vec.Base.Outcome.{Outcome, ◌>>=◌}
use vec.Build.{Config, IsBuilt}
use vec.Machine.{free, Mem, Sys}
use vec.Machine.Effect.{IsSys}
use vec.Allocator.{IsLayout, Call}
use vec.Vec64.Raw.{RawVec}
use vec.Vec64.Held.{layout_of}
use vec.Vec64.New.{allocate_by, with_capacity}
use vec.Vec64.New.Correct.{Made, Making, with_capacity-Made}
use vec.Vec64.Items.{
  Item, Iterator, hinted_capacity, items, push_all, extend_from_slice, from_iter, from_slice_clone,
  from_ref, vec64_repeat, vec64_list, repeated, resize,
}
use vec.Vec64.Items.Extends.{Extends, Extends-refl}
use vec.Vec64.Items.Pushed.{Extending, IsReserve, Sized, flat, push_all-Extends}
use vec.Vec64.Items.Slices.{Foreign, items-eq, extend_from_slice-Extends}
use vec.Vec64.Items.Collecting.{
  Collected, Made-Extends, Collecting, Making-Collecting, Collecting-Making, Extending-Collecting,
}

module _ {c : Config} (b : IsBuilt c) {s : Sys} (sys : IsSys s) (small : sys.page_bits ≤ b.bits)
    (gigantic : sys.page_bits ≤ 30) (elem align : ℕ)
    (reserve : RawVec → ℕ → Mem → Outcome (RawVec × Mem)) (law : IsReserve c s elem align reserve)
    (dangling : ℕ) (m : Mem) (ok : s.Ok m) where
  -- The items are pushed to a new vector with room for `cap`.
  pushed :
      (call : Call) (cap : ℕ) (xs : List Item)
      → Sized elem xs
      → (v : RawVec) (m1 : Mem) → Made c s elem align m v m1 × (v.len ≡ 0) × (cap ≤ v.cap)
      → Collecting call cap
          (length xs)
          (Collected c s elem align (flat xs) (length xs) m)
          (push_all reserve elem v xs m1)
  pushed call cap xs sized v m1 got =
      Extending-Collecting call cap (length xs) v
        (Extends c s elem align v m1 (flat xs) (length xs)) _ (push_all reserve elem v xs m1)
        (λ v2 m2 ext. Made-Extends m v m1 (flat xs) (length xs) v2 m2 got.0 got.1 ext) got.1 got.2
        (push_all-Extends b sys elem align reserve law xs v m1 got.0.vec got.0.ok sized)

  module _ (cap : ℕ) (vl : IsLayout (layout_of elem align cap)) (word : cap < 2 ^ 64) where
    abbrev call : Call
    call = allocate_by c.mmap c s (layout_of elem align cap) m

    -- With a capacity of `cap` from the start, and the items `xs`.
    collect :
        (xs : List Item)
        → Sized elem xs
        → Collecting call cap (length xs) (Collected c s elem align (flat xs) (length xs) m) (
            with_capacity dangling c s elem align cap m >>= (λ r. push_all reserve elem r.0 xs r.1))
    collect xs sized =
        Making-Collecting call cap (length xs) _ (Collected c s elem align (flat xs) (length xs) m)
          (λ r. push_all reserve elem r.0 xs r.1) (with_capacity dangling c s elem align cap m)
          (pushed call cap xs sized)
          (with_capacity-Made b sys small gigantic dangling elem align m ok cap vl word)

    collect_all :
        (xs : List Item)
        → Sized elem xs
        → length xs ≡ cap
        → Making call (Collected c s elem align (flat xs) (length xs) m) (
            with_capacity dangling c s elem align cap m >>= (λ r. push_all reserve elem r.0 xs r.1))
    collect_all xs sized e =
        Collecting-Making call cap (length xs) (Collected c s elem align (flat xs) (length xs) m)
          (with_capacity dangling c s elem align cap m >>= (λ r. push_all reserve elem r.0 xs r.1))
          (omega (arith, e)) (collect xs sized)

    module _ (clone : Item → Item) (src : ℕ)
        (sized : (x : Item) → length x ≡ elem → length (clone x) ≡ elem)
        (owned : (a : ℕ) → within src (cap * elem) a ≡ true → m.owner a ≢ free) where
      abbrev cloned : List ℕ
      cloned = flat (map clone (items elem src cap m))

      extend_new :
          (v : RawVec) (m1 : Mem)
          → Made c s elem align m v m1 × (v.len ≡ 0) × (cap ≤ v.cap)
          → Collecting call cap cap
              (Collected c s elem align cloned cap m)
              (extend_from_slice reserve elem clone v src cap m1)
      extend_new v m1 (made, empty, room) =
          let same : items elem src cap m1 ≡ items elem src cap m =
            items-eq elem src cap m m1
              (λ i g. made.bytes (src + i) (owned (src + i) (within-add src (cap * elem) i g))) in
          let slice : Foreign c s elem align v src cap m1 = record {
            owned = λ a h. ground (arith, made.fresh a, made.owners a, owned a h);
            outside = λ a h. ground (arith, made.fresh a, owned a h);
          } in
          Extending-Collecting call cap cap v (Extends c s elem align v m1 cloned cap)
            (Collected c s elem align cloned cap m)
            (extend_from_slice reserve elem clone v src cap m1)
            (λ v2 m2 ext. Made-Extends m v m1 cloned cap v2 m2 made empty ext) empty room
            (subst
              (λ xs.
                Extending v cap (Extends c s elem align v m1 (flat (map clone xs)) cap)
                  (extend_from_slice reserve elem clone v src cap m1))
              same
              (extend_from_slice-Extends b sys elem align reserve law clone sized v src cap m1
                made.vec made.ok slice))

      slice_clones : Making call (Collected c s elem align cloned cap m) (
          with_capacity dangling c s elem align cap m
          >>= (λ r. extend_from_slice reserve elem clone r.0 src cap r.1))
      slice_clones =
          Collecting-Making call cap cap (Collected c s elem align cloned cap m)
            (with_capacity dangling c s elem align cap m
              >>= (λ r. extend_from_slice reserve elem clone r.0 src cap r.1))
            (omega arith)
            (Making-Collecting call cap cap _ (Collected c s elem align cloned cap m)
              (λ r. extend_from_slice reserve elem clone r.0 src cap r.1)
              (with_capacity dangling c s elem align cap m) extend_new
              (with_capacity-Made b sys small gigantic dangling elem align m ok cap vl word))

      -- `from_slice_clone` and `From<&[T]>` make a new vector of the clones of the items of the slice, in order, and change
      -- nothing else in memory. They panic only where the allocator reports that it is out of memory. The slice belongs to
      -- somebody, a clone has the size of an item, the size of the whole is one that `Layout::array` accepts, and
      -- `Vec::reserve` keeps its promise.
      pub from_slice_clone-Collected :
          Making call
            (Collected c s elem align cloned cap m)
            (from_slice_clone reserve elem dangling c s align clone src cap m)
          × Making call
              (Collected c s elem align cloned cap m)
              (from_ref reserve elem dangling c s align clone src cap m)
      unfolding from_slice_clone from_ref
      from_slice_clone-Collected = (slice_clones, slice_clones)

  -- `from_iter` makes a new vector of the items of the iterator, in order, and changes nothing else in memory. It panics only where the
  -- allocator reports that it is out of memory for the capacity that `size_hint` names, or where that capacity is too small for
  -- the items. The items have the size of an element, that capacity is one that `Layout::array` accepts, and `Vec::reserve`
  -- keeps its promise.
  pub from_iter-Collected :
      (it : Iterator)
      → Sized elem it.rest
      → IsLayout (layout_of elem align (hinted_capacity it.lower it.upper))
      → hinted_capacity it.lower it.upper < 2 ^ 64
      → Collecting
          (allocate_by c.mmap c s (layout_of elem align (hinted_capacity it.lower it.upper)) m)
          (hinted_capacity it.lower it.upper)
          (length it.rest)
          (Collected c s elem align (flat it.rest) (length it.rest) m)
          (from_iter reserve elem dangling c s align it m)
  unfolding from_iter
  from_iter-Collected it sized vl word =
      collect (hinted_capacity it.lower it.upper) vl word it.rest sized

  module _ (clone : Item → Item) (x : Item) (n : ℕ) (one : length x ≡ elem)
      (sized : length (clone x) ≡ elem) where
    abbrev copies : List Item
    copies = repeated clone x n

    clones-Sized : (k : ℕ) → Sized elem (replicate k (clone x) ++ (x ∷ []))
    clones-Sized zero = (one, tt)
    clones-Sized (suc k) = (sized, clones-Sized k)

    repeated-Sized : (k : ℕ) → Sized elem (repeated clone x k)
    repeated-Sized zero = tt
    repeated-Sized (suc k) = clones-Sized k

    length-clones : (k : ℕ) → length (replicate k (clone x) ++ (x ∷ [])) ≡ suc k
    length-clones zero = refl
    length-clones (suc k) = ap suc (length-clones k)

    length-repeated : (k : ℕ) → length (repeated clone x k) ≡ k
    length-repeated zero = refl
    length-repeated (suc k) = length-clones k

    resized :
        (v : RawVec) (m1 : Mem)
        → Made c s elem align m v m1 × (v.len ≡ 0) × (n ≤ v.cap)
        → Collecting
            (allocate_by c.mmap c s (layout_of elem align n) m)
            n
            n
            (Collected c s elem align (flat copies) n m)
            (resize reserve elem clone v n x m1)
    unfolding resize
    resized v m1 (made, empty, room) = elim (Bool-cases (ltb v.len n)) [
      | inl more ↦
          rw (more, all, law.enough v n m1 fits)
            (subst
              (λ k.
                Collecting call n k (Collected c s elem align (flat copies) k m)
                  (push_all reserve elem v copies m1))
              (length-repeated n)
              (pushed call n copies (repeated-Sized n) v m1 (made, empty, room)))
      | inr stop ↦ rw stop (
          subst
            (λ k.
              Collected c s elem align (flat (repeated clone x k)) k m (record v { len = k }) m1)
            (ground (arith, stop))
            (subst (λ k. Collected c s elem align [] 0 m (record v { len = k }) m1) empty
              (Made-Extends m v m1 [] 0 v m1 made empty (Extends-refl v m1 made.vec made.ok))))
    ]
      where
        call : Call
        call = allocate_by c.mmap c s (layout_of elem align n) m

        all : n - v.len ≡ n
        all = omega (arith, empty)

        fits : v.len + n ≤ v.cap
        fits = omega (arith, empty, room)

  -- `vec64![x, ...]` makes a new vector of the items listed, in order, and `vec64![elem; n]` one of `n` items, of which the last is
  -- `elem` and the others are clones of it; nothing else in memory changes. They panic only where the allocator reports that it is out of
  -- memory. The items and a clone of `elem` have the size of an element, the sizes of the wholes are ones that `Layout::array` accepts,
  -- and `Vec::reserve` keeps its promise.
  pub vec64-Collected :
      (xs : List Item) (clone : Item → Item) (x : Item) (n : ℕ)
      → Sized elem xs
      → length x ≡ elem
      → length (clone x) ≡ elem
      → IsLayout (layout_of elem align (length xs))
      → length xs < 2 ^ 64
      → IsLayout (layout_of elem align n)
      → n < 2 ^ 64
      → Making
          (allocate_by c.mmap c s (layout_of elem align (length xs)) m)
          (Collected c s elem align (flat xs) (length xs) m)
          (vec64_list reserve elem dangling c s align xs m)
        × Making
            (allocate_by c.mmap c s (layout_of elem align n) m)
            (Collected c s elem align (flat (repeated clone x n)) n m)
            (vec64_repeat reserve elem dangling c s align clone x n m)
  unfolding vec64_list vec64_repeat
  vec64-Collected xs clone x n sized one cloned vl word vn wn = (
    collect_all (length xs) vl word xs sized refl,
    Collecting-Making _ n n (Collected c s elem align (flat (copies clone x n one cloned)) n m) _
        (omega arith)
        (Making-Collecting _ n n _
          (Collected c s elem align (flat (copies clone x n one cloned)) n m)
          (λ r. resize reserve elem clone r.0 n x r.1) (with_capacity dangling c s elem align n m)
          (resized clone x n one cloned)
          (with_capacity-Made b sys small gigantic dangling elem align m ok n vn wn)),
  )
