-- ===== src/Alloc64/Replace.antt =====
-- `grow_zeroed`, which takes a new block, copies, and frees the old one.
use vec.Base.{
  ℕ, ◌+◌, ◌-◌, ◌≤◌, ◌<◌, ◌≡◌, ◌≢◌, inl, ◌∙◌, none, true, false, within, within-add, arith, ◌==◌,
  if◌then◌else◌,
}
use vec.Machine.{free, Layout, Mem, copy}
use vec.Machine.Effect.{Dropped, Zeros}
use vec.Allocator.{Allocated, Resized, ZeroedPast}
use vec.Alloc64.Heap.{HeapBlock, heap_holding, stays_held, not_eq}

pub add_sub_lem : (q i : ℕ) → q + i - q ≡ i
add_sub_lem q i = omega arith

pub within-past : (q n i : ℕ) → n ≤ i → within q n (q + i) ≡ false
unfolding within
within-past q n i h = ground arith

pub within-shorter : (q k n a : ℕ) → k ≤ n → within q n a ≡ false → within q k a ≡ false
unfolding within
within-shorter q k n a le h = ground arith

pub within-longer : (q k n a : ℕ) → k ≤ n → within q k a ≡ true → within q n a ≡ true
unfolding within
within-longer q k n a le h = ground arith

module _ {m m2 : Mem} {p q n : ℕ} {old new : Layout} (held : HeapBlock m p old)
    (got : Allocated heap_holding m m2 new q n) where
  pub apart : (a : ℕ) → within q new.size a ≡ true → within p old.size a ≡ false
  apart a h = ground (arith, got.fresh a h, held.bytes_held a)

  pub not_same : 0 < old.size → old.size ≤ new.size → (q == p) ≡ false
  unfolding within
  not_same pos le = ground (arith, got.fresh p, held.bytes_held p)

  -- The copied bytes, and the bytes after them.
  copied : (i : ℕ) → i < old.size → (copy p q old.size m2).byte (q + i) ≡ m.byte (p + i)
  copied i h =
      rw (within-add q old.size i h, add_sub_lem q i)
        (got.bytes (p + i) (ground (arith, held.bytes_held (p + i), within-add p old.size i h)))

  after : (i : ℕ) → old.size ≤ i → (copy p q old.size m2).byte (q + i) ≡ m2.byte (q + i)
  after i h = rw (within-past q old.size i h)

  module _ {m4 : Mem} (gone : Dropped (copy p q old.size m2) m4 p old.size) where
    survives : (i : ℕ) → i < new.size → m4.byte (q + i) ≡ (copy p q old.size m2).byte (q + i)
    survives i h =
        let inside = within-add q new.size i h in
        gone.byte (q + i) (ground (arith, got.held.bytes_held (q + i))) (apart (q + i) inside)

    pub Replaced-Resized :
        0 < old.size
        → old.size ≤ new.size
        → ((r : ℕ) → m4.block r ≡ (if r == p then none else m2.block r))
        → Resized heap_holding m m4 p old q new n old.size
    Replaced-Resized pos le blocks = record {
      aligned = got.aligned;
      enough = got.enough;
      within_extent = got.within_extent;
      held = record {
        at = blocks q ∙ rw (not_same pos le) got.held.at;
        bytes_held = λ a h. gone.owner a ∙ rw (apart a h) (got.held.bytes_held a h);
      };
      kept = λ i h. survives i (omega arith) ∙ copied i h;
      released = λ a h g. gone.owner a ∙ rw h;
      owners = λ a h g. gone.owner a ∙ rw h (got.owners a g);
      disjoint = λ a h. inl (got.fresh a h);
      bytes = λ a h g. gone.byte a (stays a h g) g ∙ untouched a h g;
      others = λ r b big ne apart h.
          let still = got.others r b big h in
          stays_held r b (blocks r ∙ rw (not_eq ne)) (λ a g. gone.owner a ∙ rw (apart a g)) still;
    }
      where
        stays : (a : ℕ) → m.owner a ≢ free → within p old.size a ≡ false → m2.owner a ≢ free
        stays a h g = ground (arith, got.owners a, got.fresh a)

        untouched :
            (a : ℕ)
            → m.owner a ≢ free
            → within p old.size a ≡ false
            → (copy p q old.size m2).byte a ≡ m.byte a
        untouched a h g =
            rw (within-shorter q old.size new.size a le (ground (arith, got.fresh a)))
              (got.bytes a h)

    pub Replaced-Zeroed :
        old.size ≤ new.size → Zeros m2 q n → ZeroedPast m m4 p old.size old.size q n
    Replaced-Zeroed le z i h g = inl (
        survives i (ground (arith, got.within_extent)) ∙ after i h ∙ z (q + i) (within-add q n i g))
