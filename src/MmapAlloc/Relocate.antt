-- ===== src/MmapAlloc/Relocate.antt =====
-- A block that moves: a new block is had, the bytes are copied, the old block is released.
use vec.Base.{ℕ, ◌+◌, ◌≤◌, ◌<◌, ◌≡◌, ◌≢◌, inl, subst, ◌∙◌, true, false, within, within-add, arith}
use vec.Build.{Config}
use vec.Machine.{free, Layout, Mem, Sys, copy}
use vec.Machine.Effect.{Dropped, Zeros}
use vec.Allocator.{Allocated, Resized}
use vec.Alloc64.Heap.{within_start}
use vec.Alloc64.Replace.{add_sub_lem, within-past, within-shorter}
use vec.MmapAlloc.Hybrid.{hybrid, held-owned, still_held}

module _ (c : Config) (s : Sys) where
  abbrev extent : Layout → ℕ
  extent l = (hybrid c s).extent l

  module _ {m m2 m4 : Mem} {p q n : ℕ} (k : ℕ) (old new : Layout)
      (held : (hybrid c s).Holds m p old) (got : Allocated (hybrid c s) m m2 new q n)
      (gone : Dropped (copy p q k m2) m4 p (extent old)) where
    apart : (a : ℕ) → within q (extent new) a ≡ true → within p (extent old) a ≡ false
    apart a h = ground (arith, got.fresh a h, held-owned c s m p old a held)

    survives : (i : ℕ) → i < extent new → m4.byte (q + i) ≡ (copy p q k m2).byte (q + i)
    survives i h =
        let inside = within-add q (extent new) i h in
        gone.byte (q + i) (held-owned c s m2 q new (q + i) got.held inside) (apart (q + i) inside)

    -- The old bytes are at the start of the new block.
    copied : (i : ℕ) → i < k → k ≤ extent old → (copy p q k m2).byte (q + i) ≡ m.byte (p + i)
    copied i h le =
        rw (within-add q k i h, add_sub_lem q i)
          (got.bytes (p + i)
            (held-owned c s m p old (p + i) held (within-add p (extent old) i (omega arith))))

    -- The start of the old block is not the start of the new one.
    new_start : 0 < extent old → 0 < extent new → q ≢ p
    new_start pos pos' e =
        got_nowhere (held-owned c s m p old p held (within_start p (extent old) pos))
          (got.fresh p (at_start e))
      where
        got_nowhere : m.owner p ≢ free → m.owner p ≡ free → ⊥
        got_nowhere h g = h g

        at_start : q ≡ p → within q (extent new) p ≡ true
        at_start e =
            subst (λ x. within q (extent new) x ≡ true) e (within_start q (extent new) pos')

    pub Relocated-Resized :
        0 < extent old
        → 0 < extent new
        → k ≤ extent old
        → k ≤ extent new
        → ((r : ℕ) → r ≢ p → m4.block r ≡ m2.block r)
        → Resized (hybrid c s) m m4 p old q new n k
    Relocated-Resized pos pos' le le' blocks = record {
      aligned = got.aligned;
      enough = got.enough;
      within_extent = got.within_extent;
      held =
          still_held c s m2 m4 q new (λ e. blocks q (new_start pos pos'))
            (λ a h. gone.owner a ∙ rw (apart a h)) got.held;
      kept = λ i h. survives i (omega arith) ∙ copied i h le;
      released = λ a h g. gone.owner a ∙ rw h;
      owners = λ a h g. gone.owner a ∙ rw h (got.owners a g);
      disjoint = λ a h. inl (got.fresh a h);
      bytes = λ a h g. gone.byte a (stays a h) g ∙ untouched a h;
      others = λ r x big ne away h.
          still_held c s m2 m4 r x (λ e. blocks r ne) (λ a g. gone.owner a ∙ rw (away a g))
            (got.others r x big h);
    }
      where
        stays : (a : ℕ) → m.owner a ≢ free → m2.owner a ≢ free
        stays a h = ground (arith, got.owners a, got.fresh a)

        untouched : (a : ℕ) → m.owner a ≢ free → (copy p q k m2).byte a ≡ m.byte a
        untouched a h =
            rw (within-shorter q k (extent new) a le' (ground (arith, got.fresh a))) (got.bytes a h)

    -- What the new block holds past the copy, it holds from its own beginning.
    pub Relocated-Zeros :
        n ≤ extent new → Zeros m2 q n → (i : ℕ) → k ≤ i → i < n → m4.byte (q + i) ≡ 0
    Relocated-Zeros fits z i h g =
        survives i (omega arith) ∙ (rw (within-past q k i h)) ∙ z (q + i) (within-add q n i g)
