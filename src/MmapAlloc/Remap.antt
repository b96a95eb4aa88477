-- ===== src/MmapAlloc/Remap.antt =====
-- A mapping that the kernel moves or extends, and calls before and after that change nothing.
use vec.Base.{
  ℕ, ◌+◌, ◌%◌, ◌≤◌, ◌<◌, ◌≡◌, ◌≢◌, ◌⊎◌, inl, inr, ◌∙◌, true, false, within, within-add, arith,
}
use vec.Build.{Config}
use vec.PageSize.{uses_mmap, mapped_size}
use vec.Machine.{free, Layout, Mem, Sys}
use vec.Machine.Effect.{Unchanged, Remapped}
use vec.Allocator.{Resized, ZeroedPast}
use vec.MmapAlloc.Hybrid.{hybrid, held-owned, still_held}

-- What both `grow` and `grow_zeroed` promise on the paths with a mapping.
abbrev pub Grown : Config → Sys → Mem → ℕ → Layout → Layout → ℕ → ℕ → Mem → Type 0
Grown c s m p old new q n m1 =
    Resized (hybrid c s) m m1 p old q new n old.size
    × ZeroedPast m m1 p old.size ((hybrid c s).extent old) q n

module _ (c : Config) (s : Sys) where
  abbrev extent : Layout → ℕ
  extent l = (hybrid c s).extent l

  module _ {m m1 m2 : Mem} (p q n k : ℕ) (old new : Layout) (held : (hybrid c s).Holds m p old)
      (re : Resized (hybrid c s) m m1 p old q new n k) (un : Unchanged m1 m2) where
    stays : (a : ℕ) → m.owner a ≢ free → within p (extent old) a ≡ false → m1.owner a ≢ free
    stays a h g = ground (arith, re.owners a, re.disjoint a)

    taken : (i : ℕ) → i < extent new → m2.byte (q + i) ≡ m1.byte (q + i)
    taken i h =
        un.byte (q + i) (held-owned c s m1 q new (q + i) re.held (within-add q (extent new) i h))

    pub Resized-after : k ≤ n → Resized (hybrid c s) m m2 p old q new n k
    Resized-after le = record {
      aligned = re.aligned;
      enough = re.enough;
      within_extent = re.within_extent;
      held = still_held c s m1 m2 q new (λ e. un.block q) (λ a h. un.owner a) re.held;
      kept = λ i h. taken i (omega (arith, re.within_extent)) ∙ re.kept i h;
      released = λ a h g. un.owner a ∙ re.released a h g;
      owners = λ a h g. un.owner a ∙ re.owners a h g;
      disjoint = re.disjoint;
      bytes = λ a h g. un.byte a (stays a h g) ∙ re.bytes a h g;
      others = λ r x big ne away h.
          still_held c s m1 m2 r x (λ e. un.block r) (λ a g. un.owner a)
            (re.others r x big ne away h);
    }

    pub ZeroedPast-after :
        ZeroedPast m m1 p k (extent old) q n → ZeroedPast m m2 p k (extent old) q n
    ZeroedPast-after z i h g = go (z i h g)
      where
        same : m2.byte (q + i) ≡ m1.byte (q + i)
        same = taken i (omega (arith, re.within_extent))

        go :
            (m1.byte (q + i) ≡ 0) ⊎ ((i < extent old) × (m1.byte (q + i) ≡ m.byte (p + i)))
            → (m2.byte (q + i) ≡ 0) ⊎ ((i < extent old) × (m2.byte (q + i) ≡ m.byte (p + i)))
        go (inl e) = inl (same ∙ e)
        go (inr (lt, e)) = inr (lt, same ∙ e)

  module _ {m m1 m2 : Mem} (p q n k : ℕ) (old new : Layout) (held : (hybrid c s).Holds m p old)
      (un : Unchanged m m1) (re : Resized (hybrid c s) m1 m2 p old q new n k) where
    pub Resized-before : k ≤ extent old → Resized (hybrid c s) m m2 p old q new n k
    Resized-before le = record {
      aligned = re.aligned;
      enough = re.enough;
      within_extent = re.within_extent;
      held = re.held;
      kept = λ i h.
          re.kept i h
          ∙ un.byte (p + i)
              (held-owned c s m p old (p + i) held (within-add p (extent old) i (omega arith)));
      released = re.released;
      owners = λ a h g. re.owners a h g ∙ un.owner a;
      disjoint = λ a h. ground (arith, un.owner a, re.disjoint a h);
      bytes = λ a h g. re.bytes a (ground (arith, un.owner a)) g ∙ un.byte a h;
      others = λ r x big ne away h.
          re.others r x big ne away
            (still_held c s m m1 r x (λ e. un.block r) (λ a g. un.owner a) h);
    }

  -- The kernel has made `k` bytes of the `n` of a mapping.
  pub Remapped-Resized :
      {m m1 : Mem} (p q j : ℕ) (old new : Layout)
      → uses_mmap c old.size ≡ true
      → uses_mmap c new.size ≡ true
      → Remapped s.page_size m m1 p (mapped_size c old.size) q (mapped_size c new.size)
      → q % 64 ≡ 0
      → j ≤ mapped_size c old.size
      → j ≤ mapped_size c new.size
      → new.size ≤ mapped_size c new.size
      → Resized (hybrid c s) m m1 p old q new (mapped_size c new.size) j
  Remapped-Resized {m} {m1} p q j old new on on' re aligned le le' enough = record {
    aligned = aligned;
    enough = enough;
    within_extent = rw on' (omega arith);
    held = rw on' (record { mapped = λ a h. re.moved.owner a ∙ rw h; whole = re.aligned });
    kept = λ i h. re.moved.kept i (omega arith) (omega arith);
    released = rw (on, on') (λ a h g. re.moved.owner a ∙ rw (g, h));
    owners = rw (on, on') (λ a h g. re.moved.owner a ∙ rw (g, h));
    disjoint = rw (on, on') re.moved.fresh;
    bytes = rw on re.moved.byte;
    others = λ r x big ne away h.
        still_held c s m m1 r x (λ e. re.blocks r)
          (λ a g. same a (held-owned c s m r x a h g) ((rw on at away a) g)) h;
  }
    where
      same :
          (a : ℕ)
          → m.owner a ≢ free
          → within p (mapped_size c old.size) a ≡ false
          → m1.owner a ≡ m.owner a
      same a h g = ground (arith, re.moved.owner a, re.moved.fresh a)
