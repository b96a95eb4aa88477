-- ===== src/MmapAlloc/Hybrid.antt =====
-- How `MAllocPg64` holds a block: a heap block below `HUGE_PAGE`, and a whole mapping from there on.
use vec.Base.{
  ℕ, ◌%◌, ◌≡◌, ◌≢◌, inl, inr, refl, ◌∙◌, Bool, true, false, within, arith, if◌then◌else◌,
  Bool-cases,
}
use vec.Build.{Config}
use vec.PageSize.{uses_mmap, mapped_size}
use vec.Machine.{free, paged, Layout, Mem, Sys}
use vec.Machine.Effect.{Paged}
use vec.Allocator.{Holding, Allocated, Resized, Deallocated, Others}
use vec.Alloc64.Heap.{HeapBlock, heap_holding}

-- A live mapping: its bytes are mapped, and it starts on a page of the kernel.
pub record MappedBlock (c : Config) (s : Sys) (m : Mem) (p : ℕ) (l : Layout) : Type 0 where
  pub mapped : Paged m p (mapped_size c l.size)
  pub whole : p % s.page_size ≡ 0

abbrev pub HeldAs : Bool → Type 0 → Type 0 → Type 0
HeldAs true P Q = P
HeldAs false P Q = Q

abbrev pub hybrid : Config → Sys → Holding
hybrid c s = record {
  extent = λ l. if uses_mmap c l.size then mapped_size c l.size else l.size;
  Holds = λ m p l. HeldAs (uses_mmap c l.size) (MappedBlock c s m p l) (HeapBlock m p l);
}

module _ (c : Config) (s : Sys) where
  -- Every byte of a held block is owned.
  pub held-owned :
      (m : Mem) (p : ℕ) (l : Layout) (a : ℕ)
      → (hybrid c s).Holds m p l
      → within p ((hybrid c s).extent l) a ≡ true
      → m.owner a ≢ free
  held-owned m p l a = elim (Bool-cases (uses_mmap c l.size)) [
    | inl on ↦ rw on (λ h g. ground (arith, h.mapped a))
    | inr off ↦ rw off (λ h g. ground (arith, h.bytes_held a))
  ]

  -- A block stays held when its entry and its owners are as before.
  pub still_held :
      (m m1 : Mem) (r : ℕ) (b : Layout)
      → (uses_mmap c b.size ≡ false → m1.block r ≡ m.block r)
      → ((a : ℕ) → within r ((hybrid c s).extent b) a ≡ true → m1.owner a ≡ m.owner a)
      → (hybrid c s).Holds m r b
      → (hybrid c s).Holds m1 r b
  still_held m m1 r b = elim (Bool-cases (uses_mmap c b.size)) [
    | inl on ↦ rw on (λ e o h. record { mapped = λ a g. o a g ∙ h.mapped a g; whole = h.whole })
    | inr off ↦
        rw off
          (λ e o h. record { at = e refl ∙ h.at; bytes_held = λ a g. o a g ∙ h.bytes_held a g })
  ]

  -- By cases on how the block is held.
  pub either :
      (m m1 : Mem) (r : ℕ) (b : Layout)
      → (uses_mmap c b.size ≡ false → HeapBlock m r b → HeapBlock m1 r b)
      → (uses_mmap c b.size ≡ true
          → (a : ℕ) → within r (mapped_size c b.size) a ≡ true
          → m.owner a ≡ paged
          → m1.owner a ≡ paged)
      → (hybrid c s).Holds m r b
      → (hybrid c s).Holds m1 r b
  either m m1 r b = elim (Bool-cases (uses_mmap c b.size)) [
    | inl on ↦
        rw on (λ f g h. record { mapped = λ a i. g refl a i (h.mapped a i); whole = h.whole })
    | inr off ↦ rw off (λ f g h. f refl h)
  ]

  -- A heap block is a block of the hybrid; what the heap keeps, it keeps of mappings too.
  pub hybrid-Allocated :
      {m m1 : Mem} {l : Layout} {p n : ℕ}
      → uses_mmap c l.size ≡ false
      → Allocated heap_holding m m1 l p n
      → Allocated (hybrid c s) m m1 l p n
  hybrid-Allocated {m} {m1} {l} {p} off al = record {
    aligned = al.aligned;
    enough = al.enough;
    within_extent = rw off al.within_extent;
    held = rw off al.held;
    fresh = rw off al.fresh;
    owners = rw off al.owners;
    bytes = al.bytes;
    others = λ r b pos.
        either m m1 r b (λ e h. al.others r b pos h)
          (λ e a i h. ground (arith, al.owners a, al.fresh a));
  }

  hybrid-Others :
      (m m1 : Mem) (l : Layout) (p : ℕ)
      → uses_mmap c l.size ≡ false
      → Others heap_holding m m1 p l
      → ((a : ℕ) → within p l.size a ≡ false → m.owner a ≡ paged → m1.owner a ≡ paged)
      → Others (hybrid c s) m m1 p l
  hybrid-Others m m1 l p off heap page r b pos ne apart =
      either m m1 r b (λ e h. heap r b pos ne (λ a. (rw (e, off) at apart a)) h)
        (λ e a i h. page a ((rw (e, off) at apart a) i) h)

  pub hybrid-Deallocated :
      {m m1 : Mem} {l : Layout} {p : ℕ}
      → uses_mmap c l.size ≡ false
      → Deallocated heap_holding m m1 p l
      → Deallocated (hybrid c s) m m1 p l
  hybrid-Deallocated {m} {m1} {l} {p} off d = record {
    released = rw off d.released;
    owners = rw off d.owners;
    bytes = rw off d.bytes;
    others = hybrid-Others m m1 l p off d.others (λ a h g. d.owners a h ∙ g);
  }

  pub hybrid-Resized :
      {m m1 : Mem} {old new : Layout} {p q n k : ℕ}
      → uses_mmap c old.size ≡ false
      → uses_mmap c new.size ≡ false
      → Resized heap_holding m m1 p old q new n k
      → Resized (hybrid c s) m m1 p old q new n k
  hybrid-Resized {m} {m1} {old} {new} {p} {q} off off' re = record {
    aligned = re.aligned;
    enough = re.enough;
    within_extent = rw off' re.within_extent;
    held = rw off' re.held;
    kept = re.kept;
    released = rw (off, off') re.released;
    owners = rw (off, off') re.owners;
    disjoint = rw (off, off') re.disjoint;
    bytes = rw off re.bytes;
    others =
        hybrid-Others m m1 old p off re.others
          (λ a h g. ground (arith, re.owners a, re.disjoint a));
  }
