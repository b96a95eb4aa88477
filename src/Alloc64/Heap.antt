-- ===== src/Alloc64/Heap.antt =====
-- Heap blocks under a raised layout, as the system allocator gives and takes them.
use vec.Base.{
  ℕ, ◌+◌, ◌-◌, ◌^◌, ◌%◌, ◌≤◌, ◌<◌, ◌≡◌, ◌≢◌, inl, inr, refl, ◌∙◌, subst, none, some, true, false,
  within, within-add, arith, ltb, ◌==◌, if◌then◌else◌, Bool-cases, dec_lt, le→leb,
}
use vec.PageSize.Laws.{pow-mod-pow}
use vec.Machine.{free, heaped, Layout, Mem}
use vec.Machine.Effect.{Unchanged, Dropped, BlockAt, Alloced, Realloced, Zeros}
use vec.Allocator.{IsLayout, Holding, Allocated, Resized, Deallocated}
use vec.Alloc64.{align_layout}
use native.Mathlib.Nat.{pow-le-pow_right, mod-eq-zero_of_dvd, dvd_of_mod-eq-zero, dvd_trans}

-- The layout that `align_layout` returns when it does not panic.
abbrev pub raised : Layout → Layout
raised l = record { size = l.size; align = if ltb l.align 64 then 64 else l.align }

pub align_layout-raised : {l : Layout} → IsLayout l → align_layout l ≡ some (raised l)
unfolding align_layout
align_layout-raised {l} v = elim (Bool-cases (ltb l.align 64)) [
  | inl small ↦ rw (small, le→leb l.size (2 ^ 63 - 64) v.room)
  | inr large ↦ rw large
]

-- An address with the raised alignment is a multiple of 64.
pub raised-aligned : {l : Layout} (p : ℕ) → IsLayout l → p % (raised l).align ≡ 0 → p % 64 ≡ 0
raised-aligned {l} p v h = elim (Bool-cases (ltb l.align 64)) [
  | inl small ↦ (rw small at h)
  | inr large ↦ over (ground arith) (subst (λ n. p % n ≡ 0) v.align_is (rw large at h))
]
  where
    over : 64 ≤ l.align → p % 2 ^ v.bits ≡ 0 → p % 64 ≡ 0
    over big q = mod-eq-zero_of_dvd 64 (
        dvd_trans 64 (dvd_of_mod-eq-zero 64 (pow-mod-pow 6 v.bits least))
          (dvd_of_mod-eq-zero (2 ^ v.bits) q))
      where
        least : 6 ≤ v.bits
        least = elim (dec_lt v.bits 6) [
          | yes small ↦ absurd (
              omega (
                arith,
                v.align_is,
                pow-le-pow_right {n = 2} (omega arith) {i = v.bits} {j = 5} (omega arith),
              ))
          | no fine ↦ omega arith
        ]

-- A live heap block: on record under the raised layout, and its bytes belong to the heap.
pub record HeapBlock (m : Mem) (p : ℕ) (l : Layout) : Type 0 where
  pub at : BlockAt m p (raised l)
  pub bytes_held : (a : ℕ) → within p l.size a ≡ true → m.owner a ≡ heaped

abbrev pub heap_holding : Holding
heap_holding = record { extent = λ l. l.size; Holds = HeapBlock }

pub Unchanged-refl : (m : Mem) → Unchanged m m
Unchanged-refl m = record { owner = λ a. refl; block = λ q. refl; byte = λ a h. refl }

-- A block stays on record when its entry and its owners are as before.
pub stays_held :
    {m m1 : Mem} (r : ℕ) (b : Layout)
    → m1.block r ≡ m.block r
    → ((a : ℕ) → within r b.size a ≡ true → m1.owner a ≡ m.owner a)
    → HeapBlock m r b
    → HeapBlock m1 r b
stays_held r b e o h = record { at = e ∙ h.at; bytes_held = λ a g. o a g ∙ h.bytes_held a g }

pub within_start : (r n : ℕ) → 0 < n → within r n r ≡ true
unfolding within
within_start r n pos = ground arith

eq_self : (p : ℕ) → (p == p) ≡ true
eq_self p = ground arith

pub not_eq : {p q : ℕ} → p ≢ q → (p == q) ≡ false
not_eq h = ground arith

-- A block fresh from the heap, after a call that changes nothing.
pub Alloced-Allocated :
    {m m1 m2 : Mem} (l : Layout) (p : ℕ)
    → IsLayout l
    → 0 < l.size
    → Alloced m m1 (raised l) p
    → Unchanged m1 m2
    → Allocated heap_holding m m2 l p l.size
Alloced-Allocated {m} {m1} {m2} l p v pos al un = record {
  aligned = raised-aligned p v al.aligned;
  enough = omega arith;
  within_extent = omega arith;
  held = record {
    at = un.block p ∙ al.registers p ∙ rw (eq_self p);
    bytes_held = λ a h. un.owner a ∙ al.took.owner a ∙ rw h;
  };
  fresh = al.took.fresh;
  owners = λ a h. un.owner a ∙ al.took.owner a ∙ rw h;
  bytes = λ a h. un.byte a (stays a h) ∙ al.took.byte a h;
  others = λ r b pos h.
      stays_held r b
        (un.block r ∙ al.registers r ∙ rw (elsewhere r b (within_start r b.size pos) h))
        (λ a g. un.owner a ∙ al.took.owner a ∙ rw (outside a (h.bytes_held a g))) h;
}
  where
    outside : (a : ℕ) → m.owner a ≡ heaped → within p l.size a ≡ false
    outside a h = ground (arith, al.took.fresh a)

    elsewhere : (r : ℕ) (b : Layout) → within r b.size r ≡ true → HeapBlock m r b → (r == p) ≡ false
    elsewhere r b g h = ground (arith, outside r, h.bytes_held r, within_start p l.size pos)

    stays : (a : ℕ) → m.owner a ≢ free → m1.owner a ≢ free
    stays a h = ground (arith, al.took.owner a, al.took.fresh a)

-- A reallocated block, after a call that changes nothing.
pub Realloced-Resized :
    {m m1 m2 : Mem} (p q : ℕ) (old new : Layout) (k : ℕ)
    → IsLayout old
    → Realloced m m1 p (raised old) q new.size
    → Unchanged m1 m2
    → new.align ≡ old.align
    → 0 < new.size
    → k ≤ old.size
    → k ≤ new.size
    → Resized heap_holding m m2 p old q new new.size k
Realloced-Resized {m} {m1} {m2} p q old new k v re un same pos ko kn = record {
  aligned = raised-aligned q v re.aligned;
  enough = omega arith;
  within_extent = omega arith;
  held = record {
    at = un.block q ∙ re.registers q ∙ rw (eq_self q, same);
    bytes_held = λ a h. un.owner a ∙ re.moved.owner a ∙ rw h;
  };
  kept =
      λ i h. un.byte (q + i) (taken i (omega arith)) ∙ re.moved.kept i (omega arith) (omega arith);
  released = λ a h g. un.owner a ∙ re.moved.owner a ∙ rw (g, h);
  owners = λ a h g. un.owner a ∙ re.moved.owner a ∙ rw (g, h);
  disjoint = re.moved.fresh;
  bytes = λ a h g. un.byte a (stays a h g) ∙ re.moved.byte a h g;
  others = λ r b pos ne apart h.
      stays_held r b
        (un.block r
          ∙ re.registers r
          ∙ rw (elsewhere r b (within_start r b.size pos) apart h, not_eq ne))
        (λ a g.
          un.owner a ∙ re.moved.owner a ∙ rw (outside a (apart a g) (h.bytes_held a g), apart a g))
        h;
}
  where
    outside :
        (a : ℕ) → within p old.size a ≡ false → m.owner a ≡ heaped → within q new.size a ≡ false
    outside a g h = ground (arith, re.moved.fresh a)

    elsewhere :
        (r : ℕ) (b : Layout)
        → within r b.size r ≡ true
        → ((a : ℕ) → within r b.size a ≡ true → within p old.size a ≡ false)
        → HeapBlock m r b
        → (r == q) ≡ false
    elsewhere r b g apart h =
        ground (arith, outside r (apart r g) (h.bytes_held r g), within_start q new.size pos)

    stays : (a : ℕ) → m.owner a ≢ free → within p old.size a ≡ false → m1.owner a ≢ free
    stays a h g = ground (arith, re.moved.owner a, re.moved.fresh a)

    taken : (i : ℕ) → i < new.size → m1.owner (q + i) ≢ free
    taken i h = ground (arith, re.moved.owner (q + i), within-add q new.size i h)

-- A freed block.
pub Dropped-Deallocated :
    {m m1 : Mem} (p : ℕ) (l : Layout)
    → Dropped m m1 p l.size
    → ((r : ℕ) → m1.block r ≡ (if r == p then none else m.block r))
    → Deallocated heap_holding m m1 p l
Dropped-Deallocated p l d e = record {
  released = λ a h. d.owner a ∙ rw h;
  owners = λ a h. d.owner a ∙ rw h;
  bytes = d.byte;
  others = λ r b pos ne apart h.
      stays_held r b (e r ∙ rw (not_eq ne)) (λ a g. d.owner a ∙ rw (apart a g)) h;
}

pub Zeros-Unchanged :
    {m m1 m2 : Mem} (l : Layout) (p : ℕ)
    → Alloced m m1 (raised l) p
    → Unchanged m1 m2
    → Zeros m1 p l.size
    → Zeros m2 p l.size
Zeros-Unchanged l p al un z a h = un.byte a (ground (arith, al.took.owner a, h)) ∙ z a h
