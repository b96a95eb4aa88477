-- ===== src/Machine/Toy.antt =====
-- A system that satisfies the laws: it never takes an address twice. The state of its heap and its
-- kernel is the first address past all that it ever gave out.
pub mod Places
pub mod Laws
pub mod Tearing
use vec.Base.{
  ℕ, zero, suc, ◌+◌, ◌-◌, ◌*◌, ◌%◌, ◌≤◌, ◌<◌, ◌≡◌, ◌≢◌, inl, inr, refl, Option, none, some, Bool,
  true, false, within, within-add, arith, ltb, if◌then◌else◌, ◌==◌, Bool-cases, lt→ltb, le→ltb,
}
use vec.Machine.{
  Use, free, heaped, paged, Layout, Mem, RemapFlags, may_move, fixed, fixed_dont_unmap, Advice,
  huge_page, lazy_free, map_failed, Sys,
}
use vec.Machine.Effect.{
  Unchanged, Took, Dropped, Moved, Alloced, Realloced, Mapped, Remapped, Unless, IsSys, Zeros,
  Placed,
}
use native.Mathlib.Nat.{mul-mod_left}

-- The `n` bytes from `p` on become `k` bytes from `q` on; `n = 0` for new bytes.
abbrev place : Use → (q k p n : ℕ) → Mem → Mem
place u q k p n m = record {
  byte = λ a. if within q k a then if ltb (a - q) n then m.byte (p + (a - q)) else 0 else m.byte a;
  owner = λ a. if within q k a then u else if within p n a then free else m.owner a;
  block = m.block;
  world = q + k;
}

-- The `n` bytes from `p` on replace the `k` from `d` on; they leave zeros, which belong to `left`.
abbrev onto : Use → (p n d k : ℕ) → Mem → Mem
onto left p n d k m = record {
  byte = λ a. if within d k a then m.byte (p + (a - d)) else if within p n a then 0 else m.byte a;
  owner = λ a. if within d k a then paged else if within p n a then left else m.owner a;
  block = m.block;
  world = m.world + (p + n) + (d + k);
}

abbrev give_back : (p n : ℕ) → Mem → Mem
give_back p n m = record m { owner = λ a. if within p n a then free else m.owner a }

-- The next address that is a multiple of `align`.
abbrev next_multiple_of : ℕ → Mem → ℕ
next_multiple_of align m = (suc m.world) * align

abbrev answer : ℕ → ℕ → Mem → Mem → ℕ × Mem
answer fail q m m' = if q == fail then (fail, m) else (q, m')

abbrev register : ℕ → Option Layout → Mem → Mem
register p l m = record m { block = λ r. if r == p then l else m.block r }

abbrev toy_alloc : Layout → Mem → ℕ × Mem
toy_alloc l m =
    let q = next_multiple_of l.align m in
    answer 0 q m (register q (some l) (place heaped q l.size 0 0 m))

abbrev toy_realloc : ℕ → Layout → ℕ → Mem → ℕ × Mem
toy_realloc p l k m =
    let q = next_multiple_of l.align m in
    answer 0 q m (
      register q (some (record { size = k; align = l.align }))
        (register p none (place heaped q k p l.size m)))

abbrev toy_mmap : ℕ → Mem → ℕ × Mem
toy_mmap n m = let q = next_multiple_of 4096 m in answer map_failed q m (place paged q n 0 0 m)

abbrev toy_mremap : ℕ → ℕ → ℕ → RemapFlags → Mem → ℕ × Mem
toy_mremap p n k may_move m =
    let q = next_multiple_of 4096 m in answer map_failed q m (place paged q k p n m)
toy_mremap p n k (fixed dst) m = answer map_failed dst m (onto free p n dst k m)
toy_mremap p n k (fixed_dont_unmap dst) m = answer map_failed dst m (onto paged p n dst k m)

abbrev toy_madvise : ℕ → ℕ → Advice → Mem → Mem
toy_madvise p n huge_page m = m
toy_madvise p n lazy_free m = record m { byte = λ a. if within p n a then 0 else m.byte a }

abbrev Fresh : Mem → Type 0
Fresh m = (a : ℕ) → m.world ≤ a → m.owner a ≡ free

abbrev pub toy : Sys
toy = record {
  Ok = Fresh;
  page_size = 4096;
  alloc = toy_alloc;
  alloc_zeroed = toy_alloc;
  dealloc = λ p l m. register p none (give_back p l.size m);
  realloc = toy_realloc;
  mmap = λ f. toy_mmap;
  munmap = give_back;
  mremap = toy_mremap;
  madvise = toy_madvise;
}
