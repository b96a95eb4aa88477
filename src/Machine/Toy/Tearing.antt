-- ===== src/Machine/Toy/Tearing.antt =====
-- A system that satisfies the laws, and whose `mremap` with a fixed destination unmaps that destination and then fails.
use vec.Base.{ℕ}
use vec.Machine.{Mem, Sys, RemapFlags, may_move, fixed, fixed_dont_unmap, map_failed}
use vec.Machine.Effect.{IsSys}
use vec.Machine.Toy.{toy, give_back}
use vec.Machine.Toy.Laws.{toy_laws}
use vec.Machine.Toy.Places.{give_back-Fresh}

abbrev torn_mremap : ℕ → ℕ → ℕ → RemapFlags → Mem → ℕ × Mem
torn_mremap p n k may_move m = toy.mremap p n k may_move m
torn_mremap p n k (fixed d) m = (map_failed, give_back d k m)
torn_mremap p n k (fixed_dont_unmap d) m = (map_failed, give_back d k m)

abbrev pub tearing : Sys
tearing = record toy { mremap = torn_mremap }

torn_mremap_ok :
    (p n k : ℕ) (f : RemapFlags) (m : Mem) → toy.Ok m → toy.Ok (torn_mremap p n k f m).1
torn_mremap_ok p n k may_move m ok = toy_laws.mremap_ok p n k may_move m ok
torn_mremap_ok p n k (fixed d) m ok = give_back-Fresh d k m ok
torn_mremap_ok p n k (fixed_dont_unmap d) m ok = give_back-Fresh d k m ok

tearing_laws : IsSys tearing
unfolding toy_laws
tearing_laws = record {
  page_bits = toy_laws.page_bits;
  page_is = toy_laws.page_is;
  page_least = toy_laws.page_least;
  page_most = toy_laws.page_most;
  store_ok = toy_laws.store_ok;
  alloc_ok = toy_laws.alloc_ok;
  alloc_lem = toy_laws.alloc_lem;
  alloc_zeroed_ok = toy_laws.alloc_zeroed_ok;
  alloc_zeroed_lem = toy_laws.alloc_zeroed_lem;
  dealloc_ok = toy_laws.dealloc_ok;
  dealloc_lem = toy_laws.dealloc_lem;
  realloc_ok = toy_laws.realloc_ok;
  realloc_lem = toy_laws.realloc_lem;
  mmap_ok = toy_laws.mmap_ok;
  mmap_lem = toy_laws.mmap_lem;
  munmap_ok = toy_laws.munmap_ok;
  munmap_lem = toy_laws.munmap_lem;
  madvise_ok = toy_laws.madvise_ok;
  madvise_huge_lem = toy_laws.madvise_huge_lem;
  madvise_free_lem = toy_laws.madvise_free_lem;
  mremap_ok = torn_mremap_ok;
  mremap_lem = toy_laws.mremap_lem;
  mremap_fixed_lem = λ p n d m ok hp hd hn held dst apart e. cc;
  mremap_dont_unmap_lem = λ p n d m ok hp hd hn held dst apart e. cc;
}
