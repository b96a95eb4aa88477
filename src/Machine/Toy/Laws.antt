-- ===== src/Machine/Toy/Laws.antt =====
-- The toy system satisfies the laws.
use vec.Base.{ℕ, ◌≤◌, ◌≡◌, inl, inr, refl, Bool, true, false, arith, ◌==◌, Bool-cases}
use vec.Machine.{
  free, heaped, paged, Layout, Mem, RemapFlags, may_move, fixed, fixed_dont_unmap, Advice,
  huge_page, lazy_free, map_failed,
}
use vec.Machine.Effect.{
  KeepsTarget, Unchanged, Alloced, Realloced, Mapped, Remapped, Unless, IsSys, Zeros, Placed,
}
use vec.Machine.Toy.{
  next_multiple_of, answer, toy_alloc, toy_realloc, toy_mmap, toy_mremap, toy_madvise, Fresh, toy,
}
use vec.Machine.Toy.Places.{
  eq_self, next-past, next-aligned, zero-answer, place-Moved, place-Took, place-Zeros, place-grown,
  place-Fresh, give_back-Dropped, give_back-Fresh, same, onto-Placed, onto-Fresh,
}

-- What holds of the success holds of the answer.
pub answer-Unless :
    (fail q : ℕ) (m m' : Mem) (P : ℕ → Mem → Type 0)
    → ((q == fail) ≡ false → P q m')
    → let (r, m2) = answer fail q m m' in Unless (r == fail) m m2 (P r m2)
answer-Unless fail q m m' P f = elim (Bool-cases (q == fail)) [
  | inl null ↦ rw (null, eq_self fail) (same m)
  | inr fine ↦ rw (fine, fine) (f fine)
]

pub answer-placed :
    (fail q : ℕ) (m m' : Mem) (P : Mem → Type 0)
    → P m'
    → let (r, m2) = answer fail q m m' in (r == fail) ≡ false → P m2
answer-placed fail q m m' P h = elim (Bool-cases (q == fail)) [
  | inl null ↦ rw (null, eq_self fail) (λ e. ground (arith, e))
  | inr fine ↦ rw (fine, fine) (λ e. h)
]

pub answer-kept :
    (fail q : ℕ) (m m' : Mem)
    → let (r, m2) = answer fail q m m' in (r == fail) ≡ true → Unchanged m m2
answer-kept fail q m m' = elim (Bool-cases (q == fail)) [
  | inl null ↦ rw (null, eq_self fail) (λ e. same m)
  | inr fine ↦ rw (fine, fine) (λ e. ground (arith, e))
]

pub answer-Fresh :
    (fail q : ℕ) (m m' : Mem)
    → Fresh m
    → ((q == fail) ≡ false → Fresh m')
    → Fresh (answer fail q m m').1
answer-Fresh fail q m m' ok f = elim (Bool-cases (q == fail)) [
  | inl null ↦ rw null ok
  | inr fine ↦ rw fine (f fine)
]

pub toy_alloc_lem :
    (l : Layout) (m : Mem)
    → Fresh m
    → let (p, m') = toy_alloc l m in Unless (p == 0) m m' (Alloced m m' l p × Zeros m' p l.size)
toy_alloc_lem l m ok =
    answer-Unless 0 (next_multiple_of l.align m) m _ (λ p m'. Alloced m m' l p × Zeros m' p l.size)
      (λ fine. (
        record {
          took = record {
            fresh = (place-Took heaped _ _ m ok (past fine)).fresh;
            owner = (place-Took heaped _ _ m ok (past fine)).owner;
            byte = (place-Took heaped _ _ m ok (past fine)).byte;
          };
          registers = λ r. refl;
          aligned = next-aligned l.align m;
        },
        place-Zeros heaped (next_multiple_of l.align m) l.size m,
      ))
  where
    past : (next_multiple_of l.align m == 0) ≡ false → m.world ≤ next_multiple_of l.align m
    past fine = next-past l.align m (zero-answer l.align m fine)

pub toy_alloc_ok : (l : Layout) (m : Mem) → Fresh m → Fresh (toy_alloc l m).1
toy_alloc_ok l m ok = answer-Fresh 0 (next_multiple_of l.align m) m _ ok (λ fine.
    place-Fresh heaped _ l.size 0 0 m ok (next-past l.align m (zero-answer l.align m fine)))

pub toy_realloc_lem :
    (p : ℕ) (l : Layout) (k : ℕ) (m : Mem)
    → Fresh m
    → let (q, m') = toy_realloc p l k m in Unless (q == 0) m m' (Realloced m m' p l q k)
toy_realloc_lem p l k m ok =
    answer-Unless 0 (next_multiple_of l.align m) m _ (λ q m'. Realloced m m' p l q k)
      (λ fine.
        let moved =
          place-Moved heaped (next_multiple_of l.align m) k p l.size m ok
            (next-past l.align m (zero-answer l.align m fine)) in
        record {
          moved = record {
            fresh = moved.fresh;
            owner = moved.owner;
            byte = moved.byte;
            kept = moved.kept;
          };
          registers = λ r. refl;
          aligned = next-aligned l.align m;
        })

pub toy_realloc_ok :
    (p : ℕ) (l : Layout) (k : ℕ) (m : Mem) → Fresh m → Fresh (toy_realloc p l k m).1
toy_realloc_ok p l k m ok = answer-Fresh 0 (next_multiple_of l.align m) m _ ok (λ fine.
    place-Fresh heaped _ k p l.size m ok (next-past l.align m (zero-answer l.align m fine)))

pub page_past : (m : Mem) → m.world ≤ next_multiple_of 4096 m
page_past m = omega arith

pub toy_mmap_lem :
    (n : ℕ) (m : Mem)
    → Fresh m
    → let (p, m') = toy_mmap n m in Unless (p == map_failed) m m' (Mapped 4096 m m' p n)
toy_mmap_lem n m ok =
    answer-Unless map_failed (next_multiple_of 4096 m) m _ (λ p m'. Mapped 4096 m m' p n)
      (λ fine. record {
        took = place-Took paged _ _ m ok (page_past m);
        blocks = λ r. refl;
        zeros = place-Zeros paged (next_multiple_of 4096 m) n m;
        aligned = next-aligned 4096 m;
        nonnull = omega arith;
      })

pub toy_mremap_lem :
    (p n k : ℕ) (m : Mem)
    → Fresh m
    → let (q, m') = toy_mremap p n k may_move m in
      Unless (q == map_failed) m m' (Remapped 4096 m m' p n q k)
toy_mremap_lem p n k m ok =
    answer-Unless map_failed (next_multiple_of 4096 m) m _ (λ q m'. Remapped 4096 m m' p n q k)
      (λ fine. record {
        moved = place-Moved paged _ k p n m ok (page_past m);
        blocks = λ r. refl;
        grown = place-grown paged (next_multiple_of 4096 m) k p n m;
        aligned = next-aligned 4096 m;
        nonnull = omega arith;
      })

pub toy_mremap_ok :
    (p n k : ℕ) (f : RemapFlags) (m : Mem) → Fresh m → Fresh (toy_mremap p n k f m).1
toy_mremap_ok p n k may_move m ok =
    answer-Fresh map_failed (next_multiple_of 4096 m) m _ ok
      (λ fine. place-Fresh paged _ k p n m ok (page_past m))
toy_mremap_ok p n k (fixed dst) m ok =
    answer-Fresh map_failed dst m _ ok (λ fine. onto-Fresh free p n dst k m ok)
toy_mremap_ok p n k (fixed_dont_unmap dst) m ok =
    answer-Fresh map_failed dst m _ ok (λ fine. onto-Fresh paged p n dst k m ok)

pub toy_madvise_ok : (p n : ℕ) (a : Advice) (m : Mem) → Fresh m → Fresh (toy_madvise p n a m)
toy_madvise_ok p n huge_page m ok = ok
toy_madvise_ok p n lazy_free m ok = ok

pub Unless-map :
    {P Q : Type 0} (m m' : Mem) (b : Bool) → (P → Q) → Unless b m m' P → Unless b m m' Q
Unless-map m m' true f h = h
Unless-map m m' false f h = f h

unfoldable pub toy_laws : IsSys toy
toy_laws = record {
  page_bits = 12;
  page_is = refl;
  page_least = omega arith;
  page_most = omega arith;
  store_ok = λ byte m ok h. ok;
  alloc_ok = toy_alloc_ok;
  alloc_lem =
      λ l m ok pos. Unless-map _ _ ((toy_alloc l m).0 == 0) (λ both. both.0) (toy_alloc_lem l m ok);
  alloc_zeroed_ok = toy_alloc_ok;
  alloc_zeroed_lem = λ l m ok pos. toy_alloc_lem l m ok;
  dealloc_ok = λ p l m ok. give_back-Fresh p l.size m ok;
  dealloc_lem = λ p l m ok h. (record { owner = λ a. refl; byte = λ a h g. refl }, λ q. refl);
  realloc_ok = toy_realloc_ok;
  realloc_lem = λ p l k m ok h pos. toy_realloc_lem p l k m ok;
  mmap_ok = λ f n m ok.
      answer-Fresh map_failed (next_multiple_of 4096 m) m _ ok
        (λ fine. place-Fresh paged _ n 0 0 m ok (page_past m));
  mmap_lem = λ f n m ok pos. toy_mmap_lem n m ok;
  munmap_ok = give_back-Fresh;
  munmap_lem = λ p n m ok h g held. (give_back-Dropped p n m, λ q. refl);
  mremap_ok = toy_mremap_ok;
  mremap_lem = λ p n k m ok held. toy_mremap_lem p n k m ok;
  madvise_ok = toy_madvise_ok;
  madvise_huge_lem = λ p n m. same m;
  mremap_fixed_lem = λ p n d m ok hp hd hn held dst apart.
      answer-placed map_failed d m _ (λ m1. Placed free m m1 p n d) (onto-Placed free p n d m);
  mremap_dont_unmap_lem = λ p n d m ok hp hd hn held dst apart.
      answer-placed map_failed d m _ (λ m1. Placed paged m m1 p n d × Zeros m1 p n)
        (onto-Placed paged p n d m, λ a h. rw (apart a h, h));
  madvise_free_lem =
      λ p n m ok hp hn held. record { owner = λ a. refl; byte = λ a h g. rw g; blocks = λ q. refl };
}

pub toy_keeps : KeepsTarget toy
toy_keeps = record {
  fixed_kept = λ p n d m ok held. answer-kept map_failed d m _;
  dont_unmap_kept = λ p n d m ok held. answer-kept map_failed d m _;
}
