-- ===== src/Machine/Toy/Places.antt =====
-- What becomes of memory where ranges are taken, moved and given back.
use vec.Base.{
  ℕ, zero, suc, ◌+◌, ◌-◌, ◌%◌, ◌≤◌, ◌<◌, ◌≡◌, ◌≢◌, inl, refl, true, false, within, within-add,
  arith, ◌==◌, lt→ltb, le→ltb,
}
use vec.Machine.{Use, free, Mem}
use vec.Machine.Effect.{Unchanged, Took, Dropped, Moved, Zeros, Placed}
use native.Mathlib.Nat.{mul-mod_left}
use vec.Machine.Toy.{place, onto, give_back, next_multiple_of, Fresh}

pub within_none : (a : ℕ) → within 0 0 a ≡ false
unfolding within
within_none a = ground arith

pub eq_self : (p : ℕ) → (p == p) ≡ true
eq_self p = ground arith

pub add_sub_lem : (q i : ℕ) → q + i - q ≡ i
add_sub_lem q i = omega arith

-- A nonzero multiple of the alignment past all that is in use.
pub next-past : (align : ℕ) (m : Mem) → 0 < align → m.world ≤ next_multiple_of align m
next-past zero m pos = elim pos [ ]
next-past (suc k) m pos = grind arith

pub next-aligned : (align : ℕ) (m : Mem) → next_multiple_of align m % align ≡ 0
next-aligned align m = mul-mod_left (suc m.world) align

pub zero-answer : (align : ℕ) (m : Mem) → (next_multiple_of align m == 0) ≡ false → 0 < align
zero-answer zero m h = grind arith
zero-answer (suc k) m h = omega arith

pub not_in :
    (u : Use) (a q k : ℕ) (m : Mem)
    → Fresh m
    → m.world ≤ q
    → m.owner a ≢ free
    → within q k a ≡ false
unfolding within
not_in u a q k m ok past h = ground (arith, ok a)

pub above_free :
    (a q k : ℕ) (m : Mem) → Fresh m → m.world ≤ q → within q k a ≡ true → m.owner a ≡ free
unfolding within
above_free a q k m ok past h = ok a (ground arith)

pub place-Moved :
    (u : Use) (q k p n : ℕ) (m : Mem)
    → Fresh m
    → m.world ≤ q
    → Moved u m (place u q k p n m) p n q k
place-Moved u q k p n m ok past = record {
  fresh = λ a h. inl (above_free a q k m ok past h);
  owner = λ a. refl;
  byte = λ a h g. rw (not_in u a q k m ok past h);
  kept = λ i h g. rw (within-add q k i g, add_sub_lem q i, lt→ltb i n h);
}

pub place-Took :
    (u : Use) (q k : ℕ) (m : Mem) → Fresh m → m.world ≤ q → Took u m (place u q k 0 0 m) q k
place-Took u q k m ok past = record {
  fresh = λ a h. above_free a q k m ok past h;
  owner = λ a. rw (within_none a);
  byte = λ a h. rw (not_in u a q k m ok past h);
}

pub place-Zeros : (u : Use) (q k : ℕ) (m : Mem) → Zeros (place u q k 0 0 m) q k
place-Zeros u q k m a h = rw (h, le→ltb (a - q) 0 (omega arith))

pub place-grown :
    (u : Use) (q k p n : ℕ) (m : Mem) (i : ℕ) → n ≤ i → i < k → (place u q k p n m).byte (q + i) ≡ 0
place-grown u q k p n m i h g = rw (within-add q k i g, add_sub_lem q i, le→ltb i n h)

pub place-Fresh :
    (u : Use) (q k p n : ℕ) (m : Mem) → Fresh m → m.world ≤ q → Fresh (place u q k p n m)
unfolding within
place-Fresh u q k p n m ok past a h = ground (arith, ok a)

pub give_back-Dropped : (p n : ℕ) (m : Mem) → Dropped m (give_back p n m) p n
give_back-Dropped p n m = record { owner = λ a. refl; byte = λ a h g. refl }

pub give_back-Fresh : (p n : ℕ) (m : Mem) → Fresh m → Fresh (give_back p n m)
give_back-Fresh p n m ok a h = ground (arith, ok a)

pub same : (m : Mem) → Unchanged m m
same m = record { owner = λ a. refl; block = λ q. refl; byte = λ a h. refl }

pub onto-Placed : (left : Use) (p n d : ℕ) (m : Mem) → Placed left m (onto left p n d n m) p n d
onto-Placed left p n d m = record {
  owner = λ a. refl;
  byte = λ a h g f. rw (g, f);
  moved = λ i h. rw (within-add d n i h, add_sub_lem d i);
  blocks = λ q. refl;
}

pub onto-Fresh : (left : Use) (p n d k : ℕ) (m : Mem) → Fresh m → Fresh (onto left p n d k m)
unfolding within
onto-Fresh left p n d k m ok a h = ground (arith, ok a)
