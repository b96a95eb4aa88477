-- ===== src/Vec64/Splice/Kept.antt =====
-- Memories that differ in a range only, with or without a scratch mapping besides.
use vec.Base.{
  ℕ, ◌+◌, ◌-◌, ◌≤◌, ◌<◌, ◌≡◌, ◌≢◌, refl, ◌∙◌, true, false, within, within-add, arith, if◌then◌else◌,
}
use vec.Machine.{free, paged, Mem, copy}
use vec.Machine.Effect.{Unchanged, Mapped, Dropped, SameBlocks, Placed, Lapsed}

-- All is as it was but for the bytes of the `n` from `lo` on.
pub record Kept (lo n : ℕ) (m m' : Mem) : Type 0 where
  pub owner : (a : ℕ) → m'.owner a ≡ m.owner a
  pub block : (q : ℕ) → m'.block q ≡ m.block q
  pub byte : (a : ℕ) → m.owner a ≢ free → within lo n a ≡ false → m'.byte a ≡ m.byte a

-- The same, while the `k` bytes from `q` on are mapped for the moment.
pub record Scratch (q k lo n : ℕ) (m m' : Mem) : Type 0 where
  pub fresh : (a : ℕ) → within q k a ≡ true → m.owner a ≡ free
  pub owner : (a : ℕ) → m'.owner a ≡ (if within q k a then paged else m.owner a)
  pub block : (r : ℕ) → m'.block r ≡ m.block r
  pub byte : (a : ℕ) → m.owner a ≢ free → within lo n a ≡ false → m'.byte a ≡ m.byte a

pub within-sub :
    (lo n p k a : ℕ) → lo ≤ p → p + k ≤ lo + n → within p k a ≡ true → within lo n a ≡ true
unfolding within
within-sub lo n p k a h g e = ground arith

pub within-sup :
    (lo n p k a : ℕ) → lo ≤ p → p + k ≤ lo + n → within lo n a ≡ false → within p k a ≡ false
unfolding within
within-sup lo n p k a h g e = ground arith

pub within-at : (p n a : ℕ) → p ≤ a → a < p + n → within p n a ≡ true
unfolding within
within-at p n a h g = ground arith

pub within-below : (p n a : ℕ) → a < p → within p n a ≡ false
unfolding within
within-below p n a h = ground arith

pub within-above : (p n a : ℕ) → p + n ≤ a → within p n a ≡ false
unfolding within
within-above p n a h = ground arith

pub Kept-refl : (lo n : ℕ) (m : Mem) → Kept lo n m m
Kept-refl lo n m = record { owner = λ a. refl; block = λ q. refl; byte = λ a h g. refl }

pub Kept-trans : {lo n : ℕ} {m m1 m2 : Mem} → Kept lo n m m1 → Kept lo n m1 m2 → Kept lo n m m2
Kept-trans {m} {m1} f g = record {
  owner = λ a. g.owner a ∙ f.owner a;
  block = λ q. g.block q ∙ f.block q;
  byte = λ a h e. g.byte a (ground (arith, f.owner a)) e ∙ f.byte a h e;
}

pub Kept-wider :
    {lo n lo' n' : ℕ} {m m1 : Mem}
    → lo' ≤ lo
    → lo + n ≤ lo' + n'
    → Kept lo n m m1
    → Kept lo' n' m m1
Kept-wider {lo} {n} {lo'} {n'} h g f = record {
  owner = f.owner;
  block = f.block;
  byte = λ a e w. f.byte a e (within-sup lo' n' lo n a h g w);
}

pub Unchanged-Kept : {lo n : ℕ} {m m1 : Mem} → Unchanged m m1 → Kept lo n m m1
Unchanged-Kept un = record { owner = un.owner; block = un.block; byte = λ a h g. un.byte a h }

pub Lapsed-Kept : {p n : ℕ} {m m1 : Mem} → Lapsed m m1 p n → Kept p n m m1
Lapsed-Kept la = record { owner = la.owner; block = la.blocks; byte = la.byte }

pub copy-Kept : (src dst n : ℕ) (m : Mem) → Kept dst n m (copy src dst n m)
copy-Kept src dst n m = record { owner = λ a. refl; block = λ q. refl; byte = λ a h g. rw g }

pub copy-there :
    (src dst n i : ℕ) (m : Mem) → i < n → (copy src dst n m).byte (dst + i) ≡ m.byte (src + i)
copy-there src dst n i m h = rw (within-add dst n i h, add_sub_lem dst i)
  where
    add_sub_lem : (q i : ℕ) → q + i - q ≡ i
    add_sub_lem q i = omega arith

pub Mapped-Scratch :
    (q k lo n : ℕ) {page : ℕ} {m m1 : Mem} → Mapped page m m1 q k → Scratch q k lo n m m1
Mapped-Scratch q k lo n map = record {
  fresh = map.took.fresh;
  owner = map.took.owner;
  block = map.blocks;
  byte = λ a h g. map.took.byte a h;
}

module _ (q k lo n : ℕ) {m m1 m2 : Mem} where
  pub Scratch-Kept : Scratch q k lo n m m1 → Kept lo n m1 m2 → Scratch q k lo n m m2
  Scratch-Kept sc f = record {
    fresh = sc.fresh;
    owner = λ a. f.owner a ∙ sc.owner a;
    block = λ r. f.block r ∙ sc.block r;
    byte = λ a h g. f.byte a (ground (arith, sc.owner a)) g ∙ sc.byte a h g;
  }

  -- The scratch mapping is released.
  pub Scratch-Dropped :
      Scratch q k lo n m m1 → Dropped m1 m2 q k → SameBlocks m1 m2 → Kept lo n m m2
  Scratch-Dropped sc gone blocks = record {
    owner = λ a. ground (arith, gone.owner a, sc.owner a, sc.fresh a);
    block = λ r. blocks r ∙ sc.block r;
    byte = λ a h g.
        gone.byte a (ground (arith, sc.owner a)) (ground (arith, sc.fresh a)) ∙ sc.byte a h g;
  }

  -- The pages of a range have moved into the scratch mapping, and left zeros.
  pub Scratch-taken :
      (p : ℕ)
      → lo ≤ p
      → p + k ≤ lo + n
      → ((a : ℕ) → within p k a ≡ true → m.owner a ≡ paged)
      → Scratch q k lo n m m1
      → Placed paged m1 m2 p k q
      → Scratch q k lo n m m2
  Scratch-taken p low high held sc pl = record {
    fresh = sc.fresh;
    owner = λ a. ground (arith, pl.owner a, sc.owner a, held a);
    block = λ r. pl.blocks r ∙ sc.block r;
    byte = λ a h g.
        pl.byte a (ground (arith, sc.owner a)) (within-sup lo n p k a low high g)
          (ground (arith, sc.fresh a))
        ∙ sc.byte a h g;
  }

  -- The scratch mapping has moved onto a range.
  pub Scratch-Placed :
      (d : ℕ)
      → lo ≤ d
      → d + k ≤ lo + n
      → ((a : ℕ) → within d k a ≡ true → m.owner a ≡ paged)
      → Scratch q k lo n m m1
      → Placed free m1 m2 q k d
      → Kept lo n m m2
  Scratch-Placed d low high held sc pl = record {
    owner = λ a. ground (arith, pl.owner a, sc.owner a, held a, sc.fresh a);
    block = λ r. pl.blocks r ∙ sc.block r;
    byte = λ a h g.
        pl.byte a (ground (arith, sc.owner a)) (ground (arith, sc.fresh a))
          (within-sup lo n d k a low high g)
        ∙ sc.byte a h g;
  }
