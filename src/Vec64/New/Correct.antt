-- ===== src/Vec64/New/Correct.antt =====
-- New vectors: `zeroed`, and `with_capacity` for the others.
use vec.Base.{
  ℕ, ◌-◌, ◌*◌, ◌^◌, ◌≤◌, ◌<◌, ◌≡◌, ◌≢◌, refl, ap, ◌∙◌, none, some, true, false, ◌||◌, ◌==◌, arith,
  within, if◌then◌else◌, Bool-cases, inl, inr, le→leb, ==_iff,
}
use vec.Base.Outcome.{◌>>=◌, Returns, Outcome, done, panic, undefined}
use vec.Base.Usize.{usize_mod}
use vec.Build.{Config, IsBuilt}
use vec.Machine.{free, Layout, Mem, Sys}
use vec.Machine.Effect.{IsSys, Zeros}
use vec.Allocator.{IsLayout, Allocated, Ends, Call, Holding}
use vec.Alloc64.{from_size_align}
use vec.Vec64.Raw.{RawVec}
use vec.Vec64.Held.{holding, layout_of, IsVec, extent, extent-none}
use vec.Vec64.New.{allocate_by, allocate_zeroed_by, over, new, with_capacity, zeroed}
use vec.Vec64.Splice.Kept.{within-sub}
use native.Mathlib.Nat.{mul-pos, zero-mul}
use vec.Vec64.New.Fresh.{allocate_by-Allocated, allocate_zeroed_by-Allocated}

-- A new vector holds its block, which nobody has had, and nothing else has changed.
pub record Made (c : Config) (s : Sys) (elem align : ℕ) (m : Mem) (v : RawVec) (m1 : Mem)
    : Type 0 where
  pub vec : IsVec c s elem align v m1
  pub ok : s.Ok m1
  pub fresh : (a : ℕ) → within v.ptr (extent c s elem align v) a ≡ true → m.owner a ≡ free
  pub owners : (a : ℕ) → within v.ptr (extent c s elem align v) a ≡ false → m1.owner a ≡ m.owner a
  pub bytes : (a : ℕ) → m.owner a ≢ free → m1.byte a ≡ m.byte a
  pub others :
      (r : ℕ) (l : Layout) → 0 < l.size → (holding c s).Holds m r l → (holding c s).Holds m1 r l

-- What a call that makes a vector may end in; where it panics, the allocator was out of memory.
abbrev pub Making : Call → (RawVec → Mem → Type 0) → Outcome (RawVec × Mem) → Type 0
Making call P (done (v, m1)) = P v m1
Making call P panic = (m1 : Mem) × (call ≡ some (none, m1))
Making call P undefined = ⊥

pub Making-then :
    (call : Call) (P Q : RawVec → Mem → Type 0) (f : RawVec × Mem → Outcome (RawVec × Mem))
    (o : Outcome (RawVec × Mem))
    → ((v : RawVec) (m : Mem) → P v m → Making call Q (f (v, m)))
    → Making call P o
    → Making call Q (o >>= f)
Making-then call P Q f (done (v, m)) g h = g v m h
Making-then call P Q f panic g h = h
Making-then call P Q f undefined g h = h

pub Making-map :
    (call : Call) (P Q : RawVec → Mem → Type 0) (o : Outcome (RawVec × Mem))
    → ((v1 : RawVec) (m1 : Mem) → P v1 m1 → Q v1 m1)
    → Making call P o
    → Making call Q o
Making-map call P Q (done (v1, m1)) f h = f v1 m1 h
Making-map call P Q panic f h = h
Making-map call P Q undefined f h = h

pub Returns-Making :
    (call : Call) (Q : RawVec → Mem → Type 0) (o : Outcome (RawVec × Mem))
    → Returns (λ r. Q r.0 r.1) o
    → Making call Q o
Returns-Making call Q (done r) h = h
Returns-Making call Q panic h = absurd h
Returns-Making call Q undefined h = h

within-nothing : (p n a : ℕ) → n ≡ 0 → within p n a ≡ false
unfolding within
within-nothing p n a e = ground (arith, e)

over-Making :
    (h : Holding) (m : Mem) (R : ℕ → ℕ → Mem → Type 0) (P : RawVec → Mem → Type 0) (len cap : ℕ)
    (e : Call)
    → ((p k : ℕ) (m1 : Mem) → R p k m1 → P (record { ptr = p; len = len; cap = cap }) m1)
    → Ends h m R e
    → Making e P (over len cap e)
over-Making h m R P len cap none f g = absurd g
over-Making h m R P len cap (some (none, m1)) f g = (m1, refl)
over-Making h m R P len cap (some (some (p, k), m1)) f g = f p k m1 g

module _ {c : Config} (b : IsBuilt c) {s : Sys} (sys : IsSys s) (small : sys.page_bits ≤ b.bits)
    (gigantic : sys.page_bits ≤ 30) (dangling elem align : ℕ) (m : Mem) (ok : s.Ok m) where
  layout_ok :
      (n : ℕ)
      → IsLayout (layout_of elem align n)
      → from_size_align (n * elem) align ≡ some (layout_of elem align n)
  layout_ok n v = rw (le→leb (n * elem) (2 ^ 63 - align) v.fits) refl

  Allocated-Made :
      (len n : ℕ)
      → len ≤ n
      → IsLayout (layout_of elem align n)
      → (p k : ℕ) (m1 : Mem) → Allocated (holding c s) m m1 (layout_of elem align n) p k
      → s.Ok m1
      → Made c s elem align m (record { ptr = p; len = len; cap = n }) m1
  Allocated-Made len n le v p k m1 al ok1 = record {
    vec = record { is_layout = v; in_cap = le; held = λ pos. al.held };
    ok = ok1;
    fresh = al.fresh;
    owners = al.owners;
    bytes = al.bytes;
    others = al.others;
  }

  -- A vector without a buffer.
  Unbuffered-Made :
      (len cap : ℕ)
      → len ≤ cap
      → IsLayout (layout_of elem align cap)
      → cap * elem ≡ 0
      → Made c s elem align m (record { ptr = dangling; len = len; cap = cap }) m
  Unbuffered-Made len cap le v e = record {
    vec = record { is_layout = v; in_cap = le; held = λ pos. absurd (omega (arith, e)) };
    ok = ok;
    fresh = λ a h.
        absurd (ground (arith, h, extent-none b s c.mmap (layout_of elem align cap) dangling a e));
    owners = λ a h. refl;
    bytes = λ a h. refl;
    others = λ r l pos h. h;
  }

  module _ (n : ℕ) (v : IsLayout (layout_of elem align n)) (word : n < 2 ^ 64) where
    empty-IsLayout : (k : ℕ) → k * elem ≡ 0 → IsLayout (layout_of elem align k)
    empty-IsLayout k e = record {
      bits = v.bits;
      align_is = v.align_is;
      align_most = v.align_most;
      fits = omega (arith, e);
      room = omega (arith, e);
    }

    -- The capacity of a vector without a buffer.
    abbrev no_cap : ℕ
    no_cap = if elem == 0 then usize_mod - 1 else 0

    no_cap_bytes : no_cap * elem ≡ 0
    no_cap_bytes = elim (Bool-cases (elem == 0)) [
      | inl zst ↦ rw zst (ground (arith, zst))
      | inr sized ↦ rw sized (zero-mul elem)
    ]

    no_cap-enough : (n == 0 || elem == 0) ≡ true → n ≤ no_cap
    no_cap-enough nothing = elim (Bool-cases (elem == 0)) [
      | inl zst ↦ rw zst (omega arith)
      | inr sized ↦ rw sized (ground (arith, nothing, sized))
    ]

    no_bytes : (n == 0 || elem == 0) ≡ true → n * elem ≡ 0
    no_bytes nothing = elim (Bool-cases (n == 0)) [
      | inl empty ↦ ap (λ t. t * elem) ((==_iff n 0).0 empty) ∙ zero-mul elem
      | inr sized ↦
          let e : elem ≡ 0 = ground (arith, nothing, sized) in ap (λ t. n * t) e ∙ omega arith
    ]

    size-pos : (n == 0 || elem == 0) ≡ false → 0 < n * elem
    size-pos h = mul-pos (ground (arith, h)) (ground (arith, h))

    pub new-Made : Made c s elem align m (new dangling c s elem align) m
    new-Made =
        Unbuffered-Made 0 no_cap (omega arith) (empty-IsLayout no_cap no_cap_bytes) no_cap_bytes

    pub with_capacity-Made :
        Making
          (allocate_by c.mmap c s (layout_of elem align n) m)
          (λ v1 m1. Made c s elem align m v1 m1 × (v1.len ≡ 0) × (n ≤ v1.cap))
          (with_capacity dangling c s elem align n m)
    unfolding with_capacity
    with_capacity-Made = elim (Bool-cases (n == 0 || elem == 0)) [
      | inl nothing ↦ rw nothing (new-Made, refl, no_cap-enough nothing)
      | inr something ↦
          rw (something, layout_ok n v)
            (over-Making (holding c s) m _ _ 0 n (allocate_by c.mmap c s (layout_of elem align n) m)
              (λ p k m1 al.
                (Allocated-Made 0 n (omega arith) v p k m1 al.0 al.1, refl, omega arith))
              (allocate_by-Allocated b sys (layout_of elem align n) m v (size-pos something) ok
                c.mmap))
    ]

    -- `zeroed` makes a vector of the length asked for, whose bytes are zero and whose block nobody has had; nothing
    -- else in memory has changed. It panics only where the allocator reports that it is out of memory. The layout is
    -- one that `Layout::array` accepts.
    pub zeroed-Made :
        Making
          (allocate_zeroed_by c.mmap c s (layout_of elem align n) m)
          (λ v1 m1. Made c s elem align m v1 m1 × (v1.len ≡ n) × Zeros m1 v1.ptr (n * elem))
          (zeroed dangling c s elem align n m)
    unfolding zeroed with_capacity
    zeroed-Made = elim (Bool-cases (n == 0 || elem == 0)) [
      | inl nothing ↦ rw nothing (
        Unbuffered-Made n no_cap (no_cap-enough nothing) (empty-IsLayout no_cap no_cap_bytes)
            no_cap_bytes,
        refl,
        λ a h. absurd (ground (arith, h, within-nothing dangling (n * elem) a (no_bytes nothing))),
      )
      | inr something ↦
          rw (something, layout_ok n v)
            (over-Making (holding c s) m _ _ n n
              (allocate_zeroed_by c.mmap c s (layout_of elem align n) m)
              (λ p k m1 al. (
                Allocated-Made n n (omega arith) v p k m1 al.0.0 al.1,
                refl,
                λ a h.
                    al.0.1 a (
                      within-sub p k p (n * elem) a (omega arith) (omega (arith, al.0.0.enough)) h),
              ))
              (allocate_zeroed_by-Allocated b sys (layout_of elem align n) m v (size-pos something)
                ok c.mmap))
    ]
