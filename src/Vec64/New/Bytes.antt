-- ===== src/Vec64/New/Bytes.antt =====
-- A vector of bytes as a vector of something else: the block is the same, so the allocator will take
-- it back.
use vec.Base.{
  ℕ, ◌*◌, ◌/◌, ◌%◌, ◌^◌, ◌≤◌, ◌<◌, ◌≡◌, ◌≢◌, refl, sym, ap, subst, ◌∙◌, ◌⊎◌, Bool, true, false, not,
  some, ◌==◌, ltb, arith, if◌then◌else◌, Bool-cases, inl, inr, ==_iff,
}
use vec.Base.Outcome.{Outcome, done, panic, undefined}
use vec.Build.{Config}
use vec.PageSize.{uses_mmap}
use vec.Machine.{Mem, Sys}
use vec.Alloc64.Heap.{HeapBlock}
use vec.MmapAlloc.Hybrid.{MappedBlock}
use vec.Vec64.Raw.{RawVec}
use vec.Vec64.Held.{holding_by, IsVec}
use vec.Vec64.New.{from_vec64_u8}
use native.Mathlib.Nat.{div-add-mod', pow-le-pow_right, le_of_mul-le-mul_right}

-- The two vectors have the same address and the same bytes, and the new one holds the block.
pub record SameBytes (c : Config) (s : Sys) (elem align : ℕ) (buf : RawVec) (m : Mem) (v : RawVec)
    : Type 0 where
  pub ptr : v.ptr ≡ buf.ptr
  pub len : v.len * elem ≡ buf.len
  pub cap : v.cap * elem ≡ buf.cap
  pub vec : IsVec c s elem align v m

-- What the conversion may end in.
abbrev pub Converts : Config → Sys → (elem align : ℕ) → RawVec → Mem → Outcome RawVec → Type 0
Converts c s elem align buf m (done v) = SameBytes c s elem align buf m v
Converts c s elem align buf m panic = (elem ≡ 0) ⊎ ((buf.len % elem ≢ 0) ⊎ (buf.cap % elem ≢ 0))
Converts c s elem align buf m undefined = ⊥

raised_small : (a : ℕ) → a ≤ 64 → (if ltb a 64 then 64 else a) ≡ 64
raised_small a h = elim (Bool-cases (ltb a 64)) [
  | inl below ↦ rw below refl
  | inr at ↦ rw at (ground (arith, at, h))
]

HeapBlock-align :
    (m : Mem) (p n a a' : ℕ)
    → a ≤ 64
    → a' ≤ 64
    → HeapBlock m p (record { size = n; align = a })
    → HeapBlock m p (record { size = n; align = a' })
HeapBlock-align m p n a a' h g held =
    let same : (if ltb a 64 then 64 else a) ≡ (if ltb a' 64 then 64 else a') =
      raised_small a h ∙ sym (raised_small a' g) in
    record {
      at = held.at ∙ ap (λ t. some (record { size = n; align = t })) same;
      bytes_held = held.bytes_held;
    }

-- A block is held for every layout of its size and an alignment of at most 64.
holds-align :
    (c : Config) (s : Sys) (on : Bool) (m : Mem) (p n a a' : ℕ)
    → a ≤ 64
    → a' ≤ 64
    → (holding_by on c s).Holds m p (record { size = n; align = a })
    → (holding_by on c s).Holds m p (record { size = n; align = a' })
holds-align c s true m p n a a' h g held = elim (Bool-cases (uses_mmap c n)) [
  | inl large ↦
      let at : MappedBlock c s m p (record { size = n; align = a }) = (rw large at held) in
      rw large (record { mapped = at.mapped; whole = at.whole })
  | inr little ↦ rw little (HeapBlock-align m p n a a' h g (rw little at held))
]
holds-align c s false m p n a a' h g held = HeapBlock-align m p n a a' h g held

-- From a vector of bytes that holds its block, `from_vec64_u8` makes a vector at the same address with
-- the same bytes, which holds the same block: the layout by which it will be given back is
-- one that the allocator accepts. It panics only where the sizes do not divide. The alignment of the elements is
-- a power of two of at most 64.
pub from_vec64_u8-SameBytes :
    (c : Config) (s : Sys) (elem align k : ℕ) (buf : RawVec) (m : Mem)
    → align ≡ 2 ^ k
    → k ≤ 6
    → IsVec c s 1 1 buf m
    → Converts c s elem align buf m (from_vec64_u8 elem buf)
unfolding from_vec64_u8
from_vec64_u8-SameBytes c s elem align k buf m e small vec = elim (Bool-cases (elem == 0)) [
  | inl zst ↦ rw zst (inl ((==_iff elem 0).0 zst))
  | inr sized ↦ elim (Bool-cases (not (buf.len % elem == 0))) [
    | inl odd ↦ rw (sized, odd) (inr (inl (λ h. ground (arith, odd, h))))
    | inr len_whole ↦ elim (Bool-cases (not (buf.cap % elem == 0))) [
      | inl odd ↦ rw (sized, len_whole, odd) (inr (inr (λ h. ground (arith, odd, h))))
      | inr cap_whole ↦
          rw (sized, len_whole, cap_whole)
            (converted (ground (arith, sized)) (ground (arith, len_whole))
              (ground (arith, cap_whole)))
    ]
  ]
]
  where
    align_small : align ≤ 64
    align_small = omega (arith, e, pow-le-pow_right {n = 2} (omega arith) {i = k} {j = 6} small)

    whole : (n : ℕ) → n % elem ≡ 0 → n / elem * elem ≡ n
    whole n h = omega (arith, div-add-mod' n elem, h)

    converted :
        0 < elem
        → buf.len % elem ≡ 0
        → buf.cap % elem ≡ 0
        → SameBytes c s elem align buf m
            (record { ptr = buf.ptr; len = buf.len / elem; cap = buf.cap / elem })
    converted pos hl hc = record {
      ptr = refl;
      len = whole buf.len hl;
      cap = whole buf.cap hc;
      vec = record {
        is_layout = record {
          bits = k;
          align_is = e;
          align_most = omega (arith, small);
          fits = omega (arith, whole buf.cap hc, vec.is_layout.room, align_small);
          room = omega (arith, whole buf.cap hc, vec.is_layout.room);
        };
        in_cap =
            le_of_mul-le-mul_right {k = elem}
              (omega (arith, whole buf.len hl, whole buf.cap hc, vec.in_cap)) pos;
        held = λ h.
            subst
              (λ n. (holding_by c.mmap c s).Holds m buf.ptr (record { size = n; align = align }))
              (omega (arith, whole buf.cap hc))
              (holds-align c s c.mmap m buf.ptr (buf.cap * 1) 1 align (omega arith) align_small
                (vec.held (omega (arith, whole buf.cap hc, h))));
      };
    }
