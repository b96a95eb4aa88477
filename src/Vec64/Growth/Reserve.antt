-- ===== src/Vec64/Growth/Reserve.antt =====
-- Room made through the allocators of the crate keeps what the documentation of `Vec::reserve` promises.
use vec.Base.{
  ℕ, ◌+◌, ◌-◌, ◌*◌, ◌^◌, ◌≤◌, ◌<◌, ◌≡◌, refl, sym, ap, ◌∙◌, [], none, some, ◌||◌, leb, ltb,
  if◌then◌else◌, ◌==◌, arith, Bool-cases, inl, inr, ==_iff, le→leb, leb→le,
}
use vec.Build.{Config, IsBuilt}
use vec.Machine.{Mem, Sys}
use vec.Machine.Effect.{IsSys}
use vec.Allocator.{IsLayout, Allocated, Resized, Ends, Call, Holding}
use vec.Vec64.Raw.{RawVec}
use vec.Vec64.Held.{holding, layout_of, IsVec, extent-none, size-extent}
use vec.Vec64.New.{allocate_by, over}
use vec.Vec64.New.Fresh.{allocate_by-Allocated}
use vec.Vec64.Append.Free.{apart_ne}
use vec.Vec64.Chunks.Contents.{contents, read-eq}
use vec.Vec64.Items.Extends.{Extends, Extends-refl}
use vec.Vec64.Items.Pushed.{Extending, IsReserve}
use vec.Vec64.Items.Collecting.{no_contents}
use vec.Vec64.Growth.{grow_by, grow_to, reserve_by}
use vec.Vec64.Growth.Kept.{grow_by-Resized}
use native.Mathlib.Nat.{mul-pos, mul-le-mul_right, zero-mul}
use mathlib.Core.List.{append-nil}

over-Extending :
    (h : Holding) (m : Mem) (R : ℕ → ℕ → Mem → Type 0) (P : RawVec → Mem → Type 0) (v : RawVec)
    (n len cap : ℕ) (e : Call)
    → v.cap < v.len + n
    → ((p k : ℕ) (m1 : Mem) → R p k m1 → P (record { ptr = p; len = len; cap = cap }) m1)
    → Ends h m R e
    → Extending v n P (over len cap e)
over-Extending h m R P v n len cap none full f g = absurd g
over-Extending h m R P v n len cap (some (none, m1)) full f g = full
over-Extending h m R P v n len cap (some (some (p, k), m1)) full f g = f p k m1 g

module _ {c : Config} (b : IsBuilt c) {s : Sys} (sys : IsSys s) (small : sys.page_bits ≤ b.bits)
    (gigantic : sys.page_bits ≤ 30) (elem align : ℕ) (v : RawVec) (m : Mem)
    (vv : IsVec c s elem align v m) (ok : s.Ok m) (cap : ℕ) (more : v.cap < cap) (sized : 0 < elem)
    (vl : IsLayout (layout_of elem align cap)) where
  abbrev wider : ℕ → RawVec
  wider p = record { ptr = p; len = v.len; cap = cap }

  -- A first buffer.
  Allocated-Extends :
      (p k : ℕ) (m1 : Mem)
      → v.cap ≡ 0
      → Allocated (holding c s) m m1 (layout_of elem align cap) p k
      → s.Ok m1
      → Extends c s elem align v m [] 0 (wider p) m1
  Allocated-Extends p k m1 empty al ok1 =
      let no_len : v.len ≡ 0 = omega (arith, vv.in_cap) in
      let no_bytes : v.cap * elem ≡ 0 = ap (λ t. t * elem) empty ∙ zero-mul elem in
      record {
        len = omega arith;
        bytes =
            no_contents elem (wider p) m1 no_len
            ∙ sym (no_contents elem v m no_len)
            ∙ sym (append-nil (contents elem v m));
        vec = record { is_layout = vl; in_cap = omega (arith, vv.in_cap); held = λ pos. al.held };
        ok = ok1;
        taken = λ a h. inl (al.fresh a h);
        released = λ a h g. absurd (
            ground
              (arith, h, extent-none b s c.mmap (layout_of elem align v.cap) v.ptr a no_bytes));
        owners = λ a h g. al.owners a g;
        kept = λ a h g. al.bytes a h;
        others = λ r l pos x clear h. al.others r l pos h;
      }

  -- A larger buffer.
  Resized-Extends :
      (q k : ℕ) (m1 : Mem)
      → 0 < v.cap * elem
      → Resized
          (holding c s)
          m
          m1
          v.ptr
          (layout_of elem align v.cap)
          q
          (layout_of elem align cap)
          k
          (v.cap * elem)
      → s.Ok m1
      → Extends c s elem align v m [] 0 (wider q) m1
  Resized-Extends q k m1 full re ok1 = record {
    len = omega arith;
    bytes =
        read-eq v.ptr q (v.len * elem) m m1
          (λ i h. re.kept i (omega (arith, mul-le-mul_right elem vv.in_cap)))
        ∙ sym (append-nil (contents elem v m));
    vec = record { is_layout = vl; in_cap = omega (arith, vv.in_cap); held = λ pos. re.held };
    ok = ok1;
    taken = re.disjoint;
    released = re.released;
    owners = re.owners;
    kept = re.bytes;
    others = λ r l pos x clear h.
        re.others r l pos
          (apart_ne b sys small gigantic r _ v.ptr _ (omega (arith, size-extent b sys l x c.mmap))
            (omega (arith, size-extent b sys (layout_of elem align v.cap) vv.is_layout c.mmap))
            clear)
          clear h;
  }

  abbrev Roomy : ℕ → RawVec → Mem → Type 0
  Roomy n v1 m1 = Extends c s elem align v m [] 0 v1 m1 × (v1.len + n ≤ v1.cap)

  moved :
      (n : ℕ)
      → v.cap < v.len + n
      → v.len + n ≤ cap
      → Extending v n (Roomy n) (
          over v.len cap (
            if v.cap == 0
            then allocate_by c.mmap c s (layout_of elem align cap) m
            else grow_by c.mmap c s v.ptr
                (layout_of elem align v.cap)
                (layout_of elem align cap)
                m))
  moved n full fits = elim (Bool-cases (v.cap == 0)) [
    | inl empty ↦ rw empty (
        over-Extending (holding c s) m _ (Roomy n) v n v.len cap
          (allocate_by c.mmap c s (layout_of elem align cap) m) full
          (λ p k m1 al. (Allocated-Extends p k m1 ((==_iff _ 0).0 empty) al.0 al.1, fits))
          (allocate_by-Allocated b sys (layout_of elem align cap) m vl (mul-pos (omega arith) sized)
            ok c.mmap))
    | inr buffer ↦
        let pos : 0 < v.cap * elem = mul-pos (ground (arith, buffer)) sized in
        rw buffer (
          over-Extending (holding c s) m _ (Roomy n) v n v.len cap
            (grow_by c.mmap c s v.ptr (layout_of elem align v.cap) (layout_of elem align cap) m)
            full (λ q k m1 re. (Resized-Extends q k m1 pos re.0 re.1, fits))
            (grow_by-Resized b sys small gigantic v.ptr (layout_of elem align v.cap)
              (layout_of elem align cap) m vv.is_layout vl pos (mul-le-mul_right elem (omega arith))
              c.mmap refl ok (vv.held pos)))
  ]

module _ {c : Config} (b : IsBuilt c) {s : Sys} (sys : IsSys s) (small : sys.page_bits ≤ b.bits)
    (gigantic : sys.page_bits ≤ 30) (elem align : ℕ) (slack : ℕ → ℕ → ℕ) where
  grow_to-Roomy :
      (v : RawVec) (n cap : ℕ) (m : Mem) (vv : IsVec c s elem align v m) (ok : s.Ok m)
      → v.cap < v.len + n
      → v.len + n ≤ cap
      → Extending v n
          (λ v1 m1. Extends c s elem align v m [] 0 v1 m1 × (v1.len + n ≤ v1.cap))
          (grow_to slack c s elem align cap v m)
  unfolding grow_to
  grow_to-Roomy v n cap m vv ok full fits =
      elim (Bool-cases
        (elem == 0 || ltb (2 ^ 63 - align) (cap * elem) || ltb (2 ^ 63 - 64) (cap * elem))) [
          | inl refused ↦ rw refused full
          | inr fine ↦
              let vl : IsLayout (layout_of elem align cap) = record {
                bits = vv.is_layout.bits;
                align_is = vv.is_layout.align_is;
                align_most = vv.is_layout.align_most;
                fits = ground (arith, fine);
                room = ground (arith, fine);
              } in
              rw fine (
                moved b sys small gigantic elem align v m vv ok cap (omega arith)
                  (ground (arith, fine)) vl n full fits)
        ]

  -- Making room through the allocators keeps the promise of `Vec::reserve`: where there is room nothing happens; elsewhere the vector
  -- gets the room, keeps its length and its elements, and holds its new block, which was its own or free; what it gave up
  -- is free, and nothing else has changed. It panics only where there was no room, and never ends in undefined behaviour. Pages of the system are
  -- no larger than those of `mapped_size`.
  pub reserve_by-IsReserve : IsReserve c s elem align (reserve_by slack c s elem align)
  unfolding reserve_by
  reserve_by-IsReserve = record {
    enough = λ v n m h. rw (le→leb (v.len + n) v.cap h) refl;
    more = λ v n m vv ok. elim (Bool-cases (leb (v.len + n) v.cap)) [
      | inl room ↦ rw room (Extends-refl v m vv ok, leb→le _ _ room)
      | inr tight ↦ rw tight (
          grow_to-Roomy v n (v.len + n + slack v.cap n) m vv ok (ground (arith, tight))
            (omega arith))
    ];
  }
