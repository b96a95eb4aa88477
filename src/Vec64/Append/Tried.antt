-- ===== src/Vec64/Append/Tried.antt =====
-- `try_mremap_append` appends, or has changed nothing.
use vec.Base.{
  ℕ, ◌+◌, ◌-◌, ◌*◌, ◌%◌, ◌≤◌, ◌<◌, ◌≡◌, refl, sym, ap, subst, ◌∙◌, Option, none, some, true, false,
  not, ◌&&◌, ◌||◌, bit_and, within, arith, leb, ltb, ◌==◌, Bool-cases, inl, inr,
}
use vec.Base.Bits.{masked-mod}
use vec.Base.Usize.{usize_sub}
use vec.Base.Outcome.{Outcome, done}
use vec.Build.{Config, IsBuilt}
use vec.Build.Pow2.{is_power_of_two}
use vec.PageSize.{uses_mmap, gigantic_page}
use vec.Machine.{free, Mem, Sys, fixed, map_failed}
use vec.Machine.Effect.{IsSys, KeepsTarget, both-Unless, Paged, Placed, Unless, Unchanged}
use vec.MmapAlloc.Tail.{sum-whole}
use vec.MmapAlloc.Mapping.{mapped-enough}
use vec.Vec64.Raw.{RawVec}
use vec.Vec64.Held.{layout_of, IsVec, extent, cap-extent, cap-owned, mapped, extent-whole}
use vec.Vec64.Append.{appended, try_mremap_append}
use vec.Vec64.Append.Free.{holding-stays}
use vec.Vec64.Append.Elements.{Separate, Appends, sum_bytes}
use vec.Vec64.Append.Pages.{mapped_size-whole, placed-Appends}
use native.Mathlib.Nat.{mul-le-mul_right}
use vec.Vec64.Splice.Kept.{within-sub}

-- What the documentation of `Vec::reserve` says of a vector that is large enough.
abbrev pub Reserves : (RawVec → ℕ → Mem → Outcome (RawVec × Mem)) → Type 0
Reserves reserve = (v : RawVec) (n : ℕ) (m : Mem) → v.len + n ≤ v.cap → reserve v n m ≡ done (v, m)

-- The other vector's mapping is not rounded to gigantic pages.
abbrev pub IsPlain : Config → ℕ → RawVec → Type 0
IsPlain c elem w = (c.giant_pages && leb gigantic_page (w.cap * elem)) ≡ false

module _ {c : Config} (b : IsBuilt c) {s : Sys} (sys : IsSys s) (small : sys.page_bits ≤ b.bits)
    (gigantic : sys.page_bits ≤ 30) (elem align : ℕ) (v w : RawVec) (m : Mem)
    (vv : IsVec c s elem align v m) (vw : IsVec c s elem align w m)
    (sep : Separate c s elem align v w) (fits : v.len + w.len ≤ v.cap) (ok : s.Ok m) where
  abbrev pub Tried : Option RawVec × Mem → Type 0
  Tried (some v1, m1) = Appends c s elem align v w m v1 m1
  Tried (none, m1) = Unchanged m m1 × s.Ok m1

  pub still :
      (x : RawVec) (m1 : Mem)
      → Unchanged m m1
      → IsVec c s elem align x m
      → IsVec c s elem align x m1
  still x m1 un vx = record {
    is_layout = vx.is_layout;
    in_cap = vx.in_cap;
    held = λ pos.
        holding-stays c s c.mmap m m1 x.ptr _ (un.block x.ptr) (λ a h. un.owner a) (vx.held pos);
  }

  -- After a call that has changed nothing.
  pub Appends-Unchanged :
      (m1 : Mem) (v2 : RawVec) (m2 : Mem)
      → Unchanged m m1
      → Appends c s elem align v w m1 v2 m2
      → Appends c s elem align v w m v2 m2
  Appends-Unchanged m1 v2 m2 un app = record {
    result = app.result;
    old = λ i h.
        app.old i h
        ∙ un.byte (v.ptr + i)
            (cap-owned b sys vv i (omega (arith, sum_bytes b sys elem align v w m vv vw sep fits)));
    new = λ i h.
        app.new i h
        ∙ un.byte (w.ptr + i)
            (cap-owned b sys vw i (omega (arith, mul-le-mul_right elem vw.in_cap)));
    vec = app.vec;
    ok = app.ok;
    released = app.released;
    owners = λ a h. app.owners a h ∙ un.owner a;
    bytes = λ a h away gap. app.bytes a (ground (arith, un.owner a)) away gap ∙ un.byte a h;
    others = λ r l pos vl off_v off_w h.
        app.others r l pos vl off_v off_w
          (holding-stays c s c.mmap m m1 r l (un.block r) (λ a g. un.owner a) h);
  }

  module _ (on : c.mmap ≡ true) (sized : 0 < elem) (some_elements : 0 < w.len)
      (tight : w.cap ≡ w.len) (src_whole : (w.len * elem) % c.huge_page ≡ 0)
      (dst_whole : (v.len * elem) % s.page_size ≡ 0) (plain : IsPlain c elem w)
      (v_large : uses_mmap c (v.cap * elem) ≡ true)
      (w_large : uses_mmap c (w.cap * elem) ≡ true) where
    w_extent : extent c s elem align w ≡ w.len * elem
    w_extent =
        (mapped b sys vw on w_large).1
        ∙ mapped_size-whole b (w.cap * elem) w_large
            (mapped-enough b sys (layout_of elem align w.cap) vw.is_layout w_large).1
            (omega (arith, vw.is_layout.room)) (rw tight src_whole) plain
        ∙ ap (λ t. t * elem) tight

    appended-Tried :
        (r : ℕ) (m1 : Mem)
        → s.Ok m1
        → Unless
            (r == map_failed)
            m
            m1
            (Placed free m m1 w.ptr (w.len * elem) (v.ptr + v.len * elem))
        → Tried (appended c s elem align v w (r, m1))
    appended-Tried r m1 ok1 h = elim (Bool-cases (r == map_failed)) [
      | inl failed ↦ rw failed ((rw failed at h), ok1)
      | inr placed ↦ rw placed (
          placed-Appends b sys elem align v w m vv vw sep fits on v_large w_extent ok1 (
            subst (λ n. Placed free m m1 w.ptr n (v.ptr + v.len * elem)) (sym w_extent)
              (rw placed at h)))
    ]

    remapped-Tried :
        KeepsTarget s
        → Tried (
            appended c s elem align v w
              (s.mremap w.ptr (w.len * elem) (w.len * elem) (fixed (v.ptr + v.len * elem)) m))
    remapped-Tried keeps =
        let (at_v, ev) = mapped b sys vv on v_large in
        let (at_w, ew) = mapped b sys vw on w_large in
        appended-Tried _ _ (sys.mremap_ok _ _ _ _ m ok) (
          both-Unless _ _ _ _
            (keeps.fixed_kept w.ptr (w.len * elem) (v.ptr + v.len * elem) m ok onto)
            (sys.mremap_fixed_lem w.ptr (w.len * elem) (v.ptr + v.len * elem) m ok at_w.whole
              (sum-whole s.page_size v.ptr (v.len * elem) at_v.whole dst_whole)
              (subst (λ n. n % s.page_size ≡ 0) w_extent
                (extent-whole b sys vw small gigantic on w_large).0)
              (λ a h. at_w.mapped a (subst (λ n. within w.ptr n a ≡ true) (sym w_extent ∙ ew) h))
              onto
              (λ a h. ground (
                arith,
                sep a,
                dst-inside a,
                subst (λ n. within w.ptr n a ≡ true) (sym w_extent) h,
              ))))
      where
        dst-inside :
            (a : ℕ)
            → within (v.ptr + v.len * elem) (w.len * elem) a ≡ true
            → within v.ptr (extent c s elem align v) a ≡ true
        dst-inside a h =
            within-sub v.ptr _ _ _ a (omega arith)
              (omega (arith, sum_bytes b sys elem align v w m vv vw sep fits, cap-extent b sys vv))
              h

        onto : Paged m (v.ptr + v.len * elem) (w.len * elem)
        onto a h =
            let (at_v, ev) = mapped b sys vv on v_large in
            at_v.mapped a (subst (λ n. within v.ptr n a ≡ true) ev (dst-inside a h))

  unchanged : Tried (none, m)
  unchanged = (record { owner = λ a. refl; block = λ q. refl; byte = λ a h. refl }, ok)

  pub try_mremap_append-Tried :
      KeepsTarget s
      → c.mmap ≡ true
      → 0 < w.len
      → IsPlain c elem w
      → Tried (try_mremap_append c s elem align v w m)
  unfolding try_mremap_append
  try_mremap_append-Tried keeps on some_elements plain =
      let untight = not (w.cap == w.len) in
      let part = not (bit_and (w.len * elem) (usize_sub c.huge_page 1) == 0) in
      let odd = s.page_size == 0 || not (is_power_of_two s.page_size) in
      let off = not (bit_and (v.len * elem) (usize_sub s.page_size 1) == 0) in
      let heap = not (uses_mmap c (v.cap * elem)) || not (uses_mmap c (w.cap * elem)) in
      elim (Bool-cases (elem == 0)) [
        | inl stop ↦ rw stop unchanged
        | inr sized ↦ elim (Bool-cases (ltb (v.cap - v.len) w.len)) [
          | inl stop ↦ rw (sized, stop) unchanged
          | inr room ↦ elim (Bool-cases untight) [
            | inl stop ↦ rw (sized, room, stop) unchanged
            | inr tight ↦ elim (Bool-cases part) [
              | inl stop ↦ rw (sized, room, tight, stop) unchanged
              | inr whole ↦ elim (Bool-cases odd) [
                | inl stop ↦ rw (sized, room, tight, whole, stop) unchanged
                | inr page ↦ elim (Bool-cases off) [
                  | inl stop ↦ rw (sized, room, tight, whole, page, stop) unchanged
                  | inr at ↦ elim (Bool-cases heap) [
                    | inl stop ↦ rw (sized, room, tight, whole, page, at, stop) unchanged
                    | inr large ↦
                        rw (sized, room, tight, whole, page, at, large)
                          (remapped-Tried on (ground (arith, sized)) some_elements
                            (ground (arith, tight))
                            (masked-mod b.bits (w.len * elem) c.huge_page b.power b.most
                              (ground (arith, whole)))
                            (masked-mod sys.page_bits (v.len * elem) s.page_size sys.page_is
                              sys.page_most (ground (arith, at)))
                            plain (ground (arith, large)) (ground (arith, large)) keeps)
                  ]
                ]
              ]
            ]
          ]
        ]
      ]
