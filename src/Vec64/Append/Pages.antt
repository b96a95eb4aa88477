-- ===== src/Vec64/Append/Pages.antt =====
-- Taking over the pages of the other vector appends its elements.
use vec.Base.{
  ℕ, ◌+◌, ◌*◌, ◌%◌, ◌^◌, ◌≤◌, ◌<◌, ◌≡◌, refl, subst, true, false, ◌&&◌, within, within-add, arith,
  leb,
}
use vec.Build.{Config, IsBuilt}
use vec.PageSize.{uses_mmap, mapped_size, gigantic_page}
use vec.PageSize.Laws.{IsRounded-least, mapped_size-IsRounded, unit}
use vec.Machine.{free, paged, Mem, Sys}
use vec.Machine.Effect.{IsSys, Placed}
use vec.Vec64.Raw.{RawVec}
use vec.Vec64.Held.{IsVec, extent, cap-extent, cap-owned, mapped}
use vec.Vec64.Append.Free.{holding-stays}
use vec.Vec64.Append.Elements.{Separate, Appends, sum_bytes}
use vec.Vec64.Splice.Kept.{within-sub, within-below}

-- A mapping whose size is a multiple of `HUGE_PAGE`, and that is not rounded to gigantic pages, is as large as asked.
pub mapped_size-whole :
    {c : Config} (b : IsBuilt c) (n : ℕ)
    → uses_mmap c n ≡ true
    → 0 < n
    → n ≤ 2 ^ 63
    → n % c.huge_page ≡ 0
    → (c.giant_pages && leb gigantic_page n) ≡ false
    → mapped_size c n ≡ n
mapped_size-whole {c} b n on pos small whole plain =
    let r = mapped_size-IsRounded b n pos small in
    let plain_unit : unit c n ≡ c.huge_page = rw plain refl in
    omega (arith, r.enough, IsRounded-least n r (rw plain whole) (omega arith))

module _ {c : Config} (b : IsBuilt c) {s : Sys} (sys : IsSys s) (elem align : ℕ) (v w : RawVec)
    (m : Mem) (vv : IsVec c s elem align v m) (vw : IsVec c s elem align w m)
    (sep : Separate c s elem align v w) (fits : v.len + w.len ≤ v.cap) (on : c.mmap ≡ true)
    (v_large : uses_mmap c (v.cap * elem) ≡ true) (ew : extent c s elem align w ≡ w.len * elem)
    {m1 : Mem} (ok1 : s.Ok m1)
    (pl : Placed free m m1 w.ptr (extent c s elem align w) (v.ptr + v.len * elem)) where
  abbrev dst : ℕ
  dst = v.ptr + v.len * elem

  abbrev size : ℕ
  size = extent c s elem align w

  dst-inside : (a : ℕ) → within dst size a ≡ true → within v.ptr (extent c s elem align v) a ≡ true
  dst-inside a h =
      within-sub v.ptr _ dst size a (omega arith)
        (omega (arith, ew, sum_bytes b sys elem align v w m vv vw sep fits, cap-extent b sys vv)) h

  dst-Paged : (a : ℕ) → within dst size a ≡ true → m.owner a ≡ paged
  dst-Paged a h =
      let (at, e) = mapped b sys vv on v_large in
      at.mapped a (subst (λ n. within v.ptr n a ≡ true) e (dst-inside a h))

  same_owner : (a : ℕ) → within w.ptr size a ≡ false → m1.owner a ≡ m.owner a
  same_owner a h = ground (arith, pl.owner a, dst-Paged a, h)

  pub placed-Appends : Appends c s elem align v w m (record v { len = v.len + w.len }) m1
  placed-Appends = record {
    result = refl;
    old = λ i h.
        let inside =
          within-add v.ptr (extent c s elem align v) i
            (omega (arith, sum_bytes b sys elem align v w m vv vw sep fits, cap-extent b sys vv)) in
        pl.byte (v.ptr + i)
          (cap-owned b sys vv i (omega (arith, sum_bytes b sys elem align v w m vv vw sep fits)))
          (sep (v.ptr + i) inside) (within-below _ _ _ (omega arith));
    new = λ i h. pl.moved i (omega (arith, ew));
    vec = record {
      is_layout = vv.is_layout;
      in_cap = fits;
      held = λ pos.
          holding-stays c s c.mmap m m1 v.ptr _ (pl.blocks v.ptr) (λ a g. same_owner a (sep a g))
            (vv.held pos);
    };
    ok = ok1;
    released = λ a h. ground (arith, pl.owner a, h, dst-inside a, sep a);
    owners = same_owner;
    bytes = λ a h away gap. pl.byte a h gap (ground (arith, dst-inside a, away));
    others = λ r l pos vl off_v off_w h.
        holding-stays c s c.mmap m m1 r l (pl.blocks r) (λ a g. same_owner a (off_w a g)) h;
  }
