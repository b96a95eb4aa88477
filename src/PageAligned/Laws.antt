-- ===== src/PageAligned/Laws.antt =====
-- The step is exact, the two lengths are the nearest ones, and the checks agree with the step.
use vec.Base.{
  ℕ, zero, suc, ◌+◌, ◌-◌, ◌*◌, ◌/◌, ◌%◌, ◌≤◌, ◌<◌, ◌≡◌, ◌∣◌, ◌↔◌, sym, ap, ◌∙◌, some, true, bit_and,
  ◌==◌, if◌then◌else◌, arith, Bool-cases, inl, inr, subst, ==_iff, dec_lt,
}
use vec.Base.Bits.{bit_and_low_mask}
use vec.Base.Usize.{usize_sub}
use vec.Build.{Config, IsBuilt}
use vec.PageSize.{uses_mmap}
use vec.PageSize.Laws.{huge_page-bounds, multiples-apart}
use vec.PageAligned.{
  Shape, step_rows_inner, page_align_t_step, is_page_aligned, next_page_aligned_len,
  prev_page_aligned_len, aligned_len_step,
}
use vec.PageAligned.Gcd.{gcd, gcd-dvd, gcd-dvd_mul}
use native.Mathlib.Nat.{
  dvd-mul_left, mul-dvd-mul_right, dvd_of_mul-dvd-mul_right, dvd_trans, div-mul_cancel,
  mod-eq-zero_of_dvd, dvd_of_mod-eq-zero, pos_of_dvd_of_pos, mul-dvd-mul_left, mul-mod_left,
  div-mul-le_self, div-add-mod', mod-lt, suc-mul,
}

-- The multiples of `s` on either side of `len`.
low_is : ℕ → ℕ → ℕ
low_is len s = len / s * s

high_is : ℕ → ℕ → ℕ
high_is len s = if len % s == 0 then len else len + (s - len % s)

low-bounds :
    (len s : ℕ) → 0 < s → (low_is len s ≤ len) × (len < low_is len s + s) × (low_is len s % s ≡ 0)
unfolding low_is
low-bounds len s h = (
  div-mul-le_self len s,
  omega (arith, div-add-mod' len s, mod-lt len h),
  mul-mod_left (len / s) s,
)

high-bounds :
    (len s : ℕ)
    → 0 < s
    → (len ≤ high_is len s) × (high_is len s < len + s) × (high_is len s % s ≡ 0)
unfolding high_is
high-bounds len s h = elim (Bool-cases (len % s == 0)) [
  | inl whole ↦ rw whole (omega arith, omega arith, (==_iff _ _).0 whole)
  | inr part ↦ rw part (omega (arith, mod-lt len h), ground arith, up)
]
  where
    next : len + (s - len % s) ≡ suc (len / s) * s
    next = omega (arith, div-add-mod' len s, mod-lt len h, suc-mul (len / s) s)

    up : (len + (s - len % s)) % s ≡ 0
    up = ap (λ t. t % s) next ∙ mul-mod_left (suc (len / s)) s

module _ {c : Config} (b : IsBuilt c) (on : c.mmap ≡ true) where
  gcd_pos : (elem : ℕ) → 0 < gcd elem c.huge_page
  gcd_pos elem = pos_of_dvd_of_pos (gcd-dvd elem c.huge_page).1 (omega (arith, huge_page-bounds b))

  -- A length fills whole huge pages exactly if it is a multiple of the quotient by the divisor.
  whole_iff :
      (elem n : ℕ) → (n * elem % c.huge_page ≡ 0) ↔ (n % (c.huge_page / gcd elem c.huge_page) ≡ 0)
  whole_iff elem n = (to, from)
    where
      g : ℕ
      g = gcd elem c.huge_page

      step : ℕ
      step = c.huge_page / g

      whole : step * g ≡ c.huge_page
      whole = div-mul_cancel g (gcd-dvd elem c.huge_page).1

      to : n * elem % c.huge_page ≡ 0 → n % step ≡ 0
      to h = mod-eq-zero_of_dvd step (
          dvd_of_mul-dvd-mul_right step (gcd_pos elem) (
            subst (λ t. t ∣ n * g) (sym whole)
              (gcd-dvd_mul elem c.huge_page c.huge_page n (dvd_of_mod-eq-zero c.huge_page h)
                (dvd-mul_left c.huge_page n))))

      from : n % step ≡ 0 → n * elem % c.huge_page ≡ 0
      from h = mod-eq-zero_of_dvd c.huge_page (
          subst (λ t. t ∣ n * elem) whole
            (dvd_trans (step * g) (mul-dvd-mul_right step (dvd_of_mod-eq-zero step h) g)
              (mul-dvd-mul_left g n (gcd-dvd elem c.huge_page).0)))

  -- The quotient that the step is, for an element that takes space.
  rows : ℕ → ℕ
  rows elem = c.huge_page / gcd elem c.huge_page

  rows_pos : (elem : ℕ) → 0 < rows elem
  unfolding rows
  rows_pos elem =
      let e = div-mul_cancel (gcd elem c.huge_page) (gcd-dvd elem c.huge_page).1 in
      positive (c.huge_page / gcd elem c.huge_page) e
    where
      positive : (s : ℕ) → s * gcd elem c.huge_page ≡ c.huge_page → 0 < s
      positive zero e = absurd (omega (arith, e, huge_page-bounds b))
      positive (suc s) e = omega arith

  step_is_rows : (elem : ℕ) → 0 < elem → page_align_t_step c elem ≡ some (rows elem)
  unfolding page_align_t_step step_rows_inner rows
  step_is_rows elem h = ground arith

  whole_rows : (elem n : ℕ) → (n * elem % c.huge_page ≡ 0) ↔ (n % rows elem ≡ 0)
  unfolding rows
  whole_rows = whole_iff

  -- For an element that takes space, `page_align_t_step` is the smallest positive length whose
  -- bytes are whole huge pages, and such lengths are exactly its multiples.
  pub page_align_t_step_iff :
      (elem n : ℕ)
      → 0 < elem
      → (step : ℕ) × (page_align_t_step c elem ≡ some step)
        × (0 < step)
        × ((n * elem % c.huge_page ≡ 0) ↔ (n % step ≡ 0))
  page_align_t_step_iff elem n h =
      (rows elem, step_is_rows elem h, rows_pos elem, whole_rows elem n)

  nearest-low :
      (v : Shape) (m : ℕ)
      → m * v.elem % c.huge_page ≡ 0
      → m ≤ v.len
      → m ≤ low_is v.len (rows v.elem)
  nearest-low v m h le =
      let (_, tight, whole) = low-bounds v.len (rows v.elem) (rows_pos v.elem) in
      elim (dec_lt (low_is v.len (rows v.elem)) m) [
        | yes less ↦ absurd (
            omega (
              arith,
              tight,
              multiples-apart (rows v.elem) _ m whole ((whole_rows v.elem m).0 h) less,
            ))
        | no more ↦ omega arith
      ]

  nearest-high :
      (v : Shape) (m : ℕ)
      → m * v.elem % c.huge_page ≡ 0
      → v.len ≤ m
      → high_is v.len (rows v.elem) ≤ m
  nearest-high v m h le =
      let (_, tight, whole) = high-bounds v.len (rows v.elem) (rows_pos v.elem) in
      elim (dec_lt m (high_is v.len (rows v.elem))) [
        | yes less ↦ absurd (
            omega (
              arith,
              tight,
              multiples-apart (rows v.elem) m _ ((whole_rows v.elem m).0 h) whole less,
            ))
        | no more ↦ omega arith
      ]

  -- What the three methods return for a vector: the nearest lengths of whole huge pages on either
  -- side of its length, and the distance to the upper one.
  pub record Nearest (v : Shape) : Type 0 where
    pub low : ℕ
    pub high : ℕ
    pub prev_is : prev_page_aligned_len c v ≡ some low
    pub next_is : next_page_aligned_len c v ≡ some high
    pub step_is : aligned_len_step c v ≡ some (high - v.len)
    pub low_whole : low * v.elem % c.huge_page ≡ 0
    pub high_whole : high * v.elem % c.huge_page ≡ 0
    pub low_le : low ≤ v.len
    pub le_high : v.len ≤ high
    pub low_nearest : (m : ℕ) → m * v.elem % c.huge_page ≡ 0 → m ≤ v.len → m ≤ low
    pub high_nearest : (m : ℕ) → m * v.elem % c.huge_page ≡ 0 → v.len ≤ m → high ≤ m

  pub lengths-Nearest : (v : Shape) → 0 < v.elem → Nearest v
  unfolding prev_page_aligned_len next_page_aligned_len aligned_len_step low_is high_is
  lengths-Nearest v h = record {
    low = low_is v.len (rows v.elem);
    high = high_is v.len (rows v.elem);
    prev_is = rw (step_is_rows v.elem h);
    next_is = rw (step_is_rows v.elem h);
    step_is = rw (step_is_rows v.elem h);
    low_whole = (whole_rows v.elem _).1 (low-bounds v.len (rows v.elem) (rows_pos v.elem)).2;
    high_whole = (whole_rows v.elem _).1 (high-bounds v.len (rows v.elem) (rows_pos v.elem)).2;
    low_le = (low-bounds v.len (rows v.elem) (rows_pos v.elem)).0;
    le_high = (high-bounds v.len (rows v.elem) (rows_pos v.elem)).0;
    low_nearest = nearest-low v;
    high_nearest = nearest-high v;
  }

  low_mask : (n : ℕ) → bit_and n (usize_sub c.huge_page 1) ≡ n % c.huge_page
  low_mask n = ap (bit_and n) sub ∙ rw (b.power) (bit_and_low_mask b.bits n)
    where
      sub : usize_sub c.huge_page 1 ≡ c.huge_page - 1
      sub = omega (arith, huge_page-bounds b)

  -- `is_page_aligned` holds exactly if the element takes space, the capacity is the length, the
  -- buffer is large enough to be mapped, and its bytes are whole huge pages.
  pub is_page_aligned_iff :
      (v : Shape)
      → (is_page_aligned c v ≡ true) ↔ (
          (0 < v.elem)
          × (v.cap ≡ v.len)
          × (c.huge_page ≤ v.len * v.elem)
          × (v.len * v.elem % c.huge_page ≡ 0))
  unfolding is_page_aligned uses_mmap
  is_page_aligned_iff v = (to, from)
    where
      to :
          is_page_aligned c v ≡ true
          → (0 < v.elem)
            × (v.cap ≡ v.len)
            × (c.huge_page ≤ v.len * v.elem)
            × (v.len * v.elem % c.huge_page ≡ 0)
      to h = ground (arith, low_mask (v.len * v.elem), ap (λ (t : ℕ). t * v.elem))

      from :
          (0 < v.elem)
            × (v.cap ≡ v.len)
            × (c.huge_page ≤ v.len * v.elem)
            × (v.len * v.elem % c.huge_page ≡ 0)
          → is_page_aligned c v ≡ true
      from h = ground (arith, on, low_mask (v.len * v.elem))
