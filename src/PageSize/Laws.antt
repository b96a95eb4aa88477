-- ===== src/PageSize/Laws.antt =====
-- Rounding to pages: enough, aligned, tight, and stable when it is computed again.
use vec.Base.{
  ℕ, ◌+◌, ◌-◌, ◌*◌, ◌/◌, ◌%◌, ◌^◌, ◌≤◌, ◌<◌, ◌≡◌, sym, ap, ap₂, ◌∙◌, true, false, bit_and, leb,
  ◌==◌, if◌then◌else◌, arith, Bool-cases, inl, inr, le→leb, dec_lt, leb→le, ◌&&◌,
}
use vec.Base.Bits.{bit_and_high_word, pow-add}
use vec.Base.Usize.{usize_add, usize_sub, usize_not}
use vec.Build.{Config, IsBuilt}
use vec.PageSize.{gigantic_page, round_to, uses_mmap, mapped_size}
use native.Mathlib.Nat.{
  pow-le-pow_right, one-le-pow, div-add-mod', mod-lt, mul-mod_left, le_of_dvd, dvd-sub,
  dvd_of_mod-eq-zero,
}

-- The rounding of the source, as arithmetic: no addition of it overflows.
pub round_to-eq :
    (k size : ℕ)
    → k ≤ 63
    → size ≤ 2 ^ 63
    → round_to (2 ^ k) size ≡ (size + (2 ^ k - 1)) / 2 ^ k * 2 ^ k
unfolding round_to
round_to-eq k size hk hs =
    ap₂ bit_and sum mask
    ∙ bit_and_high_word 64 k (size + (2 ^ k - 1)) (omega arith) (omega (arith, small))
  where
    small : 2 ^ k ≤ 2 ^ 63
    small = pow-le-pow_right {n = 2} (omega arith) {i = k} {j = 63} hk

    large : 1 ≤ 2 ^ k
    large = one-le-pow k 2 (omega arith)

    sum : usize_sub (usize_add size (2 ^ k)) 1 ≡ size + (2 ^ k - 1)
    sum = omega (arith, small, large)

    mask : usize_not (usize_sub (2 ^ k) 1) ≡ 2 ^ 64 - 2 ^ k
    mask = omega (arith, small, large)

-- `r` is the least multiple of `unit` that is at least `size`.
pub record IsRounded (unit size r : ℕ) : Type 0 where
  pub enough : size ≤ r
  pub tight : r < size + unit
  pub whole : r % unit ≡ 0

pub IsRounded-up :
    (unit size : ℕ) → 0 < unit → IsRounded unit size ((size + (unit - 1)) / unit * unit)
IsRounded-up unit size h = record {
  enough = grind (arith, div-add-mod' (size + (unit - 1)) unit, mod-lt (size + (unit - 1)) h);
  tight = grind (arith, div-add-mod' (size + (unit - 1)) unit);
  whole = mul-mod_left ((size + (unit - 1)) / unit) unit;
}

-- Two different multiples lie at least a unit apart.
pub multiples-apart : (n a b : ℕ) → a % n ≡ 0 → b % n ≡ 0 → a < b → a + n ≤ b
multiples-apart n a b ha hb h =
    let gap : n ≤ b - a =
      le_of_dvd (omega arith) (dvd-sub n (dvd_of_mod-eq-zero n hb) (dvd_of_mod-eq-zero n ha)) in
    omega arith

-- A rounded size is at most every multiple of the unit that holds the size.
pub IsRounded-least : {unit s r : ℕ} (u : ℕ) → IsRounded unit s r → u % unit ≡ 0 → s ≤ u → r ≤ u
IsRounded-least {unit} {s} {r} u a whole le = elim (dec_lt u r) [
  | yes less ↦ absurd (omega (arith, multiples-apart unit u r whole a.whole less))
  | no more ↦ omega arith
]

pub IsRounded-unique : {unit s r u : ℕ} → IsRounded unit s r → IsRounded unit s u → r ≡ u
IsRounded-unique {r} {u} a b =
    omega (arith, IsRounded-least u a b.whole b.enough, IsRounded-least r b a.whole a.enough)

-- A larger power of two is a multiple of a smaller one.
pub pow-mod-pow : (j k : ℕ) → j ≤ k → 2 ^ k % 2 ^ j ≡ 0
pow-mod-pow j k h =
    let e : k - j + j ≡ k = omega arith in
    ap (λ n. 2 ^ n % 2 ^ j) (sym e)
    ∙ ap (λ n. n % 2 ^ j) (pow-add (k - j) j)
    ∙ mul-mod_left (2 ^ (k - j)) (2 ^ j)

-- The unit that a size is rounded to.
abbrev pub unit : Config → ℕ → ℕ
unit c size = if c.giant_pages && leb gigantic_page size then gigantic_page else c.huge_page

module _ {c : Config} (b : IsBuilt c) where
  unit-pos : (size : ℕ) → 0 < unit c size
  unit-pos size = ground (arith, b.power, one-le-pow b.bits 2)

  huge_page-IsRounded :
      (size : ℕ) → size ≤ 2 ^ 63 → IsRounded c.huge_page size (round_to c.huge_page size)
  huge_page-IsRounded size small =
      rw (b.power, round_to-eq b.bits size b.most small)
        (IsRounded-up (2 ^ b.bits) size (one-le-pow b.bits 2 (omega arith)))

  -- For every size that a `Layout` can have, and at least one byte, `mapped_size` is the least
  -- multiple of the page unit that holds the size: no step of the computation overflows.
  pub mapped_size-IsRounded :
      (size : ℕ) → 0 < size → size ≤ 2 ^ 63 → IsRounded (unit c size) size (mapped_size c size)
  unfolding mapped_size
  mapped_size-IsRounded size pos small =
      elim (Bool-cases (c.giant_pages && leb gigantic_page size)) [
        | inl giant ↦
            rw (giant, round_to-eq 30 size (omega arith) small)
              (IsRounded-up (2 ^ 30) size (omega arith))
        | inr huge ↦ rw (huge, nonzero) (huge_page-IsRounded size small)
      ]
    where
      nonzero : (round_to c.huge_page size == 0) ≡ false
      nonzero = ground (arith, (huge_page-IsRounded size small).enough)

  pub huge_page-bounds : (4096 ≤ c.huge_page) × (c.huge_page ≤ 2 ^ 63)
  huge_page-bounds = (
    rw (b.power) (pow-le-pow_right {n = 2} (omega arith) {i = 12} {j = b.bits} b.least),
    rw (b.power) (pow-le-pow_right {n = 2} (omega arith) {i = b.bits} {j = 63} b.most),
  )

  -- Where huge pages are smaller than a gigantic page, they divide it.
  pub gigantic-mod : c.huge_page ≤ gigantic_page → gigantic_page % c.huge_page ≡ 0
  gigantic-mod h = rw (b.power) (pow-mod-pow b.bits 30 (bits-le (rw b.power at h)))
    where
      bits-le : 2 ^ b.bits ≤ gigantic_page → b.bits ≤ 30
      bits-le p = elim (dec_lt 30 b.bits) [
        | yes large ↦
            absurd
              (omega (arith, pow-le-pow_right {n = 2} (omega arith) {i = 31} {j = b.bits} large))
        | no small ↦ omega arith
      ]

  unit-mod : (size : ℕ) → 2 ^ 63 % unit c size ≡ 0
  unit-mod size = elim (Bool-cases (c.giant_pages && leb gigantic_page size)) [
    | inl giant ↦ rw giant
    | inr huge ↦ rw (huge, b.power) (pow-mod-pow b.bits 63 b.most)
  ]

  module _ (size : ℕ) (mapped : uses_mmap c size ≡ true) (small : size ≤ 2 ^ 63) where
    mapped-pos : c.huge_page ≤ size
    unfolding uses_mmap
    mapped-pos = leb→le c.huge_page size mapped

    rounded : IsRounded (unit c size) size (mapped_size c size)
    rounded = mapped_size-IsRounded size (omega (arith, mapped-pos, huge_page-bounds)) small

    pub mapped_size-le : mapped_size c size ≤ 2 ^ 63
    mapped_size-le = IsRounded-least (2 ^ 63) rounded (unit-mod size) small

    -- A size below a gigantic page that rounds to one or more rounds to exactly one.
    rounds_to_gigantic :
        (c.giant_pages && leb gigantic_page size) ≡ false
        → (c.giant_pages && leb gigantic_page (mapped_size c size)) ≡ true
        → mapped_size c size ≡ gigantic_page
    rounds_to_gigantic below over =
        let less : size < gigantic_page = ground arith in
        let large : gigantic_page ≤ mapped_size c size = ground arith in
        let at_huge : IsRounded c.huge_page size (mapped_size c size) = rw below at rounded in
        omega (
          arith,
          large,
          IsRounded-least gigantic_page at_huge (gigantic-mod (omega (arith, mapped-pos)))
              (omega arith),
        )

    -- The extent of a mapping is a whole number of pages of the unit of its own size.
    whole_again : mapped_size c size % unit c (mapped_size c size) ≡ 0
    whole_again = elim (Bool-cases (c.giant_pages && leb gigantic_page size)) [
      | inl giant ↦ rw (still giant) (rw giant at rounded.whole)
      | inr huge ↦ elim (Bool-cases (c.giant_pages && leb gigantic_page (mapped_size c size))) [
        | inl over ↦ rw (over, rounds_to_gigantic huge over)
        | inr under ↦ rw under (rw huge at rounded.whole)
      ]
    ]
      where
        still :
            (c.giant_pages && leb gigantic_page size) ≡ true
            → (c.giant_pages && leb gigantic_page (mapped_size c size)) ≡ true
        still h = ground (arith, rounded.enough)

    -- What the allocator later computes from a mapped block of this size is what it computed when
    -- it made the block: the extent is classified as mapped again, and rounding it again changes
    -- nothing. The extent holds the size.
    pub mapped_size-stable :
        (uses_mmap c (mapped_size c size) ≡ true)
        × (mapped_size c (mapped_size c size) ≡ mapped_size c size)
        × (size ≤ mapped_size c size)
    unfolding uses_mmap
    mapped_size-stable = (
      le→leb c.huge_page (mapped_size c size) (omega (arith, mapped-pos, rounded.enough)),
      IsRounded-unique
          (mapped_size-IsRounded (mapped_size c size)
            (omega (arith, mapped-pos, rounded.enough, huge_page-bounds)) mapped_size-le)
          (record {
            enough = omega arith;
            tight = omega (arith, unit-pos (mapped_size c size));
            whole = whole_again;
          }),
      rounded.enough,
    )
