-- ===== src/Vec64/Splice/Pages.antt =====
-- Where the pages of a deletion lie.
use vec.Base.{
  ℕ, suc, ◌+◌, ◌-◌, ◌*◌, ◌/◌, ◌%◌, ◌^◌, ◌≤◌, ◌<◌, ◌≡◌, sym, ap, subst, ◌∙◌, arith, ◌==◌, Bool-cases,
  inl, inr, ==_iff, dec_lt,
}
use vec.PageSize.{round_to}
use vec.PageSize.Laws.{IsRounded, IsRounded-up, round_to-eq, multiples-apart}
use vec.Machine.{Mem, Sys}
use vec.Machine.Effect.{IsSys, Paged}
use vec.MmapAlloc.Tail.{sum-whole}
use vec.Vec64.Raw.{next_multiple_of}
use vec.Vec64.Splice.{Span, seam, tail_of}
use native.Mathlib.Nat.{
  div-add-mod', mod-lt, mul-mod_left, suc-mul, one-le-pow, pow-le-pow_right, le_of_dvd,
  dvd_of_mod-eq-zero,
}

pub next_multiple_of-IsRounded : (x n : ℕ) → 0 < n → IsRounded n x (next_multiple_of x n)
unfolding next_multiple_of
next_multiple_of-IsRounded x n h = elim (Bool-cases (x % n == 0)) [
  | inl whole ↦
      rw whole
        (record { enough = omega arith; tight = omega arith; whole = (==_iff (x % n) 0).0 whole })
  | inr part ↦ rw part (record {
    enough = omega arith;
    tight = ground (arith, part);
    whole = ap (λ t. t % n) sum ∙ mul-mod_left (suc (x / n)) n;
  })
]
  where
    sum : x + (n - x % n) ≡ suc (x / n) * n
    sum = omega (arith, div-add-mod' x n, mod-lt x h, suc-mul (x / n) n)

-- A deletion in a mapping of `ext` bytes, of a whole number of pages with something after it.
pub record IsSpan (s : Sys) (ext : ℕ) (d : Span) (m : Mem) : Type 0 where
  pub base_whole : d.base % s.page_size ≡ 0
  pub ext_whole : ext % s.page_size ≡ 0
  pub ordered : d.byte_start < d.byte_end
  pub more : d.byte_end < d.byte_len
  pub fits : d.byte_len ≤ ext
  pub small : ext ≤ 2 ^ 63
  pub span_whole : (d.byte_end - d.byte_start) % s.page_size ≡ 0
  pub new_is : d.new_bytes ≡ d.byte_start + (d.byte_len - d.byte_end)
  pub held : Paged m d.base ext

-- A whole number of pages that is not zero is a page at least.
whole_page : (n x : ℕ) → x % n ≡ 0 → 0 < x → n ≤ x
whole_page n x h pos = le_of_dvd pos (dvd_of_mod-eq-zero n h)

module _ {s : Sys} (sys : IsSys s) where
  pub page-pos : 0 < s.page_size
  page-pos = rw sys.page_is (one-le-pow sys.page_bits 2 (omega arith))

  pub page-most : s.page_size ≤ 2 ^ 63
  page-most =
      rw sys.page_is
        (pow-le-pow_right {n = 2} (omega arith) {i = sys.page_bits} {j = 63} sys.page_most)

  round_to-page : (n : ℕ) → n ≤ 2 ^ 63 → IsRounded s.page_size n (round_to s.page_size n)
  round_to-page n small =
      subst (λ t. IsRounded t n (round_to t n)) (sym sys.page_is)
        (rw (round_to-eq sys.page_bits n sys.page_most small)
          (IsRounded-up (2 ^ sys.page_bits) n (one-le-pow sys.page_bits 2 (omega arith))))

  -- A multiple of the page that is tight above something that fits a mapping fits it.
  pub rounded-le :
      {x r ext : ℕ} → IsRounded s.page_size x r → x ≤ ext → ext % s.page_size ≡ 0 → r ≤ ext
  rounded-le {x} {r} {ext} a h whole = elim (dec_lt ext r) [
    | yes less ↦
        absurd (omega (arith, multiples-apart s.page_size ext r whole a.whole less, a.tight))
    | no more ↦ omega arith
  ]

  module _ {ext : ℕ} {d : Span} {m : Mem} (v : IsSpan s ext d m) where
    pub start-IsRounded : IsRounded s.page_size d.byte_start (d.byte_start + seam s d)
    unfolding seam
    start-IsRounded =
        let r = next_multiple_of-IsRounded d.byte_start s.page_size page-pos in
        let e : d.byte_start + (next_multiple_of d.byte_start s.page_size - d.byte_start)
            ≡ next_multiple_of d.byte_start s.page_size =
          omega (arith, r.enough) in
        rw e r

    pub span-page : s.page_size ≤ d.byte_end - d.byte_start
    span-page =
        whole_page s.page_size (d.byte_end - d.byte_start) v.span_whole (omega (arith, v.ordered))

    pub seam-lt : seam s d < d.byte_end - d.byte_start
    seam-lt = omega (arith, start-IsRounded.tight, span-page)

    pub source-whole : (d.byte_end + seam s d) % s.page_size ≡ 0
    source-whole =
        ap (λ t. t % s.page_size) (omega (arith, v.ordered))
        ∙ sum-whole s.page_size (d.byte_start + seam s d) (d.byte_end - d.byte_start)
            start-IsRounded.whole v.span_whole

    -- There is a tail after the patch.
    module _ (left : d.byte_end + seam s d < d.byte_len) where
      pub pages-IsRounded :
          IsRounded s.page_size (d.byte_len - (d.byte_end + seam s d)) ((tail_of s d).pages)
      unfolding tail_of
      pages-IsRounded = round_to-page _ (omega (arith, v.fits, v.small))

      pub source-fits : d.byte_end + seam s d + (tail_of s d).pages ≤ ext
      source-fits =
          rounded-le
            (record {
              enough = omega (arith, pages-IsRounded.enough);
              tight = omega (arith, pages-IsRounded.tight);
              whole =
                  sum-whole s.page_size (d.byte_end + seam s d) ((tail_of s d).pages) source-whole
                    pages-IsRounded.whole;
            })
            v.fits v.ext_whole
