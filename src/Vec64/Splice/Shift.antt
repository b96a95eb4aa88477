-- ===== src/Vec64/Splice/Shift.antt =====
-- The whole of a tail reaches its place: the patch of the boundary page, then the pages.
use vec.Base.{
  ℕ, ◌+◌, ◌-◌, ◌<◌, ◌≡◌, ◌≢◌, refl, sym, ap, ◌∙◌, true, min, within-add, arith, leb, ltb, ◌||◌,
  Bool-cases, inl, inr, dec_lt,
}
use vec.Base.Outcome.{Returns, Returns-map}
use vec.Machine.{free, Mem, Sys, copy}
use vec.Machine.Effect.{KeepsTarget, copy_ok, IsSys}
use vec.MmapAlloc.Tail.{sum-whole, diff-whole}
use vec.Vec64.Raw.{next_multiple_of}
use vec.Vec64.Splice.{Span, release, seam, tail_of, step1, shift_tail}
use vec.Vec64.Splice.Kept.{
  Kept, within-sub, within-below, within-above, Kept-refl, Kept-trans, Kept-wider, Lapsed-Kept,
  copy-Kept, copy-there,
}
use vec.Vec64.Splice.Pages.{
  IsSpan, page-pos, next_multiple_of-IsRounded, rounded-le, start-IsRounded, seam-lt, source-whole,
  pages-IsRounded, source-fits,
}
use vec.Vec64.Splice.Copies.{IsTail, TailMoved}
use vec.Vec64.Splice.Moves.{step1-TailMoved}

-- The bytes after the deleted ones have moved down, and nothing else of the memory has changed but
-- what the mapping has after the start of the deletion.
pub record Shifted (d : Span) (ext : ℕ) (m m' : Mem) : Type 0 where
  pub kept : Kept (d.base + d.byte_start) (ext - d.byte_start) m m'
  pub moved :
      (i : ℕ)
      → i < d.byte_len - d.byte_end
      → m'.byte (d.base + d.byte_start + i) ≡ m.byte (d.base + d.byte_end + i)

sum_assoc : (b x y : ℕ) → b + x + y ≡ b + (x + y)
sum_assoc b x y = omega arith

module _ {s : Sys} (sys : IsSys s) (keeps : KeepsTarget s) {ext : ℕ} {d : Span} {m : Mem}
    (v : IsSpan s ext d m) where
  pub release-Kept :
      (m1 : Mem)
      → s.Ok m1
      → ((a : ℕ) → m1.owner a ≡ m.owner a)
      → Kept (d.base + d.new_bytes) (ext - d.new_bytes) m1 (release s d m1)
  unfolding release
  release-Kept m1 ok same =
      let used = next_multiple_of-IsRounded d.new_bytes s.page_size (page-pos sys) in
      let all = next_multiple_of-IsRounded d.byte_len s.page_size (page-pos sys) in
      let fits = rounded-le sys all v.fits v.ext_whole in
      elim (Bool-cases (
        ltb (next_multiple_of d.new_bytes s.page_size) (next_multiple_of d.byte_len s.page_size))) [
          | inl some ↦ rw some (
              Kept-wider (omega (arith, used.enough)) (ground (arith, used.enough, fits, some)) (
                Lapsed-Kept (
                  sys.madvise_free_lem _ _ m1 ok
                    (sum-whole s.page_size d.base _ v.base_whole used.whole)
                    (diff-whole s.page_size _ _ all.whole used.whole)
                    (λ a h.
                      same a
                      ∙ v.held a (
                          within-sub d.base ext _ _ a (omega arith) (ground (arith, fits, some))
                            h)))))
          | inr none ↦ rw none (Kept-refl _ _ m1)
        ]

  tail_of-IsTail :
      d.byte_end + seam s d < d.byte_len
      → (m1 : Mem) → ((a : ℕ) → m1.owner a ≡ m.owner a)
      → IsTail s (tail_of s d) (ext - (d.byte_start + seam s d)) m1
  unfolding tail_of
  tail_of-IsTail left m1 same =
      let r = pages-IsRounded sys v left in
      let fits = source-fits sys v left in
      let st = start-IsRounded sys v in
      record {
        src_whole = sum-whole s.page_size d.base _ v.base_whole (source-whole sys v);
        dst_whole = sum-whole s.page_size d.base _ v.base_whole st.whole;
        pages_whole = r.whole;
        some_bytes = omega (arith, left);
        in_pages = r.enough;
        down = omega (arith, v.ordered);
        fits = omega (arith, fits, v.ordered);
        held = λ a h.
            same a
            ∙ v.held a
                (within-sub d.base ext _ _ a (omega arith) (omega (arith, fits, v.ordered)) h);
      }

  -- After the patch of the boundary page.
  record Patched (m1 : Mem) : Type 0 where
    kept : Kept (d.base + d.byte_start) (seam s d) m m1
    moved :
        (i : ℕ)
        → i < seam s d
        → i < d.byte_len - d.byte_end
        → m1.byte (d.base + d.byte_start + i) ≡ m.byte (d.base + d.byte_end + i)

  inside-owned : (k : ℕ) → k < ext → m.owner (d.base + k) ≢ free
  inside-owned k h = ground (arith, v.held (d.base + k) (within-add d.base ext k h))

  rest-moved :
      {m1 m2 : Mem}
      → Patched m1
      → TailMoved (tail_of s d) (ext - (d.byte_start + seam s d)) m1 m2
      → (i : ℕ) → i < d.byte_len - d.byte_end
      → m2.byte (d.base + d.byte_start + i) ≡ m.byte (d.base + d.byte_end + i)
  unfolding tail_of
  rest-moved {m1} {m2} f tm i h = elim (dec_lt i (seam s d)) [
    | yes low ↦
        tm.kept.byte (d.base + d.byte_start + i)
          (ground (
            arith,
            sum_assoc d.base d.byte_start i,
            inside-owned (d.byte_start + i) (omega (arith, v.ordered, v.more, v.fits)),
            f.kept.owner (d.base + d.byte_start + i),
          ))
          (within-below _ _ _ (omega arith))
        ∙ f.moved i low h
    | no high ↦
        let j = i - seam s d in
        let to : d.base + (d.byte_start + seam s d) + j ≡ d.base + d.byte_start + i = omega arith in
        let from : d.base + (d.byte_end + seam s d) + j ≡ d.base + d.byte_end + i = omega arith in
        let at_end = inside-owned (d.byte_end + i) (omega (arith, v.fits)) in
        ap m2.byte (sym to)
        ∙ tm.moved j (omega arith)
        ∙ ap m1.byte from
        ∙ f.kept.byte (d.base + d.byte_end + i)
            (ground (arith, sum_assoc d.base d.byte_end i, at_end))
            (within-above _ _ _ (omega (arith, seam-lt sys v, v.ordered)))
  ]

  -- The pages, after `m1` has the patch.
  rest-Shifted :
      d.byte_end + seam s d < d.byte_len
      → (m1 : Mem) → s.Ok m1
      → Patched m1
      → Returns (Shifted d ext m) (step1 s d (tail_of s d) m1)
  unfolding tail_of
  rest-Shifted left m1 ok1 f =
      Returns-map {P = TailMoved (tail_of s d) (ext - (d.byte_start + seam s d)) m1}
        (λ m2 tm. record {
          kept =
              Kept-trans
                (Kept-wider (omega arith) (omega (arith, v.ordered, v.more, v.fits, seam-lt sys v))
                  f.kept)
                (Kept-wider (omega arith) (omega (arith, v.ordered, v.more, v.fits, seam-lt sys v))
                  tm.kept);
          moved = rest-moved f tm;
        })
        _
        (step1-TailMoved sys keeps d (tail_of-IsTail left m1 f.kept.owner) ok1 (λ m3 ok3 same.
          Kept-wider (omega (arith, v.new_is, v.ordered, left))
            (omega (arith, v.new_is, v.ordered, left, v.fits))
            (release-Kept m3 ok3 (λ a. same a ∙ f.kept.owner a))))

  pub shift_tail-Shifted : s.Ok m → Returns (Shifted d ext m) (shift_tail s d m)
  unfolding shift_tail
  shift_tail-Shifted ok = elim (Bool-cases (ltb 0 (seam s d))) [
    | inl patch ↦
        rw (patch, no_overlap)
          (elim (Bool-cases (leb (d.byte_len - d.byte_end) (seam s d))) [
            | inl all ↦ rw all (
                let last = release-Kept _ ok1 (λ a. refl) in
                record {
                  kept =
                      Kept-trans
                        (Kept-wider (omega arith)
                          (omega (arith, seam-lt sys v, v.ordered, v.more, v.fits))
                          (copy-Kept _ _ _ m))
                        (Kept-wider (omega (arith, v.new_is))
                          (omega (arith, v.new_is, v.ordered, v.more, v.fits)) last);
                  moved = λ i h.
                      last.byte (d.base + d.byte_start + i)
                        (ground (
                          arith,
                          sum_assoc d.base d.byte_start i,
                          inside-owned (d.byte_start + i)
                              (omega (arith, v.ordered, v.more, v.fits)),
                        ))
                        (within-below _ _ _ (omega (arith, v.new_is)))
                      ∙ copy-there (d.base + d.byte_end) (d.base + d.byte_start) _ i m
                          (ground (arith, all));
                })
            | inr part ↦ rw part (
                rest-Shifted (ground (arith, part, v.more)) _ ok1 (record {
                  kept = Kept-wider (omega arith) (omega arith) (copy-Kept _ _ _ m);
                  moved = λ i h g.
                      copy-there (d.base + d.byte_end) (d.base + d.byte_start) _ i m (omega arith);
                }))
          ])
    | inr none ↦ rw none (
        rest-Shifted (ground (arith, none, v.more)) m ok
          (record { kept = Kept-refl _ _ m; moved = λ i h g. ground (arith, none, h) }))
  ]
    where
      ok1 : s.Ok (
          copy
            (d.base + d.byte_end)
            (d.base + d.byte_start)
            (min (seam s d) (d.byte_len - d.byte_end))
            m)
      ok1 = copy_ok sys _ _ _ m ok (λ a h. ground (
        arith,
        v.held a (
            within-sub d.base ext _ _ a (omega arith) (omega (arith, v.ordered, v.more, v.fits)) h),
      ))

      no_overlap :
          (leb
              (d.base + d.byte_end + min (seam s d) (d.byte_len - d.byte_end))
              (d.base + d.byte_start)
            || leb
                (d.base + d.byte_start + min (seam s d) (d.byte_len - d.byte_end))
                (d.base + d.byte_end))
          ≡ true
      no_overlap = ground (arith, seam-lt sys v, v.ordered)
