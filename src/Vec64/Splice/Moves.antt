-- ===== src/Vec64/Splice/Moves.antt =====
-- The tail of a deletion reaches its place, whatever the kernel answers, if its refusals keep the destination.
use vec.Base.{
  ℕ, ◌+◌, ◌-◌, ◌%◌, ◌<◌, ◌≡◌, ◌∙◌, false, ◌&&◌, within, within-add, arith, ltb, ◌==◌, Bool-cases,
  inl, inr,
}
use vec.Base.Usize.{usize_add}
use vec.Base.Outcome.{Returns}
use vec.Machine.{free, paged, Mem, Sys, anonymous, fixed, fixed_dont_unmap, map_failed}
use vec.Machine.Effect.{Unchanged, IsSys, KeepsTarget, both-Unless, Mapped, Placed, Unless, Zeros}
use vec.Vec64.Splice.{Span, Tail, release, placed, step3, taken, step2, reserved, step1}
use vec.Vec64.Splice.Kept.{
  Kept, Scratch, Kept-trans, Kept-wider, Unchanged-Kept, Mapped-Scratch, Scratch-Kept,
  Scratch-Dropped, Scratch-taken, Scratch-Placed,
}
use vec.Vec64.Splice.Copies.{
  IsTail, TailMoved, src-held, dst-held, copied, copy_back-TailMoved, scratch-paged, scratch-Apart,
  dst-Paged,
}

within-before : (p k i n : ℕ) → i < k → within (p + k) n (p + i) ≡ false
unfolding within
within-before p k i n h = ground arith

module _ {s : Sys} (sys : IsSys s) (keeps : KeepsTarget s) (d : Span) {t : Tail} {n : ℕ} {m : Mem}
    (v : IsTail s t n m) (ok : s.Ok m)
    (after : (m1 : Mem)
      → s.Ok m1
      → ((a : ℕ) → m1.owner a ≡ m.owner a)
      → Kept (t.dst + t.bytes) (n - t.bytes) m1 (release s d m1)) where
  -- The last move, by what the kernel answers.
  placed-TailMoved :
      (q : ℕ)
      → q % s.page_size ≡ 0
      → {m2 m3 : Mem} → s.Ok m2
      → s.Ok m3
      → Scratch q t.pages t.dst n m m2
      → ((i : ℕ) → i < t.bytes → m2.byte (q + i) ≡ m.byte (t.src + i))
      → (r : ℕ) → Unless (r == map_failed) m2 m3 (Placed free m2 m3 q t.pages t.dst)
      → Returns (TailMoved t n m) (placed s d t q (r, m3))
  placed-TailMoved q q_whole {m2} {m3} ok2 ok3 sc there r h = elim (Bool-cases (r == map_failed)) [
    | inl failed ↦
        (let un : Unchanged m2 m3 = (rw failed at h) in
          rw failed (
            (copy_back-TailMoved sys v ok) q q_whole ok3
              (Scratch-Kept q t.pages t.dst n sc (Unchanged-Kept un))
              (λ i g.
                un.byte (q + i) (
                  ground
                    (arith, sc.owner (q + i), within-add q t.pages i (omega (arith, v.in_pages))))
                ∙ there i g)))
    | inr moved ↦
        (let pl : Placed free m2 m3 q t.pages t.dst = (rw moved at h) in
          let kept =
            Scratch-Placed q t.pages t.dst n t.dst (omega arith) (omega (arith, v.down, v.fits))
              (dst-held sys v ok) sc pl in
          let last = after m3 ok3 kept.owner in
          rw moved (record {
            kept =
                Kept-trans kept
                  (Kept-wider (omega arith) (omega (arith, v.down, v.fits, v.in_pages)) last);
            moved = λ i g.
                last.byte (t.dst + i)
                  (ground (
                    arith,
                    kept.owner (t.dst + i),
                    (dst-held sys v ok) (t.dst + i)
                        (within-add t.dst t.pages i (omega (arith, v.in_pages))),
                  ))
                  (within-before t.dst t.bytes i (n - t.bytes) g)
                ∙ pl.moved i (omega (arith, v.in_pages))
                ∙ there i g;
          }))
  ]

  step3-TailMoved :
      (q : ℕ)
      → q % s.page_size ≡ 0
      → {m2 : Mem} → s.Ok m2
      → Scratch q t.pages t.dst n m m2
      → ((i : ℕ) → i < t.bytes → m2.byte (q + i) ≡ m.byte (t.src + i))
      → Returns (TailMoved t n m) (step3 s d t q m2)
  unfolding step3
  step3-TailMoved q q_whole {m2} ok2 sc there =
      elim (Bool-cases (ltb q (usize_add t.dst t.pages) && ltb t.dst (usize_add q t.pages))) [
        | inl cross ↦ rw cross ((copy_back-TailMoved sys v ok) q q_whole ok2 sc there)
        | inr apart ↦ rw apart (
            placed-TailMoved q q_whole ok2 (sys.mremap_ok q t.pages t.pages (fixed t.dst) m2 ok2) sc
              there _
              (both-Unless _ _ _ _
                (keeps.fixed_kept q t.pages t.dst m2 ok2
                  ((dst-Paged sys v ok) q q_whole ok2 sc there))
                (sys.mremap_fixed_lem q t.pages t.dst m2 ok2 q_whole v.dst_whole v.pages_whole
                  ((scratch-paged sys v ok) q q_whole ok2 sc there)
                  ((dst-Paged sys v ok) q q_whole ok2 sc there)
                  ((scratch-Apart sys v ok) q q_whole ok2 sc there))))
      ]

  -- The first move, by what the kernel answers.
  taken-TailMoved :
      (q : ℕ)
      → {m1 m2 : Mem} → s.Ok m2
      → Mapped s.page_size m m1 q t.pages
      → (r : ℕ)
      → Unless (r == map_failed) m1 m2 (Placed paged m1 m2 t.src t.pages q × Zeros m2 t.src t.pages)
      → Returns (TailMoved t n m) (taken s d t q (r, m2))
  taken-TailMoved q {m1} {m2} ok2 map r h = elim (Bool-cases (r == map_failed)) [
    | inl failed ↦
        (let un : Unchanged m1 m2 = (rw failed at h) in
          let sc =
            Scratch-Kept q t.pages t.dst 0 (Mapped-Scratch q t.pages t.dst 0 map)
              (Unchanged-Kept un) in
          let (gone, blocks) =
            sys.munmap_lem q t.pages m2 ok2 map.aligned v.pages_whole (λ a g. sc.owner a ∙ rw g) in
          rw failed ((copied sys v ok) _ (Scratch-Dropped q t.pages t.dst 0 sc gone blocks)))
    | inr fine ↦
        (let both : Placed paged m1 m2 t.src t.pages q × Zeros m2 t.src t.pages = (rw fine at h) in
          let sc =
            Scratch-taken q t.pages t.dst n t.src v.down v.fits (src-held sys v ok)
              (Mapped-Scratch q t.pages t.dst n map) both.0 in
          rw fine (
            step3-TailMoved q map.aligned ok2 sc (λ i g.
              both.0.moved i (omega (arith, v.in_pages))
              ∙ map.took.byte (t.src + i) (
                  ground (
                    arith,
                    (src-held sys v ok) (t.src + i)
                        (within-add t.src t.pages i (omega (arith, v.in_pages))),
                  )))))
  ]

  step2-TailMoved :
      (q : ℕ)
      → {m1 : Mem} → s.Ok m1
      → Mapped s.page_size m m1 q t.pages
      → Returns (TailMoved t n m) (step2 s d t q m1)
  unfolding step2
  step2-TailMoved q {m1} ok1 map =
      let taken = map.took in
      taken-TailMoved q (sys.mremap_ok t.src t.pages t.pages (fixed_dont_unmap q) m1 ok1) map _ (
        both-Unless _ _ _ _
          (keeps.dont_unmap_kept t.src t.pages q m1 ok1 (λ a h. taken.owner a ∙ rw h))
          (sys.mremap_dont_unmap_lem t.src t.pages q m1 ok1 v.src_whole map.aligned v.pages_whole
            (λ a h. ground (arith, taken.owner a, (src-held sys v ok) a h))
            (λ a h. taken.owner a ∙ rw h)
            (λ a h. ground (arith, taken.fresh a, (src-held sys v ok) a h))))

  reserved-TailMoved :
      (q : ℕ)
      → {m1 : Mem} → s.Ok m1
      → Unless (q == map_failed) m m1 (Mapped s.page_size m m1 q t.pages)
      → Returns (TailMoved t n m) (reserved s d t (q, m1))
  reserved-TailMoved q {m1} ok1 h = elim (Bool-cases (q == map_failed)) [
    | inl failed ↦
        (let un : Unchanged m m1 = (rw failed at h) in
          rw failed ((copied sys v ok) m1 (Unchanged-Kept un)))
    | inr fine ↦ rw fine (step2-TailMoved q ok1 (rw fine at h))
  ]

  pub step1-TailMoved : Returns (TailMoved t n m) (step1 s d t m)
  unfolding step1
  step1-TailMoved =
      reserved-TailMoved _ (sys.mmap_ok anonymous t.pages m ok)
        (sys.mmap_lem anonymous t.pages m ok (omega (arith, v.some_bytes, v.in_pages)))
