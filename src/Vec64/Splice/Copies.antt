-- ===== src/Vec64/Splice/Copies.antt =====
-- The tail of a deletion, and its move by a copy: in place, or back from the scratch mapping.
use vec.Base.{
  ℕ, ◌+◌, ◌%◌, ◌≤◌, ◌<◌, ◌≡◌, ◌≢◌, ◌∙◌, true, false, ◌||◌, within, within-add, arith, leb,
}
use vec.Base.Outcome.{Returns}
use vec.Machine.{free, paged, Mem, Sys, copy}
use vec.Machine.Effect.{copy_ok, IsSys, Paged, Apart}
use vec.Vec64.Splice.{Tail, copy_back}
use vec.Vec64.Splice.Kept.{
  Kept, Scratch, within-sub, Kept-trans, Kept-wider, copy-Kept, copy-there, Scratch-Kept,
  Scratch-Dropped,
}

-- A tail and its place, in whole pages of a mapping, of which `n` bytes from the place on are left.
pub record IsTail (s : Sys) (t : Tail) (n : ℕ) (m : Mem) : Type 0 where
  pub src_whole : t.src % s.page_size ≡ 0
  pub dst_whole : t.dst % s.page_size ≡ 0
  pub pages_whole : t.pages % s.page_size ≡ 0
  pub some_bytes : 0 < t.bytes
  pub in_pages : t.bytes ≤ t.pages
  pub down : t.dst ≤ t.src
  pub fits : t.src + t.pages ≤ t.dst + n
  pub held : Paged m t.dst n

pub record TailMoved (t : Tail) (n : ℕ) (m m' : Mem) : Type 0 where
  pub kept : Kept t.dst n m m'
  pub moved : (i : ℕ) → i < t.bytes → m'.byte (t.dst + i) ≡ m.byte (t.src + i)

within-none : (p a : ℕ) → within p 0 a ≡ false
unfolding within
within-none p a = ground arith

module _ {s : Sys} (sys : IsSys s) {t : Tail} {n : ℕ} {m : Mem} (v : IsTail s t n m)
    (ok : s.Ok m) where
  pub src-held : (a : ℕ) → within t.src t.pages a ≡ true → m.owner a ≡ paged
  src-held a h = v.held a (within-sub t.dst n t.src t.pages a v.down v.fits h)

  pub dst-held : (a : ℕ) → within t.dst t.pages a ≡ true → m.owner a ≡ paged
  dst-held a h =
      v.held a (within-sub t.dst n t.dst t.pages a (omega arith) (omega (arith, v.down, v.fits)) h)

  -- In place.
  pub copied : (m1 : Mem) → Kept t.dst 0 m m1 → TailMoved t n m (copy t.src t.dst t.bytes m1)
  copied m1 f = record {
    kept = Kept-trans (Kept-wider (omega arith) (omega arith) f) (
        Kept-wider (omega arith) (omega (arith, v.down, v.fits, v.in_pages))
          (copy-Kept t.src t.dst t.bytes m1));
    moved = λ i h.
        copy-there t.src t.dst t.bytes i m1 h
        ∙ f.byte (t.src + i)
            (ground (
              arith,
              src-held (t.src + i) (within-add t.src t.pages i (omega (arith, v.in_pages))),
            ))
            (within-none t.dst (t.src + i));
  }

  -- The scratch mapping at `q` holds the pages of the tail.
  module _ (q : ℕ) (q_whole : q % s.page_size ≡ 0) {m2 : Mem} (ok2 : s.Ok m2)
      (sc : Scratch q t.pages t.dst n m m2)
      (there : (i : ℕ) → i < t.bytes → m2.byte (q + i) ≡ m.byte (t.src + i)) where
    pub scratch-Apart : Apart q t.dst t.pages
    scratch-Apart a h = ground (arith, sc.fresh a h, dst-held a)

    dst-owned : (a : ℕ) → within t.dst t.pages a ≡ true → m2.owner a ≢ free
    dst-owned a h = ground (arith, sc.owner a, sc.fresh a, dst-held a h)

    dst-out : (a : ℕ) → within t.dst t.pages a ≡ true → within q t.pages a ≡ false
    dst-out a h = ground (arith, sc.fresh a, dst-held a h)

    bytes-in : (a : ℕ) → within t.dst t.bytes a ≡ true → within t.dst t.pages a ≡ true
    bytes-in a h =
        within-sub t.dst t.pages t.dst t.bytes a (omega arith) (omega (arith, v.in_pages)) h

    index-in : (i : ℕ) → i < t.bytes → within t.dst t.pages (t.dst + i) ≡ true
    index-in i h = within-add t.dst t.pages i (omega (arith, v.in_pages))

    pub scratch-paged : (a : ℕ) → within q t.pages a ≡ true → m2.owner a ≡ paged
    scratch-paged a h = sc.owner a ∙ rw h

    no_overlap : (leb (q + t.bytes) t.dst || leb (t.dst + t.bytes) q) ≡ true
    unfolding within
    no_overlap =
        ground
          (arith, sc.fresh t.dst, dst-held t.dst, sc.fresh q, dst-held q, v.some_bytes, v.in_pages)

    pub copy_back-TailMoved : Returns (TailMoved t n m) (copy_back s t q m2)
    copy_back-TailMoved = rw no_overlap (
        let m3 = copy q t.dst t.bytes m2 in
        let wrote =
          Kept-wider (omega arith) (omega (arith, v.down, v.fits, v.in_pages))
            (copy-Kept q t.dst t.bytes m2) in
        let sc3 = Scratch-Kept q t.pages t.dst n sc wrote in
        let ok3 = copy_ok sys q t.dst t.bytes m2 ok2 (λ a h. dst-owned a (bytes-in a h)) in
        let (gone, blocks) =
          sys.munmap_lem q t.pages m3 ok3 q_whole v.pages_whole (λ a h. sc3.owner a ∙ rw h) in
        record {
          kept = Scratch-Dropped q t.pages t.dst n sc3 gone blocks;
          moved = λ i h.
              gone.byte (t.dst + i) (dst-owned (t.dst + i) (index-in i h))
                (dst-out (t.dst + i) (index-in i h))
              ∙ copy-there q t.dst t.bytes i m2 h
              ∙ there i h;
        })

    pub dst-Paged : Paged m2 t.dst t.pages
    dst-Paged a h = sc.owner a ∙ rw (dst-out a h, dst-held a h)
