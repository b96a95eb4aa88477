-- ===== src/Vec64/Splice/Deletes.antt =====
-- What a deletion leaves, and that `delete_range` deletes a range in bounds on every path.
use vec.Base.{
  ℕ, ◌+◌, ◌-◌, ◌*◌, ◌≤◌, ◌<◌, ◌≡◌, ◌≢◌, refl, sym, ap, ◌∙◌, List, [], true, false, not, ◌||◌,
  Option, none, some, bit_and, arith, ltb, ◌==◌, Bool-cases, inl, inr, le→leb,
}
use vec.Base.Bits.{masked-mod}
use vec.Base.Usize.{usize_sub}
use vec.Base.Outcome.{Outcome, done, panic, undefined, Returns, Returns-bind, Returns-if}
use vec.Build.{Config, IsBuilt}
use vec.Build.Pow2.{is_power_of_two}
use vec.PageSize.{uses_mmap}
use vec.Machine.{free, Mem, Sys}
use vec.Machine.Effect.{KeepsTarget, IsSys}
use vec.Vec64.Raw.{RawVec, Deleted, indices, drain}
use vec.Vec64.Held.{IsVec, extent, cap-extent, cap-owned, mapped, extent-whole}
use vec.Vec64.Splice.{span_of, shift_tail, try_mremap_splice, or_drain, delete_range}
use vec.Vec64.Splice.Kept.{Kept, Kept-refl, Kept-wider, copy-Kept, copy-there, within-below}
use vec.Vec64.Splice.Pages.{IsSpan}
use vec.Vec64.Splice.Shift.{shift_tail-Shifted}
use native.Mathlib.Nat.{add-mul, mul-le-mul_right}

-- The elements from `start` to `end` are gone from the vector and have been dropped, those after
-- them have moved down, those before are as they were, and so is the rest of the memory, but for
-- what the block of `ext` bytes has from `start` on.
pub record Deletes (elem ext : ℕ) (v : RawVec) (start end : ℕ) (m : Mem) (r : Deleted)
    : Type 0 where
  pub ordered : start ≤ end
  pub inside : end ≤ v.len
  pub ptr : r.vec.ptr ≡ v.ptr
  pub len : r.vec.len ≡ v.len - (end - start)
  pub cap : r.vec.cap ≡ v.cap
  pub dropped : r.dropped ≡ indices start (end - start)
  pub before : (i : ℕ) → i < start * elem → r.mem.byte (v.ptr + i) ≡ m.byte (v.ptr + i)
  pub moved :
      (i : ℕ)
      → i < (v.len - end) * elem
      → r.mem.byte (v.ptr + start * elem + i) ≡ m.byte (v.ptr + end * elem + i)
  pub rest : Kept (v.ptr + start * elem) (ext - start * elem) m r.mem

-- What `delete_range` may end in.
abbrev pub Deletion : (elem ext : ℕ) → RawVec → ℕ → ℕ → Mem → Outcome Deleted → Type 0
Deletion elem ext v start end m (done r) = Deletes elem ext v start end m r
Deletion elem ext v start end m panic = (start ≤ end) × (end ≤ v.len) → ⊥
Deletion elem ext v start end m undefined = ⊥

pub Returns-Deletion :
    (elem ext : ℕ) (v : RawVec) (start end : ℕ) (m : Mem) (o : Outcome Deleted)
    → Returns (Deletes elem ext v start end m) o
    → Deletion elem ext v start end m o
Returns-Deletion elem ext v start end m (done r) h = h
Returns-Deletion elem ext v start end m panic h = absurd h
Returns-Deletion elem ext v start end m undefined h = h

IfSome : (Deleted → Type 0) → Option Deleted → Type 0
IfSome P none = Unit
IfSome P (some r) = P r

less_bytes : (i j n : ℕ) → i < j → 0 < n → i * n < j * n
less_bytes i j n h pos = omega (arith, mul-le-mul_right n h, add-mul 1 i n)

module _ {c : Config} (b : IsBuilt c) {s : Sys} (sys : IsSys s) (small : sys.page_bits ≤ b.bits)
    (gigantic : sys.page_bits ≤ 30) (elem align : ℕ) (v : RawVec) (start end : ℕ) (m : Mem)
    (vec : IsVec c s elem align v m) (ok : s.Ok m) (ordered : start ≤ end)
    (inside : end ≤ v.len) where
  abbrev All : Deleted → Type 0
  All r = Deletes elem (extent c s elem align v) v start end m r

  len_bytes : (v.len - end) * elem + end * elem ≡ v.len * elem
  len_bytes = sym (add-mul (v.len - end) end elem) ∙ ap (λ t. t * elem) (omega (arith, inside))

  range_bytes : (end - start) * elem + start * elem ≡ end * elem
  range_bytes = sym (add-mul (end - start) start elem) ∙ ap (λ t. t * elem) (omega (arith, ordered))

  len-extent : v.len * elem ≤ extent c s elem align v
  len-extent = omega (arith, mul-le-mul_right elem vec.in_cap, cap-extent b sys vec)

  prefix-owned : (i : ℕ) → i < start * elem → m.owner (v.ptr + i) ≢ free
  prefix-owned i h =
      cap-owned b sys vec i
        (omega (arith, mul-le-mul_right elem vec.in_cap, range_bytes, len_bytes))

  -- What is left to show, once the bytes have moved.
  deleted :
      (n : ℕ)
      → n ≡ start + (v.len - end)
      → (xs : List ℕ) → xs ≡ indices start (end - start)
      → (m1 : Mem)
      → ((i : ℕ)
          → i < (v.len - end) * elem
          → m1.byte (v.ptr + start * elem + i) ≡ m.byte (v.ptr + end * elem + i))
      → Kept (v.ptr + start * elem) (extent c s elem align v - start * elem) m m1
      → All (record { vec = record v { len = n }; mem = m1; dropped = xs })
  deleted n e xs g m1 moved rest = record {
    ordered = ordered;
    inside = inside;
    ptr = refl;
    len = omega (arith, e, ordered, inside);
    cap = refl;
    dropped = g;
    before = λ i h. rest.byte (v.ptr + i) (prefix-owned i h) (within-below _ _ _ (omega arith));
    moved = moved;
    rest = rest;
  }

  pub drain-Deletes : All (drain elem v start end m)
  drain-Deletes =
      deleted _ refl _ refl _ (λ i h. copy-there _ _ _ i m h)
        (Kept-wider (omega arith) (omega (arith, len-extent, len_bytes, range_bytes))
          (copy-Kept _ _ _ m))

  or_drain-Deletes :
      (o : Option Deleted) → IfSome All o → Returns All (or_drain elem v start end m o)
  unfolding IfSome
  or_drain-Deletes none h = drain-Deletes
  or_drain-Deletes (some r) h = h

  module _ (strict : start < end) (more : end < v.len) (on : c.mmap ≡ true) where
    span_of-IsSpan :
        0 < elem
        → bit_and (end * elem - start * elem) (usize_sub s.page_size 1) ≡ 0
        → uses_mmap c (v.cap * elem) ≡ true
        → IsSpan s (extent c s elem align v) (span_of elem v start end) m
    span_of-IsSpan pos whole large =
        let (at, e) = mapped b sys vec on large in
        let (ext_whole, ext_small) = extent-whole b sys vec small gigantic on large in
        record {
          base_whole = at.whole;
          ext_whole = ext_whole;
          ordered = omega (arith, less_bytes start end elem strict pos);
          more = omega (arith, less_bytes end v.len elem more pos);
          fits = len-extent;
          small = ext_small;
          span_whole = masked-mod sys.page_bits _ s.page_size sys.page_is sys.page_most whole;
          new_is = add-mul start (v.len - end) elem ∙ omega (arith, len_bytes);
          held = (rw (sym e) at at.mapped);
        }

    spliced-Deletes :
        KeepsTarget s → Returns (IfSome All) (try_mremap_splice c s elem v start end m)
    unfolding IfSome try_mremap_splice
    spliced-Deletes keeps =
        let odd = s.page_size == 0 || not (is_power_of_two s.page_size) in
        let part = not (bit_and (end * elem - start * elem) (usize_sub s.page_size 1) == 0) in
        let finish : Mem → Outcome (Option Deleted) = λ m1. done (
          some (record {
            vec = record v { len = start + (v.len - end) };
            mem = m1;
            dropped = indices start (end - start);
          })) in
        elim (Bool-cases odd) [
          | inl stop ↦ rw stop tt
          | inr page ↦ elim (Bool-cases (elem == 0)) [
            | inl stop ↦ rw (page, stop) tt
            | inr sized ↦ elim (Bool-cases part) [
              | inl stop ↦ rw (page, sized, stop) tt
              | inr whole ↦ elim (Bool-cases (uses_mmap c (v.cap * elem))) [
                | inl large ↦
                    rw (page, sized, whole, large)
                      (Returns-bind (IfSome All) finish
                        (λ m1 sh.
                          deleted _ refl _ refl m1 (λ i h. sh.moved i (omega (arith, h, len_bytes)))
                            sh.kept)
                        (shift_tail s (span_of elem v start end) m)
                        (shift_tail-Shifted sys keeps
                          (span_of-IsSpan (ground (arith, sized)) (ground (arith, whole)) large)
                          ok))
                | inr stop ↦ rw (page, sized, whole, stop) tt
              ]
            ]
          ]
        ]

  pub delete_range-Deletes : KeepsTarget s → Returns All (delete_range c s elem v start end m)
  unfolding delete_range
  delete_range-Deletes keeps =
      rw (le→leb start end ordered, le→leb end v.len inside)
        (elim (Bool-cases (start == end)) [
          | inl same ↦ rw same (
              let e : start ≡ end = ground (arith, same) in
              let nothing : 0 ≡ end - start = omega (arith, e) in
              deleted v.len (omega arith) [] (ap (indices start) nothing) m
                (λ i h. ap (λ t. m.byte (v.ptr + t * elem + i)) e) (Kept-refl _ _ m))
          | inr strict ↦ elim (Bool-cases (end == v.len)) [
            | inl last ↦
                rw (strict, last, shorter)
                  (let e : v.len ≡ end = ground (arith, last) in
                    deleted start (omega (arith, e)) _ (ap (λ t. indices start (t - start)) e) m
                      (λ i h. absurd (omega (arith, len_bytes, ap (λ t. t * elem) e)))
                      (Kept-refl _ _ m))
            | inr more ↦
                rw (strict, more)
                  (Returns-if All c.mmap _ _
                    (λ on.
                      Returns-bind All (or_drain elem v start end m) or_drain-Deletes
                        (try_mremap_splice c s elem v start end m)
                        (spliced-Deletes (ground (arith, strict)) (ground (arith, more)) on keeps))
                    drain-Deletes)
          ]
        ])
    where
      shorter : ltb v.len start ≡ false
      shorter = ground (arith, ordered, inside)
