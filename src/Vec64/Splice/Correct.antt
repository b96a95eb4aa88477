-- ===== src/Vec64/Splice/Correct.antt =====
-- `delete_range` deletes the range, and moving the pages comes to what draining does.
use vec.Base.{
  ℕ, ◌+◌, ◌-◌, ◌*◌, ◌≤◌, ◌<◌, ◌≡◌, sym, ap, ◌∙◌, arith, leb, Bool-cases, inl, inr, leb→le, dec_lt,
}
use vec.Base.Outcome.{Returns, Returns-map}
use vec.Build.{Config, IsBuilt}
use vec.Machine.{Mem, Sys}
use vec.Machine.Effect.{KeepsTarget, IsSys}
use vec.Vec64.Raw.{RawVec, Deleted, drain}
use vec.Vec64.Held.{IsVec, extent}
use vec.Vec64.Splice.{delete_range}
use native.Mathlib.Nat.{add-mul}
use vec.Vec64.Splice.Deletes.{
  Deletes, Deletion, Returns-Deletion, drain-Deletes, delete_range-Deletes,
}

pub delete_range-Deletion :
    {c : Config} (b : IsBuilt c) {s : Sys} (sys : IsSys s)
    → KeepsTarget s
    → sys.page_bits ≤ b.bits
    → sys.page_bits ≤ 30
    → (elem align : ℕ) (v : RawVec) (start end : ℕ) (m : Mem) (vec : IsVec c s elem align v m)
    → s.Ok m
    → Deletion elem (extent c s elem align v) v start end m (delete_range c s elem v start end m)
unfolding delete_range
delete_range-Deletion {c} b {s} sys keeps small gigantic elem align v start end m vec ok =
    elim (Bool-cases (leb start end)) [
      | inl ordered ↦ elim (Bool-cases (leb end v.len)) [
        | inl inside ↦ Returns-Deletion _ _ _ _ _ _ _ (
            delete_range-Deletes b sys small gigantic elem align v start end m vec ok
              (leb→le start end ordered) (leb→le end v.len inside) keeps)
        | inr beyond ↦ rw (ordered, beyond) (λ h. ground (arith, beyond, h.1))
      ]
      | inr crossed ↦ rw crossed (λ h. ground (arith, crossed, h.0))
    ]

-- The same vector, with the same elements, and the same elements dropped.
pub record SameElements (elem : ℕ) (r r' : Deleted) : Type 0 where
  pub ptr : r.vec.ptr ≡ r'.vec.ptr
  pub len : r.vec.len ≡ r'.vec.len
  pub cap : r.vec.cap ≡ r'.vec.cap
  pub dropped : r.dropped ≡ r'.dropped
  pub bytes :
      (i : ℕ) → i < r.vec.len * elem → r.mem.byte (r.vec.ptr + i) ≡ r'.mem.byte (r.vec.ptr + i)

module _ (elem ext : ℕ) (v : RawVec) (start end : ℕ) (m : Mem) (r r' : Deleted) where
  Deletes-SameElements :
      Deletes elem ext v start end m r → Deletes elem ext v start end m r' → SameElements elem r r'
  Deletes-SameElements f g = record {
    ptr = f.ptr ∙ sym g.ptr;
    len = f.len ∙ sym g.len;
    cap = f.cap ∙ sym g.cap;
    dropped = f.dropped ∙ sym g.dropped;
    bytes = λ i h. rw (f.ptr) (bytes i (rw (f.len ∙ count) at h));
  }
    where
      count : v.len - (end - start) ≡ start + (v.len - end)
      count = omega (arith, f.ordered, f.inside)

      bytes :
          (i : ℕ)
          → i < (start + (v.len - end)) * elem
          → r.mem.byte (v.ptr + i) ≡ r'.mem.byte (v.ptr + i)
      bytes i h = elim (dec_lt i (start * elem)) [
        | yes low ↦ f.before i low ∙ sym (g.before i low)
        | no high ↦
            let j = i - start * elem in
            let at : v.ptr + start * elem + j ≡ v.ptr + i = omega arith in
            let inside : j < (v.len - end) * elem =
              omega (arith, h, add-mul start (v.len - end) elem) in
            ap r.mem.byte (sym at) ∙ f.moved j inside ∙ sym (g.moved j inside) ∙ ap r'.mem.byte at
      ]

pub delete_range-drain :
    {c : Config} (b : IsBuilt c) {s : Sys} (sys : IsSys s)
    → KeepsTarget s
    → sys.page_bits ≤ b.bits
    → sys.page_bits ≤ 30
    → (elem align : ℕ) (v : RawVec) (start end : ℕ) (m : Mem) → IsVec c s elem align v m
    → s.Ok m
    → start ≤ end
    → end ≤ v.len
    → Returns (SameElements elem (drain elem v start end m)) (delete_range c s elem v start end m)
delete_range-drain {c} b {s} sys keeps small gigantic elem align v start end m vec ok ordered
      inside =
    Returns-map {P = Deletes elem (extent c s elem align v) v start end m}
      (λ r. Deletes-SameElements elem _ v start end m _ r drained)
      (delete_range c s elem v start end m)
      (delete_range-Deletes b sys small gigantic elem align v start end m vec ok ordered inside
        keeps)
  where
    drained : Deletes elem (extent c s elem align v) v start end m (drain elem v start end m)
    drained = drain-Deletes b sys small gigantic elem align v start end m vec ok ordered inside
