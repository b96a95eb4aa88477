-- ===== src/Vec64/Append/Correct.antt =====
-- `extend_from_vec64` appends, by pages or by elements.
use vec.Base.{
  ℕ, ◌+◌, ◌*◌, ◌≤◌, ◌≡◌, ap, subst, Option, none, some, arith, ◌==◌, Bool-cases, inl, inr, ==_iff,
}
use vec.Base.Outcome.{Outcome, done, Returns, Returns-map, Returns-bind, Returns-if}
use vec.Build.{Config, IsBuilt}
use vec.Machine.{Mem, Sys}
use vec.Machine.Effect.{KeepsTarget, IsSys}
use vec.Vec64.Raw.{RawVec}
use vec.Vec64.Held.{IsVec}
use vec.Vec64.Append.{free_buffer, try_mremap_append, extend, or_extend, extend_from_vec64}
use vec.Vec64.Append.Free.{Freed, free_buffer-Freed}
use vec.Vec64.Append.Elements.{Separate, Appends, extend-Appends, finish}
use vec.Vec64.Splice.Kept.{Kept-refl}
use vec.Vec64.Append.Tried.{
  Reserves, IsPlain, Tried, still, Appends-Unchanged, try_mremap_append-Tried,
}

module _ {c : Config} (b : IsBuilt c) {s : Sys} (sys : IsSys s) (small : sys.page_bits ≤ b.bits)
    (gigantic : sys.page_bits ≤ 30) (reserve : RawVec → ℕ → Mem → Outcome (RawVec × Mem))
    (reserves : Reserves reserve) (elem align : ℕ) (v w : RawVec) (m : Mem)
    (vv : IsVec c s elem align v m) (vw : IsVec c s elem align w m)
    (sep : Separate c s elem align v w) (fits : v.len + w.len ≤ v.cap) (ok : s.Ok m) where
  abbrev Result : RawVec × Mem → Type 0
  Result r = Appends c s elem align v w m r.0 r.1

  or_extend-Appends :
      (o : Option RawVec × Mem)
      → Tried b sys small gigantic elem align v w m vv vw sep fits ok o
      → Returns Result (or_extend reserve c s elem align v w o)
  or_extend-Appends (some v1, m1) h = h
  or_extend-Appends (none, m1) (un, ok1) =
      Returns-map {P = λ r. Appends c s elem align v w m1 r.0 r.1}
        (λ r.
          Appends-Unchanged b sys small gigantic elem align v w m vv vw sep fits ok m1 r.0 r.1 un)
        (extend reserve c s elem align v w m1)
        (extend-Appends b sys small gigantic reserve elem align v w m1 (as_before v vv)
          (as_before w vw) sep fits ok1 (reserves v w.len m1 fits))
    where
      as_before : (x : RawVec) → IsVec c s elem align x m → IsVec c s elem align x m1
      as_before x = still b sys small gigantic elem align v w m vv vw sep fits ok x m1 un

  -- Nothing to append.
  emptied : w.len ≡ 0 → (m1 : Mem) → Freed c s elem align w m m1 → Result (v, m1)
  emptied e m1 gone =
      subst (λ n. Result (record v { len = n }, m1)) (omega (arith, e))
        (finish b sys elem align v w m vv vw sep fits m m1 (Kept-refl _ _ m)
          (λ i h. absurd (omega (arith, h, ap (λ t. t * elem) e))) gone)

  pub extend_from_vec64-Appends :
      KeepsTarget s
      → IsPlain c elem w
      → Returns Result (extend_from_vec64 reserve c s elem align v w m)
  unfolding extend_from_vec64
  extend_from_vec64-Appends keeps plain = elim (Bool-cases (w.len == 0)) [
    | inl empty ↦ rw empty (
        Returns-bind Result (λ m1. done (v, m1)) (emptied ((==_iff w.len 0).0 empty))
          (free_buffer c s elem align w m)
          (free_buffer-Freed b sys small gigantic elem align w m vw ok))
    | inr more ↦ rw more (
        Returns-if Result c.mmap _ _
          (λ on. or_extend-Appends (try_mremap_append c s elem align v w m) (
            try_mremap_append-Tried b sys small gigantic elem align v w m vv vw sep fits ok keeps on
              (ground (arith, more)) plain))
          (extend-Appends b sys small gigantic reserve elem align v w m vv vw sep fits ok
            (reserves v w.len m fits)))
  ]
