-- ===== src/Vec64/Append/Absorb.antt =====
-- `extend_from_vec64` where the vector may have to grow.
use vec.Base.{
  ℕ, ◌+◌, ◌-◌, ◌*◌, ◌≤◌, ◌<◌, ◌≡◌, ◌≢◌, ◌⊎◌, inl, inr, refl, sym, ap, ap₂, subst, ◌∙◌, [], ◌++◌,
  Bool, true, false, none, within, within-add, arith, leb, ltb, ◌==◌, Bool-cases, leb→le,
  if◌then◌else◌,
}
use vec.Base.Outcome.{Outcome, done, panic, undefined, Returns, ◌>>=◌}
use vec.Build.{Config, IsBuilt}
use vec.Machine.{free, Layout, Mem, Sys}
use vec.Machine.Effect.{KeepsTarget, IsSys}
use vec.Allocator.{IsLayout}
use vec.Vec64.Raw.{RawVec, copy_nonoverlapping}
use vec.Vec64.Held.{
  holding, layout_of, IsVec, extent, extent-owned, cap-owned, cap-extent, block-owned,
}
use vec.Vec64.Append.{free_buffer, try_mremap_append, extend, extend_from_vec64}
use vec.Vec64.Append.Free.{Clear}
use vec.Vec64.Append.Elements.{Separate, Appends, extend-Appends}
use vec.Vec64.Append.Tried.{IsPlain}
use vec.Vec64.Append.Correct.{extend_from_vec64-Appends}
use vec.Vec64.Chunks.Contents.{contents, read-eq}
use vec.Vec64.Chunks.Apart.{appended-contents}
use vec.Vec64.Items.Extends.{Extends, Extends-refl}
use vec.Vec64.Items.Pushed.{IsReserve, Extending, Extending-bind}
use mathlib.Core.List.{append-nil}
use native.Mathlib.Nat.{mul-le-mul_right}

-- The elements of `w` stand after those of `v`, in a block that was that of `v` or free. The rest of the block of `v` and the block of
-- `w` are free, and everything else is as before.
pub record Absorbs (c : Config) (s : Sys) (elem align : ℕ) (v w : RawVec) (m : Mem) (v1 : RawVec)
    (m1 : Mem) : Type 0 where
  pub len : v1.len ≡ v.len + w.len
  pub bytes : contents elem v1 m1 ≡ contents elem v m ++ contents elem w m
  pub vec : IsVec c s elem align v1 m1
  pub ok : s.Ok m1
  pub taken :
      (a : ℕ)
      → within v1.ptr (extent c s elem align v1) a ≡ true
      → (m.owner a ≡ free) ⊎ (within v.ptr (extent c s elem align v) a ≡ true)
  pub given :
      (a : ℕ)
      → within v.ptr (extent c s elem align v) a ≡ true
      → within v1.ptr (extent c s elem align v1) a ≡ false
      → m1.owner a ≡ free
  pub released : (a : ℕ) → within w.ptr (extent c s elem align w) a ≡ true → m1.owner a ≡ free
  pub owners :
      (a : ℕ)
      → within v.ptr (extent c s elem align v) a ≡ false
      → within w.ptr (extent c s elem align w) a ≡ false
      → within v1.ptr (extent c s elem align v1) a ≡ false
      → m1.owner a ≡ m.owner a
  pub kept :
      (a : ℕ)
      → m.owner a ≢ free
      → within v.ptr (extent c s elem align v) a ≡ false
      → within w.ptr (extent c s elem align w) a ≡ false
      → m1.byte a ≡ m.byte a
  pub others :
      (r : ℕ) (l : Layout)
      → 0 < l.size
      → IsLayout l
      → Clear c s elem align v r l
      → Clear c s elem align w r l
      → (holding c s).Holds m r l
      → (holding c s).Holds m1 r l

module _ {c : Config} (b : IsBuilt c) {s : Sys} (sys : IsSys s) (small : sys.page_bits ≤ b.bits)
    (gigantic : sys.page_bits ≤ 30) (elem align : ℕ) (v w : RawVec) (m : Mem)
    (vv : IsVec c s elem align v m) (vw : IsVec c s elem align w m)
    (sep : Separate c s elem align v w) where
  -- After room was made.
  module _ (v1 : RawVec) (m1 : Mem) (ext : Extends c s elem align v m [] 0 v1 m1) where
    still_apart : Separate c s elem align v1 w
    still_apart a h = ground (arith, ext.taken a h, sep a, extent-owned b sys vw a)

    w-Clear : Clear c s elem align v w.ptr (layout_of elem align w.cap)
    w-Clear a h = ground (arith, sep a)

    w-IsVec : IsVec c s elem align w m1
    w-IsVec = record {
      is_layout = vw.is_layout;
      in_cap = vw.in_cap;
      held = λ pos.
          ext.others w.ptr (layout_of elem align w.cap) pos vw.is_layout w-Clear (vw.held pos);
    }

    w_bytes : contents elem w m1 ≡ contents elem w m
    w_bytes = read-eq w.ptr w.ptr (w.len * elem) m m1 (λ i h.
        let inside : i < w.cap * elem = omega (arith, mul-le-mul_right elem vw.in_cap) in
        let here : within w.ptr (extent c s elem align w) (w.ptr + i) ≡ true =
          within-add w.ptr (extent c s elem align w) i (omega (arith, cap-extent b sys vw)) in
        ext.kept (w.ptr + i) (cap-owned b sys vw i inside) (ground (arith, here, sep (w.ptr + i))))

    -- Then the elements, or the pages, were moved.
    both :
        (m2 : Mem)
        → Appends c s elem align v1 w m1 (record v1 { len = v1.len + w.len }) m2
        → Absorbs c s elem align v w m (record v1 { len = v1.len + w.len }) m2
    both m2 app = record {
      len = omega (arith, ext.len);
      bytes =
          appended-contents b sys elem align v1 w m1 (record v1 { len = v1.len + w.len }) m2 app
            w-IsVec
          ∙ ap₂ (λ xs ys. xs ++ ys) (ext.bytes ∙ append-nil (contents elem v m)) w_bytes;
      vec = app.vec;
      ok = app.ok;
      taken = ext.taken;
      given = λ a h g.
          let away : within w.ptr (extent c s elem align w) a ≡ false = sep a h in
          app.owners a away ∙ ext.released a h g;
      released = app.released;
      owners = λ a h g k. app.owners a g ∙ ext.owners a h k;
      kept = λ a h g k.
          let out : within v1.ptr (extent c s elem align v1) a ≡ false =
            ground (arith, ext.taken a) in
          app.bytes a (ground (arith, ext.owners a g out)) out k ∙ ext.kept a h g;
      others = λ r l pos vl clear_v clear_w h.
          app.others r l pos vl
            (λ a i. ground (arith, ext.taken a, clear_v a i, block-owned c s c.mmap l m r a h i))
            clear_w (ext.others r l pos vl clear_v h);
    }

    joined :
        (v2 : RawVec) (m2 : Mem)
        → Appends c s elem align v1 w m1 v2 m2
        → Absorbs c s elem align v w m v2 m2
    joined v2 m2 app =
        subst (λ x. Absorbs c s elem align v w m x m2) (sym app.result)
          (both m2 (subst (λ x. Appends c s elem align v1 w m1 x m2) app.result app))

  Returns-Extending :
      (k : ℕ) (P : RawVec → Mem → Type 0) (Q : RawVec × Mem → Type 0) (o : Outcome (RawVec × Mem))
      → ((v1 : RawVec) (m1 : Mem) → Q (v1, m1) → P v1 m1)
      → Returns Q o
      → Extending v k P o
  Returns-Extending k P Q (done (v1, m1)) f h = f v1 m1 h
  Returns-Extending k P Q panic f h = absurd h
  Returns-Extending k P Q undefined f h = h

  Extending-if :
      (g : Bool) (k : ℕ) (P : RawVec → Mem → Type 0) (o o' : Outcome (RawVec × Mem))
      → Extending v k P o
      → Extending v k P o'
      → Extending v k P (if g then o else o')
  Extending-if true k P o o' h h' = h
  Extending-if false k P o o' h h' = h'

  module _ (reserve : RawVec → ℕ → Mem → Outcome (RawVec × Mem))
      (law : IsReserve c s elem align reserve) (ok : s.Ok m) where
    -- What `extend` does after `reserve`.
    abbrev move_elements : RawVec × Mem → Outcome (RawVec × Mem)
    move_elements (v1, m1) = do
      m2 ← copy_nonoverlapping w.ptr (v1.ptr + v1.len * elem) (w.len * elem) m1
      m3 ← free_buffer c s elem align w m2
      done (record v1 { len = v1.len + w.len }, m3)

    extend-Absorbs :
        Extending v w.len (Absorbs c s elem align v w m) (extend reserve c s elem align v w m)
    unfolding extend
    extend-Absorbs =
        Extending-bind v w.len _ (Absorbs c s elem align v w m) move_elements (reserve v w.len m)
          (λ v1 m1 got.
            Returns-Extending w.len (Absorbs c s elem align v w m)
              (λ r. Appends c s elem align v1 w m1 r.0 r.1) (move_elements (v1, m1))
              (joined v1 m1 got.0)
              (subst (Returns (λ r. Appends c s elem align v1 w m1 r.0 r.1))
                (ap (λ o. o >>= move_elements) (law.enough v1 w.len m1 got.1))
                (extend-Appends b sys small gigantic reserve elem align v1 w m1 got.0.vec
                  (w-IsVec v1 m1 got.0) (still_apart v1 m1 got.0) got.1 got.0.ok
                  (law.enough v1 w.len m1 got.1))))
          (law.more v w.len m vv ok)

    -- Without room no pages are moved.
    no_pages : v.cap < v.len + w.len → try_mremap_append c s elem align v w m ≡ (none, m)
    unfolding try_mremap_append
    no_pages tight = elim (Bool-cases (elem == 0)) [
      | inl zst ↦ rw zst refl
      | inr sized ↦
          let short : ltb (v.cap - v.len) w.len ≡ true = ground (arith, vv.in_cap) in
          rw (sized, short) refl
    ]

    grown :
        v.cap < v.len + w.len
        → Extending v w.len
            (Absorbs c s elem align v w m)
            (extend_from_vec64 reserve c s elem align v w m)
    unfolding extend_from_vec64
    grown tight =
        let some_elements : (w.len == 0) ≡ false = ground (arith, vv.in_cap) in
        rw some_elements (
          Extending-if c.mmap w.len (Absorbs c s elem align v w m) _
            (extend reserve c s elem align v w m) (rw (no_pages tight) extend-Absorbs)
            extend-Absorbs)

    pub extend_from_vec64-Absorbs :
        KeepsTarget s
        → IsPlain c elem w
        → Extending v w.len
            (Absorbs c s elem align v w m)
            (extend_from_vec64 reserve c s elem align v w m)
    extend_from_vec64-Absorbs keeps plain = elim (Bool-cases (leb (v.len + w.len) v.cap)) [
      | inl room ↦
          Returns-Extending w.len (Absorbs c s elem align v w m) _
            (extend_from_vec64 reserve c s elem align v w m) (joined v m (Extends-refl v m vv ok))
            (extend_from_vec64-Appends b sys small gigantic reserve law.enough elem align v w m vv
              vw sep (leb→le _ _ room) ok keeps plain)
      | inr tight ↦ grown (ground (arith, tight))
    ]
