-- ===== src/Vec64/Items/Pushed.antt =====
-- Pushing items one after the other, with a `Vec::reserve` that keeps its promise.
use vec.Base.{
  ℕ, suc, ◌+◌, ◌*◌, ◌≤◌, ◌<◌, ◌≡◌, inl, inr, refl, subst, List, [], ◌∷◌, ◌++◌, length, arith, leb,
  Bool-cases, leb→le,
}
use vec.Base.Outcome.{Outcome, done, panic, undefined, ◌>>=◌}
use vec.Build.{Config, IsBuilt}
use vec.Machine.{Mem, Sys}
use vec.Machine.Effect.{IsSys}
use vec.Vec64.Raw.{RawVec}
use vec.Vec64.Held.{IsVec}
use vec.Vec64.Append.Tried.{Reserves}
use vec.Vec64.Items.{Item, put, push_item, push_all}
use vec.Vec64.Items.Extends.{Extends, Extends-refl, Extends-trans}
use vec.Vec64.Items.Put.{put-Extends}

-- What a call that adds `k` elements to `v` may end in: it panics only where they do not fit in the capacity.
abbrev pub Extending : RawVec → ℕ → (RawVec → Mem → Type 0) → Outcome (RawVec × Mem) → Type 0
Extending v k P (done (v1, m1)) = P v1 m1
Extending v k P panic = v.cap < v.len + k
Extending v k P undefined = ⊥

pub Extending-bind :
    (v : RawVec) (k : ℕ) (P Q : RawVec → Mem → Type 0) (f : RawVec × Mem → Outcome (RawVec × Mem))
    (o : Outcome (RawVec × Mem))
    → ((v1 : RawVec) (m1 : Mem) → P v1 m1 → Extending v k Q (f (v1, m1)))
    → Extending v k P o
    → Extending v k Q (o >>= f)
Extending-bind v k P Q f (done (v1, m1)) g h = g v1 m1 h
Extending-bind v k P Q f panic g h = h
Extending-bind v k P Q f undefined g h = h

pub Extending-map :
    (v w : RawVec) (k n : ℕ) (P Q : RawVec → Mem → Type 0) (o : Outcome (RawVec × Mem))
    → ((v1 : RawVec) (m1 : Mem) → P v1 m1 → Q v1 m1)
    → (v.cap < v.len + k → w.cap < w.len + n)
    → Extending v k P o
    → Extending w n Q o
Extending-map v w k n P Q (done (v1, m1)) f g h = f v1 m1 h
Extending-map v w k n P Q panic f g h = g h
Extending-map v w k n P Q undefined f g h = h

-- What the documentation of `Vec::reserve` says: it does nothing where there is room; elsewhere it makes room and keeps the
-- elements, or panics.
pub record IsReserve (c : Config) (s : Sys) (elem align : ℕ)
    (reserve : RawVec → ℕ → Mem → Outcome (RawVec × Mem)) : Type 0 where
  pub enough : Reserves reserve
  pub more :
      (v : RawVec) (n : ℕ) (m : Mem)
      → IsVec c s elem align v m
      → s.Ok m
      → Extending v n
          (λ v1 m1. Extends c s elem align v m [] 0 v1 m1 × (v1.len + n ≤ v1.cap))
          (reserve v n m)

-- Items of `elem` bytes each, and their bytes one after the other.
abbrev pub Sized : ℕ → List Item → Type 0
Sized elem [] = Unit
Sized elem (x ∷ xs) = (length x ≡ elem) × Sized elem xs

abbrev pub flat : List Item → List ℕ
flat [] = []
flat (x ∷ xs) = x ++ flat xs

module _ {c : Config} (b : IsBuilt c) {s : Sys} (sys : IsSys s) (elem align : ℕ)
    (reserve : RawVec → ℕ → Mem → Outcome (RawVec × Mem))
    (law : IsReserve c s elem align reserve) where
  -- The item is written behind the last one.
  after_push :
      (v : RawVec) (m : Mem) (x : Item) (v1 : RawVec) (m1 : Mem)
      → length x ≡ elem
      → Extends c s elem align v m [] 0 v1 m1
      → v1.len + 1 ≤ v1.cap
      → Extends c s elem align v m x 1
          (record v1 { len = v1.len + 1 })
          (put (v1.ptr + v1.len * elem) x m1)
  after_push v m x v1 m1 sized ext room =
      Extends-trans v m [] 0 v1 m1 x 1 _ _ ext
        (put-Extends b sys elem align v1 m1 ext.vec ext.ok x sized room)

  pub push_item-Extends :
      (v : RawVec) (m : Mem) (x : Item)
      → IsVec c s elem align v m
      → s.Ok m
      → length x ≡ elem
      → Extending v 1 (Extends c s elem align v m x 1) (push_item reserve elem v x m)
  unfolding push_item
  push_item-Extends v m x vv ok sized =
      Extending-bind v 1 _ (Extends c s elem align v m x 1) _ (reserve v 1 m)
        (λ v1 m1 got. after_push v m x v1 m1 sized got.0 got.1) (law.more v 1 m vv ok)

  push_room :
      (v : RawVec) (m : Mem) (x : Item)
      → v.len + 1 ≤ v.cap
      → push_item reserve elem v x m
        ≡ done (record v { len = v.len + 1 }, put (v.ptr + v.len * elem) x m)
  unfolding push_item
  push_room v m x room = rw (law.enough v 1 m room) refl

  -- The rest of the items, after the first.
  and_rest :
      (x : Item) (xs : List Item) (v : RawVec) (m : Mem) (v1 : RawVec) (m1 : Mem) (w : RawVec)
      (n : ℕ)
      → Extends c s elem align v m x 1 v1 m1
      → (v1.cap < v1.len + length xs → w.cap < w.len + n)
      → Extending v1
          (length xs)
          (Extends c s elem align v1 m1 (flat xs) (length xs))
          (push_all reserve elem v1 xs m1)
      → Extending w n
          (Extends c s elem align v m (x ++ flat xs) (suc (length xs)))
          (push_all reserve elem v1 xs m1)
  and_rest x xs v m v1 m1 w n first full =
      let count : 1 + length xs ≡ suc (length xs) = omega arith in
      Extending-map v1 w (length xs) n (Extends c s elem align v1 m1 (flat xs) (length xs)) _
        (push_all reserve elem v1 xs m1)
        (λ v2 m2 more.
          subst (λ k. Extends c s elem align v m (x ++ flat xs) k v2 m2) count
            (Extends-trans v m x 1 v1 m1 (flat xs) (length xs) v2 m2 first more))
        full

  -- All the items are added, in order; the call panics only where they do not fit in the capacity.
  pub push_all-Extends :
      (xs : List Item) (v : RawVec) (m : Mem)
      → IsVec c s elem align v m
      → s.Ok m
      → Sized elem xs
      → Extending v
          (length xs)
          (Extends c s elem align v m (flat xs) (length xs))
          (push_all reserve elem v xs m)
  unfolding push_all
  push_all-Extends [] v m vv ok sized = Extends-refl v m vv ok
  push_all-Extends (x ∷ xs) v m vv ok (one, sized) =
      elim (Bool-cases (leb (v.len + suc (length xs)) v.cap)) [
        | inl room ↦
            let fits : v.len + suc (length xs) ≤ v.cap = leb→le _ _ room in
            let v1 : RawVec = record v { len = v.len + 1 } in
            let m1 = put (v.ptr + v.len * elem) x m in
            let first : Extends c s elem align v m x 1 v1 m1 =
              put-Extends b sys elem align v m vv ok x one (omega arith) in
            rw (push_room v m x (omega arith)) (
              and_rest x xs v m v1 m1 v (suc (length xs)) first (λ h. omega arith)
                (push_all-Extends xs v1 m1 first.vec first.ok sized))
        | inr tight ↦
            let full : v.cap < v.len + suc (length xs) = ground (arith, tight) in
            Extending-bind v (suc (length xs)) (Extends c s elem align v m x 1) _
              (λ r. push_all reserve elem r.0 xs r.1) (push_item reserve elem v x m)
              (λ v1 m1 first.
                and_rest x xs v m v1 m1 v (suc (length xs)) first (λ h. full)
                  (push_all-Extends xs v1 m1 first.vec first.ok sized))
              (Extending-map v v 1 (suc (length xs)) _ _ (push_item reserve elem v x m)
                (λ v1 m1 h. h) (λ h. full) (push_item-Extends v m x vv ok one))
      ]
