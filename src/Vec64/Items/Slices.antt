-- ===== src/Vec64/Items/Slices.antt =====
-- Extending a vector by the items of a slice, and `io::Write`.
use vec.Base.{
  ℕ, zero, suc, ◌+◌, ◌*◌, ◌≤◌, ◌<◌, ◌≡◌, ◌≢◌, refl, sym, ap, ap₂, subst, ◌∙◌, List, [], ◌∷◌, ◌++◌,
  map, true, false, length, within, within-add, arith,
}
use vec.Base.Outcome.{Outcome, done, panic, undefined, ◌>>=◌}
use vec.Build.{Config, IsBuilt}
use vec.Machine.{free, Mem, Sys}
use vec.Machine.Effect.{IsSys}
use vec.Vec64.Raw.{RawVec}
use vec.Vec64.Held.{IsVec, extent}
use vec.Vec64.Chunks.Contents.{read, read-eq, read-add}
use vec.Vec64.Items.{Item, items, push_all, extend_from_slice, write, write_all}
use vec.Vec64.Items.Extends.{Extends, Extends-trans}
use vec.Vec64.Items.Pushed.{
  Extending, Extending-bind, Extending-map, IsReserve, Sized, flat, push_all-Extends,
}
use native.Mathlib.Nat.{add-mul, mul-one, one-mul, zero-mul}

-- The slice belongs to somebody, and to nobody's vector `v`.
pub record Foreign (c : Config) (s : Sys) (elem align : ℕ) (v : RawVec) (src n : ℕ) (m : Mem)
    : Type 0 where
  pub owned : (a : ℕ) → within src (n * elem) a ≡ true → m.owner a ≢ free
  pub outside :
      (a : ℕ) → within src (n * elem) a ≡ true → within v.ptr (extent c s elem align v) a ≡ false

suc_mul : (n elem : ℕ) → suc n * elem ≡ elem + n * elem
suc_mul n elem =
    let e : suc n ≡ 1 + n = omega arith in
    ap (λ k. k * elem) e ∙ add-mul 1 n elem ∙ ap (λ k. k + n * elem) (one-mul elem)

pub flat-items : (elem p n : ℕ) (m : Mem) → flat (items elem p n m) ≡ read p (n * elem) m
unfolding items read
flat-items elem p zero m = ap (λ k. read p k m) (sym (zero-mul elem))
flat-items elem p (suc n) m =
    ap (λ t. read p elem m ++ t) (flat-items elem (p + elem) n m)
    ∙ sym (read-add p elem (n * elem) m)
    ∙ ap (λ k. read p k m) (sym (suc_mul n elem))

length-read : (p n : ℕ) (m : Mem) → length (read p n m) ≡ n
unfolding read
length-read p zero m = refl
length-read p (suc n) m = ap suc (length-read (p + 1) n m)

pub items-Sized : (elem p n : ℕ) (m : Mem) → Sized elem (items elem p n m)
unfolding items
items-Sized elem p zero m = tt
items-Sized elem p (suc n) m = (length-read p elem m, items-Sized elem (p + elem) n m)

pub length-items : (elem p n : ℕ) (m : Mem) → length (items elem p n m) ≡ n
unfolding items
length-items elem p zero m = refl
length-items elem p (suc n) m = ap suc (length-items elem (p + elem) n m)

pub items-eq :
    (elem p n : ℕ) (m m1 : Mem)
    → ((i : ℕ) → i < n * elem → m1.byte (p + i) ≡ m.byte (p + i))
    → items elem p n m1 ≡ items elem p n m
unfolding items
items-eq elem p zero m m1 h = refl
items-eq elem p (suc n) m m1 h =
    ap₂ (λ x xs. x ∷ xs) (read-eq p p elem m m1 (λ i g. h i (omega (arith, suc_mul n elem))))
      (items-eq elem (p + elem) n m m1 (λ i g.
        let at : p + elem + i ≡ p + (elem + i) = omega arith in
        ap m1.byte at ∙ h (elem + i) (omega (arith, suc_mul n elem)) ∙ ap m.byte (sym at)))

pub map-Sized :
    (elem : ℕ) (clone : Item → Item)
    → ((x : Item) → length x ≡ elem → length (clone x) ≡ elem)
    → (xs : List Item) → Sized elem xs
    → Sized elem (map clone xs)
map-Sized elem clone h [] sized = tt
map-Sized elem clone h (x ∷ xs) (one, sized) = (h x one, map-Sized elem clone h xs sized)

pub length-map : (f : Item → Item) (xs : List Item) → length (map f xs) ≡ length xs
length-map f [] = refl
length-map f (x ∷ xs) = ap suc (length-map f xs)

map-same : (xs : List Item) → map (λ x. x) xs ≡ xs
map-same [] = refl
map-same (x ∷ xs) = ap (λ t. x ∷ t) (map-same xs)

module _ {c : Config} (b : IsBuilt c) {s : Sys} (sys : IsSys s) (elem align : ℕ)
    (reserve : RawVec → ℕ → Mem → Outcome (RawVec × Mem)) (law : IsReserve c s elem align reserve)
    (clone : Item → Item) (sized : (x : Item) → length x ≡ elem → length (clone x) ≡ elem)
    (v : RawVec) (src n : ℕ) (m : Mem) (vv : IsVec c s elem align v m) (ok : s.Ok m)
    (slice : Foreign c s elem align v src n m) where
  abbrev cloned : List Item
  cloned = map clone (items elem src n m)

  count : length cloned ≡ n
  count = length-map clone (items elem src n m) ∙ length-items elem src n m

  counted : 0 + length cloned ≡ n
  counted = omega (arith, count)

  same :
      (v1 : RawVec) (m1 : Mem)
      → Extends c s elem align v m [] 0 v1 m1
      → items elem src n m1 ≡ items elem src n m
  same v1 m1 ext = items-eq elem src n m m1 (λ i g.
      let here = within-add src (n * elem) i g in
      ext.kept (src + i) (slice.owned (src + i) here) (slice.outside (src + i) here))

  after_reserve :
      (v1 : RawVec) (m1 : Mem)
      → Extends c s elem align v m [] 0 v1 m1
      → v1.len + n ≤ v1.cap
      → Extending v n
          (Extends c s elem align v m (flat cloned) n)
          (push_all reserve elem v1 cloned m1)
  after_reserve v1 m1 ext room =
      Extending-map v1 v (length cloned) n
        (Extends c s elem align v1 m1 (flat cloned) (length cloned))
        (Extends c s elem align v m (flat cloned) n) (push_all reserve elem v1 cloned m1)
        (λ v2 m2 more.
          subst (λ k. Extends c s elem align v m (flat cloned) k v2 m2) counted
            (Extends-trans v m [] 0 v1 m1 (flat cloned) (length cloned) v2 m2 ext more))
        (λ full. absurd (omega (arith, count)))
        (push_all-Extends b sys elem align reserve law cloned v1 m1 ext.vec ext.ok
          (map-Sized elem clone sized _ (items-Sized elem src n m)))

  pub extend_from_slice-Extends :
      Extending v n
        (Extends c s elem align v m (flat cloned) n)
        (extend_from_slice reserve elem clone v src n m)
  unfolding extend_from_slice
  extend_from_slice-Extends =
      Extending-bind v n _ (Extends c s elem align v m (flat cloned) n) _ (reserve v n m)
        (λ v1 m1 got. rw (same v1 m1 got.0) (after_reserve v1 m1 got.0 got.1))
        (law.more v n m vv ok)

-- What `write` may end in.
abbrev pub Writing : RawVec → ℕ → (RawVec → Mem → Type 0) → Outcome (ℕ × RawVec × Mem) → Type 0
Writing v n P (done (k, v1, m1)) = (k ≡ n) × P v1 m1
Writing v n P panic = v.cap < v.len + n
Writing v n P undefined = ⊥

module _ {c : Config} (b : IsBuilt c) {s : Sys} (sys : IsSys s)
    (reserve : RawVec → ℕ → Mem → Outcome (RawVec × Mem)) (law : IsReserve c s 1 1 reserve)
    (v : RawVec) (src n : ℕ) (m : Mem) (vv : IsVec c s 1 1 v m) (ok : s.Ok m)
    (slice : Foreign c s 1 1 v src n m) where
  written : flat (map (λ x. x) (items 1 src n m)) ≡ read src n m
  written =
      ap flat (map-same (items 1 src n m))
      ∙ flat-items 1 src n m
      ∙ ap (λ k. read src k m) (mul-one n)

  write_all-Extends :
      Extending v n (Extends c s 1 1 v m (read src n m) n) (write_all reserve v src n m)
  unfolding write_all
  write_all-Extends =
      subst
        (λ t.
          Extending v n (Extends c s 1 1 v m t n) (extend_from_slice reserve 1 (λ x. x) v src n m))
        written
        (extend_from_slice-Extends b sys 1 1 reserve law (λ x. x) (λ x e. e) v src n m vv ok slice)

  report :
      (o : Outcome (RawVec × Mem))
      → Extending v n (Extends c s 1 1 v m (read src n m) n) o
      → Writing v n (Extends c s 1 1 v m (read src n m) n) (o >>= (λ r. done (n, r.0, r.1)))
  report (done r) h = (refl, h)
  report panic h = h
  report undefined h = h

  -- As an `io::Write` sink a vector of bytes takes all of the data: `write` reports the length of the data, and `write` and
  -- `write_all` leave a vector with the data behind the old bytes; its block is the old one or was free, what it gave up is
  -- free, and nothing else has changed. They panic only where the data does not fit in the capacity. The data belongs to
  -- somebody else, and `Vec::reserve` keeps its promise.
  pub write-Extends :
      Writing v n (Extends c s 1 1 v m (read src n m) n) (write reserve v src n m)
      × Extending v n (Extends c s 1 1 v m (read src n m) n) (write_all reserve v src n m)
  unfolding write write_all
  write-Extends =
      (report (extend_from_slice reserve 1 (λ x. x) v src n m) write_all-Extends, write_all-Extends)
