-- ===== src/Vec64/Items/Collecting.antt =====
-- What collecting items ends in, and what it makes.
use vec.Base.{
  ℕ, ◌*◌, ◌≤◌, ◌<◌, ◌≡◌, ◌≢◌, ◌⊎◌, inl, inr, ap, ◌∙◌, none, some, List, [], ◌++◌, true, false,
  within, arith,
}
use vec.Base.Outcome.{Outcome, done, panic, undefined, ◌>>=◌}
use vec.Build.{Config}
use vec.Machine.{free, Layout, Mem, Sys}
use vec.Allocator.{IsLayout, Call}
use vec.Vec64.Raw.{RawVec}
use vec.Vec64.Held.{holding, IsVec, extent, block-owned}
use vec.Vec64.New.Correct.{Made, Making}
use vec.Vec64.Chunks.Contents.{contents, read}
use vec.Vec64.Items.Extends.{Extends}
use vec.Vec64.Items.Pushed.{Extending}
use native.Mathlib.Nat.{zero-mul}

-- A new vector of `n` elements with the bytes `xs`. Its block was free, and nothing else has changed.
pub record Collected (c : Config) (s : Sys) (elem align : ℕ) (xs : List ℕ) (n : ℕ) (m : Mem)
    (v : RawVec) (m1 : Mem) : Type 0 where
  pub len : v.len ≡ n
  pub bytes : contents elem v m1 ≡ xs
  pub vec : IsVec c s elem align v m1
  pub ok : s.Ok m1
  pub fresh : (a : ℕ) → within v.ptr (extent c s elem align v) a ≡ true → m.owner a ≡ free
  pub owners : (a : ℕ) → within v.ptr (extent c s elem align v) a ≡ false → m1.owner a ≡ m.owner a
  pub kept : (a : ℕ) → m.owner a ≢ free → m1.byte a ≡ m.byte a
  pub others :
      (r : ℕ) (l : Layout)
      → 0 < l.size
      → IsLayout l
      → (holding c s).Holds m r l
      → (holding c s).Holds m1 r l

pub no_contents : (elem : ℕ) (v : RawVec) (m : Mem) → v.len ≡ 0 → contents elem v m ≡ []
unfolding read
no_contents elem v m e =
    let none : v.len * elem ≡ 0 = ap (λ t. t * elem) e ∙ zero-mul elem in
    ap (λ t. read v.ptr t m) none

module _ {c : Config} {s : Sys} {elem align : ℕ} where
  pub Made-Extends :
      (m : Mem) (v : RawVec) (m1 : Mem) (xs : List ℕ) (n : ℕ) (v2 : RawVec) (m2 : Mem)
      → Made c s elem align m v m1
      → v.len ≡ 0
      → Extends c s elem align v m1 xs n v2 m2
      → Collected c s elem align xs n m v2 m2
  Made-Extends m v m1 xs n v2 m2 made empty ext = record {
    len = omega (arith, ext.len, empty);
    bytes = ext.bytes ∙ ap (λ t. t ++ xs) (no_contents elem v m1 empty);
    vec = ext.vec;
    ok = ext.ok;
    fresh = λ a h. ground (arith, ext.taken a h, made.fresh a, made.owners a);
    owners = λ a h. ground (arith, ext.released a, ext.owners a, made.fresh a, made.owners a);
    kept = λ a h.
        ext.kept a (ground (arith, made.fresh a, made.owners a)) (ground (arith, made.fresh a))
        ∙ made.bytes a h;
    others = λ r l pos vl h.
        ext.others r l pos vl
          (λ a i. ground (arith, made.fresh a, block-owned c s c.mmap l m r a h i))
          (made.others r l pos h);
  }

-- What collecting may end in: it panics only where the allocator is out of memory for the capacity asked for first, or
-- where that capacity was too small.
abbrev pub Collecting :
    Call → (cap n : ℕ) → (RawVec → Mem → Type 0) → Outcome (RawVec × Mem) → Type 0
Collecting call cap n P (done (v1, m1)) = P v1 m1
Collecting call cap n P panic = ((m1 : Mem) × (call ≡ some (none, m1))) ⊎ (cap < n)
Collecting call cap n P undefined = ⊥

pub Making-Collecting :
    (call : Call) (cap n : ℕ) (P Q : RawVec → Mem → Type 0)
    (f : RawVec × Mem → Outcome (RawVec × Mem)) (o : Outcome (RawVec × Mem))
    → ((v : RawVec) (m : Mem) → P v m → Collecting call cap n Q (f (v, m)))
    → Making call P o
    → Collecting call cap n Q (o >>= f)
Making-Collecting call cap n P Q f (done (v, m)) g h = g v m h
Making-Collecting call cap n P Q f panic g h = inl h
Making-Collecting call cap n P Q f undefined g h = h

pub Collecting-Making :
    (call : Call) (cap n : ℕ) (P : RawVec → Mem → Type 0) (o : Outcome (RawVec × Mem))
    → n ≤ cap
    → Collecting call cap n P o
    → Making call P o
Collecting-Making call cap n P (done r) le h = h
Collecting-Making call cap n P panic le (inl h) = h
Collecting-Making call cap n P panic le (inr h) = absurd (omega arith)
Collecting-Making call cap n P undefined le h = h

pub Extending-Collecting :
    (call : Call) (cap n : ℕ) (v : RawVec) (P Q : RawVec → Mem → Type 0)
    (o : Outcome (RawVec × Mem))
    → ((v1 : RawVec) (m1 : Mem) → P v1 m1 → Q v1 m1)
    → v.len ≡ 0
    → cap ≤ v.cap
    → Extending v n P o
    → Collecting call cap n Q o
Extending-Collecting call cap n v P Q (done (v1, m1)) f e le h = f v1 m1 h
Extending-Collecting call cap n v P Q panic f e le h = inr (omega arith)
Extending-Collecting call cap n v P Q undefined f e le h = h
