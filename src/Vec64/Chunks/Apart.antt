-- ===== src/Vec64/Chunks/Apart.antt =====
-- Chunks that hold their blocks apart from each other, and what an operation on others leaves of them.
use vec.Base.{
  true, false, ℕ, ◌+◌, ◌*◌, ◌<◌, ◌≡◌, refl, ap, ap₂, ◌∙◌, List, [], ◌∷◌, ◌++◌, within, within-add,
  arith,
}
use vec.Build.{Config, IsBuilt}
use vec.Machine.{free, Mem, Sys}
use vec.Machine.Effect.{IsSys}
use vec.Vec64.Raw.{RawVec}
use vec.Vec64.Held.{layout_of, IsVec, extent, cap-extent, cap-owned, extent-owned}
use vec.Vec64.Append.Free.{Freed}
use vec.Vec64.Append.Elements.{Separate, Appends}
use vec.Vec64.Append.Tried.{IsPlain}
use vec.Vec64.New.Correct.{Made}
use vec.Vec64.Chunks.Contents.{contents, all_contents, read, read-eq, read-add}
use native.Mathlib.Nat.{add-mul, mul-le-mul_right}

abbrev pub Every : (RawVec → Type 0) → List RawVec → Type 0
Every P [] = Unit
Every P (w ∷ ws) = P w × Every P ws

-- Vectors that hold their blocks, which have no byte in common.
abbrev pub Chunks : Config → Sys → (elem align : ℕ) → List RawVec → Mem → Type 0
Chunks c s elem align [] m = Unit
Chunks c s elem align (w ∷ ws) m =
    IsVec c s elem align w m
    × IsPlain c elem w
    × Every (Separate c s elem align w) ws
    × Chunks c s elem align ws m

-- An address in the block of none of the vectors.
abbrev pub Outside : Config → Sys → (elem align : ℕ) → List RawVec → ℕ → Type 0
Outside c s elem align ws a = Every (λ w. within w.ptr (extent c s elem align w) a ≡ false) ws

-- The blocks of the vectors are free.
abbrev pub Released : Config → Sys → (elem align : ℕ) → List RawVec → Mem → Type 0
Released c s elem align ws m =
    Every (λ w. (a : ℕ) → within w.ptr (extent c s elem align w) a ≡ true → m.owner a ≡ free) ws

pub Separate-Outside :
    (c : Config) (s : Sys) (elem align : ℕ) (w : RawVec) (ws : List RawVec) (a : ℕ)
    → within w.ptr (extent c s elem align w) a ≡ true
    → Every (Separate c s elem align w) ws
    → Outside c s elem align ws a
Separate-Outside c s elem align w [] a h off = tt
Separate-Outside c s elem align w (x ∷ ws) a h (off, offs) =
    (off a h, Separate-Outside c s elem align w ws a h offs)

module _ {c : Config} (b : IsBuilt c) {s : Sys} (sys : IsSys s) (elem align : ℕ) where
  -- Another vector, apart from both, is untouched by an append.
  module _ (v w : RawVec) (m : Mem) (v1 : RawVec) (m1 : Mem)
      (app : Appends c s elem align v w m v1 m1) where
    pub apart-IsVec :
        (x : RawVec)
        → Separate c s elem align v x
        → Separate c s elem align w x
        → IsVec c s elem align x m
        → IsVec c s elem align x m1
    apart-IsVec x off_v off_w vx = record {
      is_layout = vx.is_layout;
      in_cap = vx.in_cap;
      held = λ pos.
          app.others x.ptr (layout_of elem align x.cap) pos vx.is_layout
            (λ a h. ground (arith, off_v a, h)) (λ a h. ground (arith, off_w a, h)) (vx.held pos);
    }

    pub apart-contents :
        (x : RawVec)
        → Separate c s elem align v x
        → Separate c s elem align w x
        → IsVec c s elem align x m
        → contents elem x m1 ≡ contents elem x m
    apart-contents x off_v off_w vx = read-eq x.ptr x.ptr (x.len * elem) m m1 (λ i h.
        let inside : i < x.cap * elem = omega (arith, h, mul-le-mul_right elem vx.in_cap) in
        let at =
          within-add x.ptr (extent c s elem align x) i (omega (arith, cap-extent b sys vx)) in
        app.bytes (x.ptr + i) (cap-owned b sys vx i inside) (ground (arith, off_v (x.ptr + i), at))
          (ground (arith, off_w (x.ptr + i), at)))

    pub rest-Chunks :
        (ws : List RawVec)
        → Every (Separate c s elem align v) ws
        → Every (Separate c s elem align w) ws
        → Chunks c s elem align ws m
        → Chunks c s elem align ws m1 × (all_contents elem ws m1 ≡ all_contents elem ws m)
    unfolding all_contents
    rest-Chunks [] off_v off_w ch = (tt, refl)
    rest-Chunks (x ∷ ws) (off_v, offs_v) (off_w, offs_w) (vx, plain, apart, ch) =
        let (rest, same) = rest-Chunks ws offs_v offs_w ch in
        (
          (apart-IsVec x off_v off_w vx, plain, apart, rest),
          ap₂ (λ xs ys. xs ++ ys) (apart-contents x off_v off_w vx) same,
        )

    pub appended-contents :
        IsVec c s elem align w m
        → contents elem (record v { len = v.len + w.len }) m1
          ≡ contents elem v m ++ contents elem w m
    appended-contents vw =
        ap (λ n. read v.ptr n m1) (add-mul v.len w.len elem)
        ∙ read-add v.ptr (v.len * elem) (w.len * elem) m1
        ∙ ap₂ (λ xs ys. xs ++ ys) (read-eq v.ptr v.ptr (v.len * elem) m m1 app.old)
            (read-eq w.ptr (v.ptr + v.len * elem) (w.len * elem) m m1 app.new)

  -- Chunks are untouched by an operation that gives back a block apart from them.
  pub Freed-Chunks :
      (w : RawVec) (m m1 : Mem) (ws : List RawVec)
      → Freed c s elem align w m m1
      → Every (Separate c s elem align w) ws
      → Chunks c s elem align ws m
      → Chunks c s elem align ws m1
  Freed-Chunks w m m1 [] gone off ch = tt
  Freed-Chunks w m m1 (x ∷ ws) gone (off, offs) (vx, plain, apart, ch) = (
    record {
      is_layout = vx.is_layout;
      in_cap = vx.in_cap;
      held = λ pos.
          gone.others x.ptr (layout_of elem align x.cap) pos vx.is_layout
            (λ a h. ground (arith, off a, h)) (vx.held pos);
    },
    plain,
    apart,
    Freed-Chunks w m m1 ws gone offs ch,
  )

  -- Nor by the making of a new vector, which is apart from them.
  module _ (v : RawVec) (m m1 : Mem) (made : Made c s elem align m v m1) where
    made-Separate : (x : RawVec) → IsVec c s elem align x m → Separate c s elem align v x
    made-Separate x vx a h = ground (arith, made.fresh a h, extent-owned b sys vx a)

    pub made-Chunks :
        (ws : List RawVec)
        → Chunks c s elem align ws m
        → Chunks c s elem align ws m1
          × Every (Separate c s elem align v) ws
          × (all_contents elem ws m1 ≡ all_contents elem ws m)
    unfolding all_contents
    made-Chunks [] ch = (tt, tt, refl)
    made-Chunks (x ∷ ws) (vx, plain, apart, ch) =
        let (rest, offs, same) = made-Chunks ws ch in
        (
          (
            record {
              is_layout = vx.is_layout;
              in_cap = vx.in_cap;
              held = λ pos. made.others x.ptr (layout_of elem align x.cap) pos (vx.held pos);
            },
            plain,
            apart,
            rest,
          ),
          (made-Separate x vx, offs),
          ap₂ (λ xs ys. xs ++ ys)
              (read-eq x.ptr x.ptr (x.len * elem) m m1 (λ i h.
                made.bytes (x.ptr + i)
                  (cap-owned b sys vx i (omega (arith, h, mul-le-mul_right elem vx.in_cap)))))
              same,
        )
