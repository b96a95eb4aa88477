-- ===== src/Vec64/Chunks/Joined.antt =====
-- `from_chunks` joins its chunks.
use vec.Base.{
  ℕ, ◌+◌, ◌*◌, ◌^◌, ◌≤◌, ◌<◌, ◌≡◌, refl, sym, ap, ap₂, subst, ◌∙◌, List, [], ◌∷◌, ◌++◌, arith, ◌==◌,
  Bool-cases, inl, inr, ==_iff,
}
use vec.Base.Outcome.{Outcome, done, Returns, Returns-map, Returns-bind}
use vec.Build.{Config, IsBuilt}
use vec.Machine.{Mem, Sys}
use vec.Machine.Effect.{KeepsTarget, IsSys}
use vec.Allocator.{IsLayout}
use vec.Vec64.Raw.{RawVec}
use vec.Vec64.Held.{layout_of, IsVec}
use vec.Vec64.Append.{free_buffer, extend_from_vec64}
use vec.Vec64.Append.Free.{free_buffer-Freed}
use vec.Vec64.Append.Elements.{Separate}
use vec.Vec64.Append.Tried.{Reserves}
use vec.Vec64.Append.Correct.{extend_from_vec64-Appends}
use vec.Vec64.New.{allocate_by, with_capacity, new}
use vec.Vec64.New.Correct.{Returns-Making, Making-then, Made, Making, with_capacity-Made, new-Made}
use vec.Vec64.Chunks.{total_len, append_all, free_all, from_chunks}
use vec.Vec64.Chunks.Contents.{contents, all_contents, read}
use mathlib.Core.List.{append-nil, append_assoc}
use native.Mathlib.Nat.{zero-mul}
use vec.Vec64.Chunks.Apart.{
  Every, Chunks, rest-Chunks, appended-contents, Freed-Chunks, made-Chunks, Outside, Released,
  Separate-Outside,
}

-- The bytes of `v` and of `ws` one after the other, in the vector that `v` has become.
pub record Joins (c : Config) (s : Sys) (elem align : ℕ) (v : RawVec) (ws : List RawVec) (m : Mem)
    (v1 : RawVec) (m1 : Mem) : Type 0 where
  pub len : v1.len ≡ v.len + total_len ws
  pub joined : contents elem v1 m1 ≡ contents elem v m ++ all_contents elem ws m
  pub vec : IsVec c s elem align v1 m1
  pub ok : s.Ok m1
  pub owners : (a : ℕ) → Outside c s elem align ws a → m1.owner a ≡ m.owner a
  pub released : Released c s elem align ws m1

module _ {c : Config} (b : IsBuilt c) {s : Sys} (sys : IsSys s) (small : sys.page_bits ≤ b.bits)
    (gigantic : sys.page_bits ≤ 30) (reserve : RawVec → ℕ → Mem → Outcome (RawVec × Mem))
    (reserves : Reserves reserve) (keeps : KeepsTarget s) (elem align : ℕ) where
  append_all-Joins :
      (ws : List RawVec) (v : RawVec) (m : Mem)
      → IsVec c s elem align v m
      → s.Ok m
      → Chunks c s elem align ws m
      → Every (Separate c s elem align v) ws
      → v.len + total_len ws ≤ v.cap
      → Returns
          (λ r. Joins c s elem align v ws m r.0 r.1)
          (append_all reserve c s elem align ws v m)
  unfolding append_all all_contents total_len
  append_all-Joins [] v m vv ok ch off fits = record {
    len = omega arith;
    joined = sym (append-nil (contents elem v m));
    vec = vv;
    ok = ok;
    owners = λ a h. refl;
    released = tt;
  }
  append_all-Joins (w ∷ ws) v m vv ok (vw, plain, apart, ch) (off, offs) fits =
      let room : v.len + w.len ≤ v.cap = omega (arith, fits) in
      Returns-bind (λ r. Joins c s elem align v (w ∷ ws) m r.0 r.1)
        (λ r. append_all reserve c s elem align ws r.0 r.1)
        (λ r app.
          let (rest, same) = rest-Chunks b sys elem align v w m r.0 r.1 app ws offs apart ch in
          let v2 : RawVec = record v { len = v.len + w.len } in
          let vec2 : IsVec c s elem align v2 r.1 =
            subst (λ x. IsVec c s elem align x r.1) app.result app.vec in
          subst
            (λ x.
              Returns (λ a. Joins c s elem align v (w ∷ ws) m a.0 a.1)
                (append_all reserve c s elem align ws x r.1))
            (sym app.result)
            (Returns-map {P = λ a. Joins c s elem align v2 ws r.1 a.0 a.1}
              (λ a j. record {
                len = omega (arith, j.len);
                joined =
                    j.joined
                    ∙ ap₂ (λ xs ys. xs ++ ys)
                        (appended-contents b sys elem align v w m r.0 r.1 app vw) same
                    ∙ append_assoc (contents elem v m) (contents elem w m) (all_contents elem ws m);
                vec = j.vec;
                ok = j.ok;
                owners = λ a h. j.owners a h.1 ∙ app.owners a h.0;
                released = (
                  λ a h.
                      j.owners a (Separate-Outside c s elem align w ws a h apart)
                      ∙ app.released a h,
                  j.released,
                );
              })
              (append_all reserve c s elem align ws v2 r.1)
              (append_all-Joins ws v2 r.1 vec2 app.ok rest offs (omega (arith, fits)))))
        (extend_from_vec64 reserve c s elem align v w m)
        (extend_from_vec64-Appends b sys small gigantic reserve reserves elem align v w m vv vw off
          room ok keeps plain)

  -- The blocks of the chunks are free, and the owners of the rest are as before.
  abbrev Gone : List RawVec → Mem → Mem → Type 0
  Gone ws m m1 =
      s.Ok m1
      × ((a : ℕ) → Outside c s elem align ws a → m1.owner a ≡ m.owner a)
      × Released c s elem align ws m1

  -- No element in any chunk.
  free_all-Gone :
      (ws : List RawVec) (m : Mem)
      → s.Ok m
      → Chunks c s elem align ws m
      → Returns (Gone ws m) (free_all reserve c s elem align ws m)
  unfolding free_all
  free_all-Gone [] m ok ch = (ok, λ a h. refl, tt)
  free_all-Gone (w ∷ ws) m ok (vw, plain, apart, ch) =
      Returns-bind (Gone (w ∷ ws) m) (free_all reserve c s elem align ws)
        (λ m1 gone.
          Returns-map {P = Gone ws m1}
            (λ m2 g. (
              g.0,
              λ a h. g.1 a h.1 ∙ gone.owners a h.0,
              (
                λ a h. g.1 a (Separate-Outside c s elem align w ws a h apart) ∙ gone.released a h,
                g.2,
              ),
            ))
            (free_all reserve c s elem align ws m1)
            (free_all-Gone ws m1 gone.ok (Freed-Chunks b sys elem align w m m1 ws gone apart ch)))
        (free_buffer c s elem align w m)
        (free_buffer-Freed b sys small gigantic elem align w m vw ok)

  all_contents-none : (ws : List RawVec) (m : Mem) → total_len ws ≡ 0 → all_contents elem ws m ≡ []
  unfolding all_contents total_len read
  all_contents-none [] m e = refl
  all_contents-none (w ∷ ws) m e =
      let none_here : w.len ≡ 0 = omega (arith, e) in
      let no_bytes : w.len * elem ≡ 0 = ap (λ t. t * elem) none_here ∙ zero-mul elem in
      ap₂ (λ n ys. read w.ptr n m ++ ys) no_bytes (all_contents-none ws m (omega (arith, e)))

  -- What `from_chunks` leaves.
  abbrev Joined : List RawVec → Mem → RawVec → Mem → Type 0
  Joined ws m v1 m1 =
      (v1.len ≡ total_len ws)
      × (contents elem v1 m1 ≡ all_contents elem ws m)
      × IsVec c s elem align v1 m1
      × s.Ok m1
      × Released c s elem align ws m1

  module _ (dangling : ℕ) (ws : List RawVec) (m : Mem) (ok : s.Ok m)
      (ch : Chunks c s elem align ws m) (vl : IsLayout (layout_of elem align (total_len ws)))
      (word : total_len ws < 2 ^ 64) where
    filled :
        (out : RawVec) (m1 : Mem)
        → Made c s elem align m out m1 × (out.len ≡ 0) × (total_len ws ≤ out.cap)
        → Returns (λ r. Joined ws m r.0 r.1) (append_all reserve c s elem align ws out m1)
    unfolding all_contents read
    filled out m1 (made, empty, room) =
        let (rest, offs, same) = made-Chunks b sys elem align out m m1 made ws ch in
        let no_bytes : out.len * elem ≡ 0 = ap (λ t. t * elem) empty ∙ zero-mul elem in
        Returns-map {P = λ r. Joins c s elem align out ws m1 r.0 r.1}
          (λ r j. (
            omega (arith, j.len, empty),
            j.joined ∙ ap₂ (λ n ys. read out.ptr n m1 ++ ys) no_bytes same,
            j.vec,
            j.ok,
            j.released,
          ))
          (append_all reserve c s elem align ws out m1)
          (append_all-Joins ws out m1 made.vec made.ok rest offs (omega (arith, empty, room)))

    dropped :
        total_len ws ≡ 0 → (m1 : Mem) → Gone ws m m1 → Joined ws m (new dangling c s elem align) m1
    unfolding read
    dropped empty m1 gone = (
      sym empty,
      ap (λ n. read dangling n m1) (zero-mul elem) ∙ sym (all_contents-none ws m empty),
      (new-Made b sys small gigantic dangling elem align m1 gone.0 (total_len ws) vl word).vec,
      gone.0,
      gone.2,
    )

    pub from_chunks-contents :
        Making
          (allocate_by c.mmap c s (layout_of elem align (total_len ws)) m)
          (Joined ws m)
          (from_chunks reserve c s elem align dangling ws m)
    unfolding from_chunks
    from_chunks-contents = elim (Bool-cases (total_len ws == 0)) [
      | inl empty ↦ rw empty (
          Returns-Making _ (Joined ws m) _ (
            Returns-bind (λ r. Joined ws m r.0 r.1) (λ m1. done (new dangling c s elem align, m1))
              (dropped ((==_iff _ 0).0 empty)) (free_all reserve c s elem align ws m)
              (free_all-Gone ws m ok ch)))
      | inr more ↦ rw more (
          Making-then _ _ (Joined ws m) (λ r. append_all reserve c s elem align ws r.0 r.1)
            (with_capacity dangling c s elem align (total_len ws) m)
            (λ out m1 got. Returns-Making _ (Joined ws m) _ (filled out m1 got))
            (with_capacity-Made b sys small gigantic dangling elem align m ok (total_len ws) vl
              word))
    ]
