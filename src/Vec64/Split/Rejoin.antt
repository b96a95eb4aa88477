-- ===== src/Vec64/Split/Rejoin.antt =====
-- Splitting a vector and appending the second half again.
use vec.Base.{
  ℕ, ◌+◌, ◌-◌, ◌*◌, ◌^◌, ◌≤◌, ◌<◌, ◌≡◌, ◌≢◌, refl, sym, ap, ap₂, ◌∙◌, ◌++◌, true, false, ltb, arith,
  within,
}
use vec.Base.Outcome.{Outcome, done, panic, undefined, ◌>>=◌, Returns, Returns-map}
use vec.Build.{Config, IsBuilt}
use vec.Machine.{free, Mem, Sys}
use vec.Machine.Effect.{KeepsTarget, IsSys}
use vec.Allocator.{IsLayout, Call}
use vec.Vec64.Raw.{RawVec}
use vec.Vec64.Held.{layout_of, IsVec, cap-extent, cap-owned, extent-owned}
use vec.Vec64.Append.{extend_from_vec64}
use vec.Vec64.Append.Elements.{Separate, Appends}
use vec.Vec64.Append.Tried.{Reserves}
use vec.Vec64.Append.Correct.{extend_from_vec64-Appends}
use vec.Vec64.New.{allocate_by, from_slice}
use vec.Vec64.New.Correct.{Making, Returns-Making}
use vec.Vec64.New.Slice.{Copied, from_slice-Copied}
use vec.Vec64.Chunks.Contents.{contents, read, read-eq, read-add}
use vec.Vec64.Chunks.Apart.{appended-contents}
use vec.Vec64.Split.{Halves, split_off}
use vec.Vec64.Splice.Kept.{within-sub}
use native.Mathlib.Nat.{add-mul, mul-le-mul_right}

-- `let tail = v.split_off(at); v.extend_from_vec64(tail)`
abbrev pub rejoin :
    (RawVec → ℕ → Mem → Outcome (RawVec × Mem))
    → ℕ
    → Config
    → Sys
    → (elem align : ℕ) → RawVec
    → ℕ
    → Mem
    → Outcome (RawVec × Mem)
rejoin reserve dangling c s elem align v at m =
    split_off dangling c s elem align v at m
    >>= (λ h. extend_from_vec64 reserve c s elem align h.left h.right h.mem)

-- The vector is as before.
pub record Whole (c : Config) (s : Sys) (elem align : ℕ) (v : RawVec) (m : Mem) (v1 : RawVec)
    (m1 : Mem) : Type 0 where
  pub same : v1 ≡ v
  pub bytes : contents elem v1 m1 ≡ contents elem v m
  pub vec : IsVec c s elem align v1 m1
  pub ok : s.Ok m1

module _ {c : Config} (b : IsBuilt c) {s : Sys} (sys : IsSys s) (small : sys.page_bits ≤ b.bits)
    (gigantic : sys.page_bits ≤ 30) (reserve : RawVec → ℕ → Mem → Outcome (RawVec × Mem))
    (reserves : Reserves reserve) (keeps : KeepsTarget s) (dangling elem align : ℕ) (v : RawVec)
    (at : ℕ) (m : Mem) (vv : IsVec c s elem align v m) (ok : s.Ok m) (inside : at ≤ v.len)
    (plain : c.giant_pages ≡ false) where
  abbrev kept : RawVec
  kept = record v { len = at }

  split_bytes : at * elem + (v.len - at) * elem ≡ v.len * elem
  split_bytes = sym (add-mul at (v.len - at) elem) ∙ ap (λ t. t * elem) (omega (arith, inside))

  len_bytes : v.len * elem ≤ v.cap * elem
  len_bytes = mul-le-mul_right elem vv.in_cap

  module _ (w : RawVec) (m1 : Mem)
      (half : Copied c s elem align (v.ptr + at * elem) (v.len - at) m w m1) where
    kept-IsVec : IsVec c s elem align kept m1
    kept-IsVec = record {
      is_layout = vv.is_layout;
      in_cap = omega (arith, inside, vv.in_cap);
      held = λ pos. half.made.others v.ptr (layout_of elem align v.cap) pos (vv.held pos);
    }

    kept-Separate : Separate c s elem align kept w
    kept-Separate a h = ground (arith, half.made.fresh a, extent-owned b sys vv a h)

    kept-contents : contents elem kept m1 ≡ read v.ptr (at * elem) m
    kept-contents = read-eq v.ptr v.ptr (at * elem) m m1 (λ i h.
        half.made.bytes (v.ptr + i)
          (cap-owned b sys vv i (omega (arith, h, split_bytes, len_bytes))))

    joined :
        (v2 : RawVec) (m2 : Mem)
        → Appends c s elem align kept w m1 v2 m2
        → Whole c s elem align v m v2 m2
    joined v2 m2 app =
        let count : at + w.len ≡ v.len = omega (arith, half.len, inside) in
        record {
          same = app.result ∙ ap (λ n. record v { len = n }) count;
          bytes =
              ap (λ x. contents elem x m2) app.result
              ∙ appended-contents b sys elem align kept w m1 v2 m2 app half.made.vec
              ∙ ap₂ (λ xs ys. xs ++ ys) kept-contents half.bytes
              ∙ sym (read-add v.ptr (at * elem) ((v.len - at) * elem) m)
              ∙ ap (λ n. read v.ptr n m) split_bytes;
          vec = app.vec;
          ok = app.ok;
        }

    rejoined-Whole :
        Returns
          (λ r. Whole c s elem align v m r.0 r.1)
          (extend_from_vec64 reserve c s elem align kept w m1)
    rejoined-Whole =
        Returns-map {P = λ r. Appends c s elem align kept w m1 r.0 r.1} (λ r. joined r.0 r.1)
          (extend_from_vec64 reserve c s elem align kept w m1)
          (extend_from_vec64-Appends b sys small gigantic reserve reserves elem align kept w m1
            kept-IsVec half.made.vec kept-Separate (omega (arith, half.len, inside, vv.in_cap))
            half.made.ok keeps (rw plain refl))

  pub split_off-extend_from_vec64 :
      IsLayout (layout_of elem align (v.len - at))
      → v.len < 2 ^ 64
      → Making
          (allocate_by c.mmap c s (layout_of elem align (v.len - at)) m)
          (Whole c s elem align v m)
          (rejoin reserve dangling c s elem align v at m)
  unfolding split_off
  split_off-extend_from_vec64 vl word = rw in_bounds (
      both_ways (from_slice dangling c s elem align (v.ptr + at * elem) (v.len - at) m) (
        from_slice-Copied b sys small gigantic dangling elem align (v.ptr + at * elem) (v.len - at)
          m ok owned vl (omega (arith, word))))
    where
      in_bounds : ltb v.len at ≡ false
      in_bounds = ground (arith, inside)

      owned : (a : ℕ) → within (v.ptr + at * elem) ((v.len - at) * elem) a ≡ true → m.owner a ≢ free
      owned a h = extent-owned b sys vv a (
          within-sub v.ptr _ _ _ a (omega arith)
            (omega (arith, split_bytes, len_bytes, cap-extent b sys vv)) h)

      call : Call
      call = allocate_by c.mmap c s (layout_of elem align (v.len - at)) m

      halves : RawVec × Mem → Outcome Halves
      halves r = done (record { left = kept; right = r.0; mem = r.1 })

      both_ways :
          (o : Outcome (RawVec × Mem))
          → Making call (Copied c s elem align (v.ptr + at * elem) (v.len - at) m) o
          → Making call (Whole c s elem align v m) (
              o >>= halves >>= (λ h. extend_from_vec64 reserve c s elem align h.left h.right h.mem))
      both_ways (done (w, m1)) half =
          Returns-Making call (Whole c s elem align v m) _ (rejoined-Whole w m1 half)
      both_ways panic h = h
      both_ways undefined h = h
