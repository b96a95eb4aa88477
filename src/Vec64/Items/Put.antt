-- ===== src/Vec64/Items/Put.antt =====
-- Writing one item behind the last.
use vec.Base.{
  ℕ, suc, ◌+◌, ◌-◌, ◌*◌, ◌≤◌, ◌<◌, ◌≡◌, ◌≢◌, inr, refl, sym, ap, ap₂, ◌∙◌, List, [], ◌∷◌, ◌++◌,
  true, false, within, within-add, length, arith,
}
use vec.Build.{Config, IsBuilt}
use vec.Machine.{free, Mem, Sys}
use vec.Machine.Effect.{IsSys}
use vec.Vec64.Raw.{RawVec}
use vec.Vec64.Held.{IsVec, extent, cap-extent, extent-owned}
use vec.Vec64.Append.Free.{holding-stays}
use vec.Vec64.Chunks.Contents.{read, read-eq, read-add}
use vec.Vec64.Items.{Item, byte_at, put}
use vec.Vec64.Items.Extends.{Extends}
use vec.Vec64.Splice.Kept.{within-sub, within-below}
use native.Mathlib.Nat.{add-mul, mul-le-mul_right, one-mul}

read-bytes :
    (p : ℕ) (xs : List ℕ) (m : Mem)
    → ((i : ℕ) → i < length xs → m.byte (p + i) ≡ byte_at xs i)
    → read p (length xs) m ≡ xs
unfolding read
read-bytes p [] m h = refl
read-bytes p (x ∷ xs) m h =
    let at : p ≡ p + 0 = omega arith in
    ap₂ (λ y ys. y ∷ ys) (ap m.byte at ∙ h 0 (omega arith))
      (read-bytes (p + 1) xs m (λ i g.
        let next : p + 1 + i ≡ p + suc i = omega arith in ap m.byte next ∙ h (suc i) (omega arith)))

put-there :
    (p : ℕ) (xs : Item) (m : Mem) (i : ℕ) → i < length xs → (put p xs m).byte (p + i) ≡ byte_at xs i
unfolding put
put-there p xs m i h = rw (within-add p (length xs) i h, add_sub_lem p i) refl
  where
    add_sub_lem : (q i : ℕ) → q + i - q ≡ i
    add_sub_lem q i = omega arith

put-elsewhere :
    (p : ℕ) (xs : Item) (m : Mem) (a : ℕ)
    → within p (length xs) a ≡ false
    → (put p xs m).byte a ≡ m.byte a
unfolding put
put-elsewhere p xs m a h = rw h refl

put_ok :
    {s : Sys} (sys : IsSys s) (p : ℕ) (xs : Item) (m : Mem)
    → s.Ok m
    → ((a : ℕ) → within p (length xs) a ≡ true → m.owner a ≢ free)
    → s.Ok (put p xs m)
unfolding put
put_ok sys p xs m ok owned =
    sys.store_ok (put p xs m).byte m ok (λ a e. put-elsewhere p xs m a (untouched a e))
  where
    untouched : (a : ℕ) → m.owner a ≡ free → within p (length xs) a ≡ false
    untouched a e = ground (arith, owned a)

module _ {c : Config} (b : IsBuilt c) {s : Sys} (sys : IsSys s) (elem align : ℕ) (v : RawVec)
    (m : Mem) (vv : IsVec c s elem align v m) (ok : s.Ok m) (x : Item) (sized : length x ≡ elem)
    (room : v.len + 1 ≤ v.cap) where
  abbrev place : ℕ
  place = v.ptr + v.len * elem

  one_more : (v.len + 1) * elem ≡ v.len * elem + length x
  one_more = add-mul v.len 1 elem ∙ ap (λ t. v.len * elem + t) (one-mul elem ∙ sym sized)

  inside : v.len * elem + length x ≤ v.cap * elem
  inside = omega (arith, one_more, mul-le-mul_right elem room)

  in_block :
      (a : ℕ) → within place (length x) a ≡ true → within v.ptr (extent c s elem align v) a ≡ true
  in_block a h =
      within-sub v.ptr (extent c s elem align v) place (length x) a (omega arith)
        (omega (arith, inside, cap-extent b sys vv)) h

  pub put-Extends : Extends c s elem align v m x 1 (record v { len = v.len + 1 }) (put place x m)
  unfolding put
  put-Extends = record {
    len = refl;
    bytes =
        ap (λ n. read v.ptr n (put place x m)) one_more
        ∙ read-add v.ptr (v.len * elem) (length x) (put place x m)
        ∙ ap₂ (λ xs ys. xs ++ ys)
            (read-eq v.ptr v.ptr (v.len * elem) m (put place x m) (λ i h.
              put-elsewhere place x m (v.ptr + i) (within-below place (length x) _ (omega arith))))
            (read-bytes place x (put place x m) (put-there place x m));
    vec = record {
      is_layout = vv.is_layout;
      in_cap = room;
      held = λ pos.
          holding-stays c s c.mmap m (put place x m) v.ptr _ refl (λ a h. refl) (vv.held pos);
    };
    ok = put_ok sys place x m ok (λ a h. extent-owned b sys vv a (in_block a h));
    taken = λ a h. inr h;
    released = λ a h g. cc;
    owners = λ a h g. refl;
    kept = λ a h g. put-elsewhere place x m a (ground (arith, g, in_block a));
    others =
        λ r l pos vl clear h. holding-stays c s c.mmap m (put place x m) r l refl (λ a g. refl) h;
  }
