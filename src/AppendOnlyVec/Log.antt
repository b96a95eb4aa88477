-- ===== src/AppendOnlyVec/Log.antt =====
-- The vector that writers share is a log: a `push` that succeeds takes effect when it publishes its slot.
use vec.Base.{
  ◌≤◌, ◌⊎◌, inl, inr, take, ap₂, dec_lt, ℕ, zero, suc, ◌<◌, ◌≡◌, refl, sym, ap, subst, ◌∙◌, Option,
  none, some, List, [], ◌∷◌, ◌++◌, length, get_elem?, length-append, get_elem?-set_ne, arith,
}
use vec.AppendOnlyVec.{AppendOnlyVec, done, as_slice, raw_parts, count}
use vec.AppendOnlyVec.Push.{
  Pc, returned, Move, load, write, store, System, pick, Steps, here, later,
}
use vec.AppendOnlyVec.Invariant.{Local, Inv, pending}
use vec.AppendOnlyVec.Slice.{
  Agree, IsFilled, raw_parts-extend, raw_parts_inv, raw_parts-filled, cons_done-inv, done-inj,
}
use vec.AppendOnlyVec.Concurrent.{Reach, Reach-Inv}
use mathlib.Core.List.{append-nil}

module _ {ℓ} {A : Type ℓ} where
  -- What a move adds to the log.
  abbrev pub published_by : {v v' : AppendOnlyVec A} {p p' : Pc A} → Move v p v' p' → List A
  published_by (store {a}) = a ∷ []
  published_by (load _ _ _) = []
  published_by _ = []

  -- The values that a run has published, in the order of the stores.
  abbrev pub log : {s t : System A} → Steps s t → List A
  log here = []
  log (later r (pick i mv)) = log r ++ published_by mv

  none-left : (ys : List A) → length ys ≡ 0 → ys ≡ []
  none-left [] e = refl
  none-left (y ∷ ys) e = absurd (omega (arith, e))

  raw_parts-Agree :
      (slots slots' : List (Option A)) (n : ℕ) (xs : List A)
      → Agree slots slots' n
      → IsFilled slots' n
      → raw_parts slots n ≡ done xs
      → raw_parts slots' n ≡ done xs
  raw_parts-Agree slots slots' n xs same h e =
      let (ys, e') = raw_parts-extend slots slots' n n xs (omega arith) same h e in
      let few : length ys ≡ 0 = omega (
        arith,
        length-append xs ys,
        (raw_parts_inv slots n xs e).0,
        (raw_parts_inv slots' n (xs ++ ys) e').0,
      ) in
      e' ∙ ap (λ zs. done (xs ++ zs)) (none-left ys few) ∙ ap done (append-nil xs)

  raw_parts-next :
      (slots : List (Option A)) (n : ℕ) (a : A) (xs : List A)
      → get_elem? slots n ≡ some (some a)
      → raw_parts slots n ≡ done xs
      → raw_parts slots (suc n) ≡ done (xs ++ a ∷ [])
  unfolding raw_parts
  raw_parts-next [] n a xs g e = cc
  raw_parts-next (none ∷ slots) zero a xs g e = cc
  raw_parts-next (some b ∷ slots) zero a xs g e = ground (arith, done-inj [] xs e)
  raw_parts-next (none ∷ slots) (suc n) a xs g e = cc
  raw_parts-next (some b ∷ slots) (suc n) a xs g e =
      let (ys, e', split) = cons_done-inv b (raw_parts slots n) xs e in
      rw (split, raw_parts-next slots n a ys g e') refl

  -- One move of a writer, which knows what `Local` says.
  Move-log :
      {v v' : AppendOnlyVec A} {p p' : Pc A} (mv : Move v p v' p') (xs : List A)
      → Local v p
      → IsFilled v'.slots v'.published
      → raw_parts v.slots v.published ≡ done xs
      → raw_parts v'.slots v'.published ≡ done (xs ++ published_by mv)
  Move-log {v} (write {a} {idx}) xs l filled e =
      raw_parts-Agree v.slots _ v.published xs
        (λ k h. get_elem?-set_ne v.slots idx k (some a) (omega (arith, l.0))) filled e
      ∙ ap done (sym (append-nil xs))
  Move-log {v} (store {a} {idx}) xs l filled e =
      let at : raw_parts v.slots (suc v.published) ≡ done (xs ++ a ∷ []) =
        raw_parts-next v.slots v.published a xs
          (subst (λ n. get_elem? v.slots n ≡ some (some a)) (sym l.0) l.2) e in
      subst (λ n. raw_parts v.slots n ≡ done (xs ++ a ∷ [])) (omega (arith, l.0)) at
  Move-log (load _ _ _) xs l filled e = e ∙ ap done (sym (append-nil xs))
  Move-log mv xs l filled e = e ∙ ap done (sym (append-nil xs))

  Steps-log :
      (cap : ℕ) {s : System A} (r : Reach cap s)
      → raw_parts s.vec.slots s.vec.published ≡ done (log r)
  unfolding raw_parts
  Steps-log cap here = refl
  Steps-log cap (later r (pick i mv)) =
      Move-log mv (log r) ((Reach-Inv r).local i) (Reach-Inv (later r (pick i mv))).filled
        (Steps-log cap r)

  slot-log :
      (slots : List (Option A)) (n k : ℕ) (a : A) (xs : List A)
      → raw_parts slots n ≡ done xs
      → k < n
      → get_elem? slots k ≡ some (some a)
      → get_elem? xs k ≡ some a
  slot-log slots n k a xs e h g = let (b, at, there) = (raw_parts_inv slots n xs e).1 k h in cc

  -- What the result of a `push` says. An index is the place of its value in the log. A refusal finds every place of the
  -- buffer taken: by an entry of the log, or by a writer that has claimed it and will publish it.
  abbrev pub IsLogged : ℕ → (ℕ → Pc A) → List A → Pc A → Type ℓ
  IsLogged cap pc xs (returned a (some k)) = get_elem? xs k ≡ some a
  IsLogged cap pc xs (returned a none) =
      (k : ℕ) → k < cap → ((k < length xs) ⊎ ((i : ℕ) × (pending (pc i) ≡ some k))) × Unit {ℓ}
  IsLogged cap pc xs _ = Unit

  Local-IsLogged :
      (cap : ℕ) (v : AppendOnlyVec A) (pc : ℕ → Pc A) (p : Pc A) (xs : List A)
      → Inv cap v pc
      → raw_parts v.slots v.published ≡ done xs
      → Local v p
      → IsLogged cap pc xs p
  Local-IsLogged cap v pc (returned a (some k)) xs inv e l =
      slot-log v.slots v.published k a xs e l.0 l.1
  Local-IsLogged cap v pc (returned a none) xs inv e l = λ k h. elim (dec_lt k v.published) [
    | yes there ↦ (inl (omega (arith, there, (raw_parts_inv v.slots v.published xs e).0)), tt)
    | no claimed ↦ (inr (inv.covered k (omega arith) (omega (arith, h, l.0, inv.sized))), tt)
  ]
  Local-IsLogged cap v pc p xs inv e l = tt

  take-append : (xs ys : List A) → take (length xs) (xs ++ ys) ≡ xs
  take-append [] ys = refl
  take-append (x ∷ xs) ys = ap (λ t. x ∷ t) (take-append xs ys)

  -- A reader that sees an earlier counter sees that much of the log.
  raw_parts-take :
      (slots : List (Option A)) (n p : ℕ) (xs : List A)
      → n ≤ p
      → IsFilled slots p
      → raw_parts slots p ≡ done xs
      → raw_parts slots n ≡ done (take n xs)
  raw_parts-take slots n p xs le h e =
      let (ys, at, l) = raw_parts-filled slots n (λ k q. h k (omega arith)) in
      let (zs, all) = raw_parts-extend slots slots n p ys le (λ k q. refl) h at in
      let whole : xs ≡ ys ++ zs = done-inj (ys ++ zs) xs (sym all ∙ e) in
      at ∙ ap done (sym (take-append ys zs) ∙ ap₂ take l (sym whole))

  -- After every run of any number of writers the slice is the log, the list of the values that pushes have published in the order of
  -- their stores, and a reader whose load of the counter gave an earlier value `n` sees the first `n` entries of it. So a `push` that
  -- succeeds takes effect at its store, as if it appended to a list there: one of `a` that returned `Some(k)` finds `a` as the entry `k`.
  -- A `push` may be refused while the log is shorter than the capacity: where one returned `None`, every place
  -- has an entry of the log or a writer that has claimed it and not yet published it.
  pub as_slice-log :
      (cap : ℕ) {s : System A} (r : Reach cap s)
      → (as_slice s.vec ≡ done (log r))
        × ((n : ℕ) → n ≤ count s.vec → raw_parts s.vec.slots n ≡ done (take n (log r)))
        × ((i : ℕ) → IsLogged cap s.pc (log r) (s.pc i))
  unfolding as_slice
  as_slice-log cap {s} r = (
    Steps-log cap r,
    λ n h.
        raw_parts-take s.vec.slots n s.vec.published (log r) h (Reach-Inv r).filled
          (Steps-log cap r),
    λ i.
        Local-IsLogged cap s.vec s.pc (s.pc i) (log r) (Reach-Inv r) (Steps-log cap r)
          ((Reach-Inv r).local i),
  )
