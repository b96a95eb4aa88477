-- ===== src/AppendOnlyVec/Slice.antt =====
-- Reads of a raw slice, index by index.
use vec.Base.{
  ℕ, zero, suc, ◌≤◌, ◌<◌, ◌≡◌, refl, Option, none, some, List, [], ◌∷◌, ◌++◌, length, get_elem?,
  arith, ap,
}
use vec.AppendOnlyVec.{Outcome, done, panic, undefined, cons_done, raw_parts}

module _ {ℓ} {A : Type ℓ} where
  -- The first `n` slots hold values.
  abbrev pub IsFilled : List (Option A) → ℕ → Type ℓ
  IsFilled slots n = (k : ℕ) → k < n → (a : A) × (get_elem? slots k ≡ some (some a))

  -- Two buffers hold the same in their first `n` slots.
  abbrev pub Agree : List (Option A) → List (Option A) → ℕ → Type ℓ
  Agree slots slots' n = (k : ℕ) → k < n → get_elem? slots' k ≡ get_elem? slots k

  pub raw_parts-filled :
      (slots : List (Option A)) (n : ℕ)
      → IsFilled slots n
      → (xs : List A) × (raw_parts slots n ≡ done xs) × (length xs ≡ n)
  unfolding raw_parts
  raw_parts-filled slots zero h = ([], refl, refl)
  raw_parts-filled [] (suc n) h = let (a, e) = h 0 (omega arith) in cc
  raw_parts-filled (none ∷ slots) (suc n) h = let (a, e) = h 0 (omega arith) in cc
  raw_parts-filled (some a ∷ slots) (suc n) h =
      let (xs, e, l) = raw_parts-filled slots n (λ k q. h (suc k) (omega arith)) in
      (a ∷ xs, rw e, ap suc l)

  pub cons_done-inv :
      (a : A) (r : Outcome (List A)) (xs : List A)
      → cons_done a r ≡ done xs
      → (ys : List A) × (r ≡ done ys) × (xs ≡ a ∷ ys)
  cons_done-inv a (done ys) xs e = (ys, refl, ground arith)
  cons_done-inv a panic xs e = cc
  cons_done-inv a undefined xs e = cc

  pub done-inj : (xs ys : List A) → done xs ≡ done ys → ys ≡ xs
  done-inj xs ys e = cc

  -- A slice has the length asked for, and its elements are the values of the slots.
  pub raw_parts_inv :
      (slots : List (Option A)) (n : ℕ) (xs : List A)
      → raw_parts slots n ≡ done xs
      → (length xs ≡ n)
        × ((k : ℕ)
            → k < n
            → (a : A) × (get_elem? xs k ≡ some a) × (get_elem? slots k ≡ some (some a)))
  unfolding raw_parts
  raw_parts_inv slots zero xs e = rw (done-inj [] xs e) (refl, λ k h. elim h [ ])
  raw_parts_inv [] (suc n) xs e = cc
  raw_parts_inv (none ∷ slots) (suc n) xs e = cc
  raw_parts_inv (some a ∷ slots) (suc n) xs e =
      let (ys, e', split) = cons_done-inv a (raw_parts slots n) xs e in
      let (l, at) = raw_parts_inv slots n ys e' in
      rw split (ap suc l, elim [ zero ↦ λ h. (a, refl, refl) | suc k ↦ λ h. at k (omega arith) ])

  -- A longer filled slice of a buffer that agrees extends the slice.
  pub raw_parts-extend :
      (slots slots' : List (Option A)) (n n' : ℕ) (xs : List A)
      → n ≤ n'
      → Agree slots slots' n
      → IsFilled slots' n'
      → raw_parts slots n ≡ done xs
      → (ys : List A) × (raw_parts slots' n' ≡ done (xs ++ ys))
  unfolding raw_parts
  raw_parts-extend slots slots' zero n' xs le same h e =
      let (ys, e', _) = raw_parts-filled slots' n' h in rw (done-inj [] xs e) (ys, e')
  raw_parts-extend [] slots' (suc n) n' xs le same h e = cc
  raw_parts-extend (none ∷ slots) slots' (suc n) n' xs le same h e = cc
  raw_parts-extend (some a ∷ slots) slots' (suc n) zero xs le same h e = elim le [ ]
  raw_parts-extend (some a ∷ slots) [] (suc n) (suc n') xs le same h e =
      let p = same 0 (omega arith) in cc
  raw_parts-extend (some a ∷ slots) (none ∷ slots') (suc n) (suc n') xs le same h e =
      let p = same 0 (omega arith) in cc
  raw_parts-extend (some a ∷ slots) (some b ∷ slots') (suc n) (suc n') xs le same h e =
      let (ys, e', split) = cons_done-inv a (raw_parts slots n) xs e in
      let (zs, r) =
        raw_parts-extend slots slots' n n' ys (omega arith) (λ k q. same (suc k) (omega arith))
          (λ k q. h (suc k) (omega arith)) e' in
      let p : b ≡ a = first (same 0 (omega arith)) in rw split (zs, rw (r, p))
    where
      first : some (some b) ≡ some (some a) → b ≡ a
      first q = ground arith
