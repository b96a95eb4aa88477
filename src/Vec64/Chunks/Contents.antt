-- ===== src/Vec64/Chunks/Contents.antt =====
-- The elements of vectors, as bytes.
use vec.Base.{
  ℕ, zero, suc, ◌+◌, ◌*◌, ◌<◌, ◌≡◌, refl, ap, ap₂, subst, ◌∙◌, List, [], ◌∷◌, ◌++◌, arith,
}
use vec.Machine.{Mem}
use vec.Vec64.Raw.{RawVec}

-- The `n` bytes from `p` on.
unfoldable pub read : ℕ → ℕ → Mem → List ℕ
read p zero m = []
read p (suc n) m = m.byte p ∷ read (p + 1) n m

abbrev pub contents : ℕ → RawVec → Mem → List ℕ
contents elem v m = read v.ptr (v.len * elem) m

unfoldable pub all_contents : ℕ → List RawVec → Mem → List ℕ
all_contents elem [] m = []
all_contents elem (w ∷ ws) m = contents elem w m ++ all_contents elem ws m

pub read-eq :
    (p q n : ℕ) (m m1 : Mem)
    → ((i : ℕ) → i < n → m1.byte (q + i) ≡ m.byte (p + i))
    → read q n m1 ≡ read p n m
unfolding read
read-eq p q zero m m1 h = refl
read-eq p q (suc n) m m1 h =
    let here : m1.byte q ≡ m.byte p =
      subst (λ t. m1.byte t ≡ m.byte p) {x = q + 0} (omega arith)
        (subst (λ t. m1.byte (q + 0) ≡ m.byte t) {x = p + 0} (omega arith) (h 0 (omega arith))) in
    ap₂ (λ x xs. x ∷ xs) here
      (read-eq (p + 1) (q + 1) n m m1 (λ i g.
        let at_q : q + 1 + i ≡ q + suc i = omega arith in
        let at_p : p + suc i ≡ p + 1 + i = omega arith in
        ap m1.byte at_q ∙ h (suc i) (omega arith) ∙ ap m.byte at_p))

pub read-add : (p n k : ℕ) (m : Mem) → read p (n + k) m ≡ read p n m ++ read (p + n) k m
unfolding read
read-add p zero k m =
    let none : 0 + k ≡ k = omega arith in
    let same : p ≡ p + 0 = omega arith in ap (λ t. read p t m) none ∙ ap (λ t. read t k m) same
read-add p (suc n) k m =
    let count : suc n + k ≡ suc (n + k) = omega arith in
    let at : p + 1 + n ≡ p + suc n = omega arith in
    ap (λ t. read p t m) count
    ∙ ap (λ xs. m.byte p ∷ xs)
        (read-add (p + 1) n k m ∙ ap (λ t. read (p + 1) n m ++ read t k m) at)
