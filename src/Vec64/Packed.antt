-- ===== src/Vec64/Packed.antt =====
-- The bits of a packed vector, for the list form.
use vec.Base.{
  ℕ, zero, suc, ◌+◌, ◌*◌, ◌/◌, ◌%◌, ◌^◌, ◌≤◌, ◌<◌, ◌≡◌, ◌≢◌, refl, ap, ◌∙◌, List, [], ◌∷◌, Option,
  none, some, Bool, true, false, bit_or, length, get_elem?, set, replicate, arith, get_elem?_lt,
  get_elem?-set_self, get_elem?-set_ne, length-set, length-replicate, get_elem?-replicate,
  get_elem?_ge, dec_lt, ℕ_discrete,
}
use native.Mathlib.Nat.{add-zero}
use vec.Base.Disjunction.{bit, bit-zero, bit-set, bit-other}
use vec.Vec64.{byte_len, set_bit, set_bits, vec64_bool}

-- Bit `k` of the bytes, least first; a bit past the end is 0.
abbrev bit_at : Option ℕ → ℕ → ℕ
bit_at none j = 0
bit_at (some x) j = bit j x

abbrev pub bit_of : List ℕ → ℕ → ℕ
bit_of v k = bit_at (get_elem? v (k / 8)) (k % 8)

-- A Boolean as a bit, past the end 0.
abbrev pub value_at : Option Bool → ℕ
value_at none = 0
value_at (some true) = 1
value_at (some false) = 0

-- `v'` is `v` with bit `i` set.
pub record BitSet (v v' : List ℕ) (i : ℕ) : Type 0 where
  pub same_length : length v' ≡ length v
  pub here : bit_of v' i ≡ 1
  pub elsewhere : (k : ℕ) → k ≢ i → bit_of v' k ≡ bit_of v k

set_bit-BitSet :
    (v : List ℕ) (i : ℕ)
    → i / 8 < length v
    → (v' : List ℕ) × (set_bit v i ≡ some v') × BitSet v v' i
unfolding set_bit
set_bit-BitSet v i h =
    let (x, e) = get_elem?_lt v (i / 8) h in
    let new = bit_or x (2 ^ (i % 8)) in
    (
      set v (i / 8) new,
      rw e,
      record {
        same_length = length-set v (i / 8) new;
        here = rw (get_elem?-set_self v (i / 8) new h) (bit-set (i % 8) x);
        elsewhere = λ k ne. elim (ℕ_discrete (i / 8) (k / 8)) [
          | yes eq ↦
              rw (← eq, get_elem?-set_self v (i / 8) new h, e)
                (bit-other (i % 8) (k % 8) x (λ f. ne (omega (arith, eq, f))))
          | no apart ↦ rw (get_elem?-set_ne v (i / 8) (k / 8) new apart)
        ];
      },
    )

-- The bit after the loop has met the element: a `true` sets it.
abbrev picked : Option Bool → ℕ → ℕ
picked (some true) b = 1
picked (some false) b = b
picked none b = b

-- `v'` is `v` with the elements `xs` put in from bit `i` on.
record Filled (xs : List Bool) (i : ℕ) (v v' : List ℕ) : Type 0 where
  same_length : length v' ≡ length v
  below : (k : ℕ) → k < i → bit_of v' k ≡ bit_of v k
  from : (k : ℕ) → bit_of v' (i + k) ≡ picked (get_elem? xs k) (bit_of v (i + k))

-- One turn of the loop, which has left `v1`, and the rest of it.
Filled-cons :
    (x : Bool) (xs : List Bool) (i : ℕ) (v v1 v' : List ℕ)
    → length v1 ≡ length v
    → bit_of v1 i ≡ picked (some x) (bit_of v i)
    → ((k : ℕ) → k ≢ i → bit_of v1 k ≡ bit_of v k)
    → Filled xs (i + 1) v1 v'
    → Filled (x ∷ xs) i v v'
Filled-cons x xs i v v1 v' same at rest f = record {
  same_length = f.same_length ∙ same;
  below = λ k h. f.below k (omega arith) ∙ rest k (omega arith);
  from = from;
}
  where
    from : (k : ℕ) → bit_of v' (i + k) ≡ picked (get_elem? (x ∷ xs) k) (bit_of v (i + k))
    from zero = rw add-zero (f.below i (omega arith) ∙ at)
    from (suc k) =
        let step : i + suc k ≡ i + 1 + k = omega arith in
        rw step (f.from k ∙ ap (picked (get_elem? xs k)) (rest (i + 1 + k) (omega arith)))

set_bits-Filled :
    (xs : List Bool) (i : ℕ) (v : List ℕ)
    → i + length xs ≤ 8 * length v
    → (v' : List ℕ) × (set_bits xs i v ≡ some v') × Filled xs i v v'
unfolding set_bits
set_bits-Filled [] i v h =
    (v, refl, record { same_length = refl; below = λ k h. refl; from = λ k. refl })
set_bits-Filled (false ∷ xs) i v h =
    let (v', e, f) = set_bits-Filled xs (i + 1) v (omega arith) in
    (v', e, Filled-cons false xs i v v v' refl refl (λ k ne. refl) f)
set_bits-Filled (true ∷ xs) i v h =
    let (v1, e1, b) = set_bit-BitSet v i (omega arith) in
    let (v', e, f) = set_bits-Filled xs (i + 1) v1 (omega (arith, b.same_length)) in
    (v', rw e1 e, Filled-cons true xs i v v1 v' b.same_length b.here b.elsewhere f)

-- What the macro promises: `v` has as many bytes as the bits need, bit `k` is element `k`, and the
-- bits after the last element are zero.
pub record IsPacked (xs : List Bool) (v : List ℕ) : Type 0 where
  pub bytes : length v ≡ byte_len (length xs)
  pub bits : (k : ℕ) → bit_of v k ≡ value_at (get_elem? xs k)

zero_bits : (n k : ℕ) → bit_of (replicate n 0) k ≡ 0
zero_bits n k = elim (dec_lt (k / 8) n) [
  | yes h ↦ rw (get_elem?-replicate {A = ℕ} n 0 (k / 8) h) (bit-zero (k % 8))
  | no h ↦
      rw
        (get_elem?_ge {A = ℕ} (replicate n 0) (k / 8) (omega (arith, length-replicate {A = ℕ} n 0)))
]

picked-zero : (o : Option Bool) → picked o 0 ≡ value_at o
picked-zero none = refl
picked-zero (some true) = refl
picked-zero (some false) = refl

-- `vec64![bool ...]` never indexes out of range, and packs its elements one to a bit, the first in
-- the least bit of the first byte, with zeros after the last.
pub vec64_bool-IsPacked : (xs : List Bool) → (v : List ℕ) × (vec64_bool xs ≡ some v) × IsPacked xs v
unfolding vec64_bool
vec64_bool-IsPacked xs =
    let n = byte_len (length xs) in
    let (v, e, f) =
      set_bits-Filled xs 0 (replicate n 0) (omega (arith, length-replicate {A = ℕ} n 0)) in
    (
      v,
      e,
      record {
        bytes = f.same_length ∙ length-replicate {A = ℕ} n 0;
        bits = λ k.
            ap (bit_of v) (omega arith)
            ∙ f.from k
            ∙ ap (picked (get_elem? xs k)) (zero_bits n (0 + k))
            ∙ picked-zero (get_elem? xs k);
      },
    )
