-- ===== src/WasmTest/Sums.antt =====
-- The two sums of the smoke test are the same number.
use vec.Base.{
  ◌==◌, ◌||◌, ◌&&◌, leb, if◌then◌else◌, Bool-cases, inl, inr, ℕ, zero, suc, ◌+◌, ◌-◌, ◌*◌, ◌/◌, ◌^◌,
  ◌≤◌, ◌<◌, ◌≡◌, refl, sym, ap, ◌∙◌, List, [], ◌∷◌, ◌++◌, Bool, true, false, lt→ltb, le→leb, arith,
}
use vec.Base.Outcome.{Outcome, done, panic, ◌>>=◌}
use native.Mathlib.Nat.{mul-le-mul}
use vec.WasmTest.{u64_add, u64_mul, u64_sub, range_from, collect_range, par_sum, expected_sum}

-- What rayon says of `sum`: it adds up the sums of consecutive parts, however it splits the items.
pub record Sums (checks : Bool) (sum : List ℕ → Outcome ℕ) : Type 0 where
  pub sum_none : sum [] ≡ done 0
  pub sum_one : (x : ℕ) → x < 2 ^ 64 → sum (x ∷ []) ≡ done x
  pub sum_parts :
      (xs ys : List ℕ) → sum (xs ++ ys) ≡ (sum xs >>= (λ a. sum ys >>= (λ b. u64_add checks a b)))

abbrev pub total : List ℕ → ℕ
total [] = 0
total (x ∷ xs) = x + total xs

u64_add-fits : (checks : Bool) (a b : ℕ) → a + b < 2 ^ 64 → u64_add checks a b ≡ done (a + b)
u64_add-fits checks a b h = rw (lt→ltb (a + b) (2 ^ 64) h) (ground (arith, h))

u64_mul-fits : (checks : Bool) (a b : ℕ) → a * b < 2 ^ 64 → u64_mul checks a b ≡ done (a * b)
u64_mul-fits checks a b h = rw (lt→ltb (a * b) (2 ^ 64) h) (ground (arith, h))

u64_sub-fits : (checks : Bool) (a b : ℕ) → b ≤ a → a < 2 ^ 64 → u64_sub checks a b ≡ done (a - b)
u64_sub-fits checks a b h word = rw (le→leb b a h) (ground (arith, h))

sum-total :
    (checks : Bool) (sum : List ℕ → Outcome ℕ)
    → Sums checks sum
    → (xs : List ℕ) → total xs < 2 ^ 64
    → sum xs ≡ done (total xs)
sum-total checks sum laws [] h = laws.sum_none
sum-total checks sum laws (x ∷ xs) h =
    laws.sum_parts (x ∷ []) xs
    ∙ rw (laws.sum_one x (omega (arith, h)), sum-total checks sum laws xs (omega (arith, h)))
        (u64_add-fits checks x (total xs) h)

-- Gauss: twice the sum of `n` numbers from `i` on.
total-range_from : (i n : ℕ) → 2 * total (range_from i n) + n ≡ n * (2 * i + n)
total-range_from i zero = omega arith
total-range_from i (suc n) = grind (arith, total-range_from (i + 1) n)

product-lt : (k : ℕ) → suc k < 2 ^ 32 → suc k * k < 2 ^ 64
product-lt k h =
    let most : suc k * k ≤ (2 ^ 32 - 1) * (2 ^ 32 - 1) =
      mul-le-mul {n₂ = 2 ^ 32 - 1} {m₂ = 2 ^ 32 - 1} (omega arith) (omega arith) in
    omega (arith, most)

expected-total :
    (checks : Bool) (k : ℕ) → suc k < 2 ^ 32 → expected_sum checks (suc k) ≡ done (suc k * k / 2)
unfolding expected_sum
expected-total checks k h =
    let e : suc k - 1 ≡ k = omega arith in
    rw
      (
        u64_sub-fits checks (suc k) 1 (omega arith) (omega arith),
        e,
        u64_mul-fits checks (suc k) k (product-lt k h),
      )
      refl

total-closed : (k : ℕ) → total (range_from 0 (suc k)) ≡ suc k * k / 2
total-closed k = grind (arith, total-range_from 0 (suc k))

-- The vector of so many numbers can be made.
abbrev pub has_room : (ℕ → Bool) → ℕ → Bool
has_room granted len = len == 0 || (leb (len * 8) (2 ^ 31 - 64) && granted (len * 8))

collect_range-range_from :
    (granted : ℕ → Bool) (len : ℕ)
    → collect_range granted len ≡ (if has_room granted len then done (range_from 0 len) else panic)
unfolding collect_range
collect_range-range_from granted zero = refl
collect_range-range_from granted (suc k) = ground arith

total-expected :
    (checks : Bool) (len : ℕ)
    → len < 2 ^ 32
    → (checks ≡ true → 0 < len)
    → (expected_sum checks len ≡ done (total (range_from 0 len)))
      × (total (range_from 0 len) < 2 ^ 64)
unfolding expected_sum
total-expected true zero word pos = absurd (omega (arith, pos refl))
total-expected false zero word pos = (refl, omega arith)
total-expected checks (suc k) word pos = (
  expected-total checks k word ∙ ap done (sym (total-closed k)),
  omega (arith, total-closed k, product-lt k word),
)

-- Where the vector of the numbers fits into 2 ^ 31 - 64 bytes and the heap has room for it, the parallel sum and the closed
-- formula end in the same number, the sum of the numbers below the length; where not, `par_sum` panics, while the formula
-- still ends in that number. Neither overflows for any length that a `usize` of 32 bits can hold, with and without
-- overflow checks, but that `expected_sum` of 0 needs them off.
pub par_sum-expected_sum :
    (checks : Bool) (granted : ℕ → Bool) (sum : List ℕ → Outcome ℕ) (len : ℕ)
    → Sums checks sum
    → len < 2 ^ 32
    → (checks ≡ true → 0 < len)
    → (par_sum granted sum len ≡ (if has_room granted len then expected_sum checks len else panic))
      × (expected_sum checks len ≡ done (total (range_from 0 len)))
unfolding par_sum
par_sum-expected_sum checks granted sum len laws word pos =
    let (formula, small) = total-expected checks len word pos in
    let summed = sum-total checks sum laws (range_from 0 len) small in
    (
      ap (λ o. o >>= sum) (collect_range-range_from granted len)
          ∙ (elim (Bool-cases (has_room granted len)) [
            | inl fits ↦ rw fits (summed ∙ sym formula)
            | inr short ↦ rw short refl
          ]),
      formula,
    )
