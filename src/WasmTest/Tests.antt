-- ===== src/WasmTest/Tests.antt =====
-- The sums of ten numbers.
use vec.Base.{
  leb, if◌then◌else◌, ℕ, ◌+◌, ◌%◌, ◌^◌, ◌≡◌, refl, List, [], ◌∷◌, ◌++◌, true, false, arith,
}
use vec.Base.Outcome.{Outcome, done, panic}
use vec.WasmTest.{collect_range, range_from, par_sum, expected_sum}
use vec.WasmTest.Sums.{Sums, has_room, total, par_sum-expected_sum}

abbrev wrapping_sum : List ℕ → Outcome ℕ
wrapping_sum xs = done (total xs % 2 ^ 64)

total-append : (xs ys : List ℕ) → total (xs ++ ys) ≡ total xs + total ys
total-append [] ys = omega arith
total-append (x ∷ xs) ys = omega (arith, total-append xs ys)

wrapping_sum-Sums : Sums false wrapping_sum
wrapping_sum-Sums = record {
  sum_none = refl;
  sum_one = λ x h. ground (arith, h);
  sum_parts = λ xs ys. ground (arith, total-append xs ys);
}

par_sum-expected_sum_example :
    (par_sum (λ n. leb n 1000) wrapping_sum 10
      ≡ (if has_room (λ n. leb n 1000) 10 then expected_sum false 10 else panic))
    × (expected_sum false 10 ≡ done (total (range_from 0 10)))
par_sum-expected_sum_example =
    par_sum-expected_sum false (λ n. leb n 1000) wrapping_sum 10 wrapping_sum-Sums (omega arith)
      (λ h. omega arith)

ten : expected_sum true 10 ≡ done 45
unfolding expected_sum
ten = refl

-- Without overflow checks the formula holds for no numbers too.
none_unchecked : expected_sum false 0 ≡ done 0
unfolding expected_sum
none_unchecked = refl

-- The vector of 2 ^ 28 numbers is too large for an address space of 32 bits.
too_many : par_sum (λ n. true) wrapping_sum 268435456 ≡ panic
unfolding par_sum collect_range
too_many = refl
