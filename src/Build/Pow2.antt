-- ===== src/Build/Pow2.antt =====
-- `usize::is_power_of_two`.
use vec.Base.{
  ℕ, zero, suc, ◌+◌, ◌/◌, ◌%◌, ◌^◌, ◌<◌, ◌≡◌, refl, Bool, true, ◌==◌, arith, ==_iff, ℕ_discrete,
}
use native.Mathlib.Nat.{pow-suc}

-- The ones among the lowest `w` bits.
count_ones : ℕ → ℕ → ℕ
count_ones zero n = 0
count_ones (suc w) n = n % 2 + count_ones w (n / 2)

unfoldable pub is_power_of_two : ℕ → Bool
unfolding count_ones
is_power_of_two n = count_ones 64 n == 1

count_ones-eq-zero : (w n : ℕ) → n < 2 ^ w → count_ones w n ≡ 0 → n ≡ 0
unfolding count_ones
count_ones-eq-zero zero n h e = omega arith
count_ones-eq-zero (suc w) n h e =
    omega (arith, count_ones-eq-zero w (n / 2) (omega (arith, pow-suc 2 w)) (omega arith))

count_ones-eq-one : (w n : ℕ) → n < 2 ^ w → count_ones w n ≡ 1 → (k : ℕ) × (n ≡ 2 ^ k) × (k < w)
unfolding count_ones
count_ones-eq-one zero n h e = absurd (omega arith)
count_ones-eq-one (suc w) n h e = elim (ℕ_discrete (n % 2) 0) [
  | yes even ↦
      let (k, p, q) = count_ones-eq-one w (n / 2) (omega (arith, pow-suc 2 w)) (omega arith) in
      (suc k, omega (arith, pow-suc 2 k), omega arith)
  | no odd ↦ (
    0,
    omega (arith, count_ones-eq-zero w (n / 2) (omega (arith, pow-suc 2 w)) (omega arith)),
    omega arith,
  )
]

count_ones-zero : (w : ℕ) → count_ones w 0 ≡ 0
unfolding count_ones
count_ones-zero zero = refl
count_ones-zero (suc w) = omega (arith, count_ones-zero w)

count_ones-pow : (w k : ℕ) → k < w → count_ones w (2 ^ k) ≡ 1
unfolding count_ones
count_ones-pow zero k h = elim h [ ]
count_ones-pow (suc w) zero h = omega (arith, count_ones-zero w)
count_ones-pow (suc w) (suc k) h =
    let half : 2 ^ suc k / 2 ≡ 2 ^ k = omega (arith, pow-suc 2 k) in
    rw half (omega (arith, count_ones-pow w k (omega arith), pow-suc 2 k))

pub is_power_of_two-pow : (k : ℕ) → k < 64 → is_power_of_two (2 ^ k) ≡ true
unfolding is_power_of_two
is_power_of_two-pow k h = (==_iff _ _).1 (count_ones-pow 64 k h)

pub is_power_of_two_sound :
    (n : ℕ) → n < 2 ^ 64 → is_power_of_two n ≡ true → (k : ℕ) × (n ≡ 2 ^ k) × (k < 64)
unfolding is_power_of_two
is_power_of_two_sound n h e = count_ones-eq-one 64 n h ((==_iff _ _).0 e)
