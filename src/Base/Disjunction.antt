-- ===== src/Base/Disjunction.antt =====
-- `|` with a power of two sets one bit.
use Prim.Native.Nat.{
  ℕ, zero, suc, ◌+◌, ◌-◌, ◌*◌, ◌/◌, ◌%◌, ◌^◌, ◌≤◌, max, bit_or, digits, bit_or-bitwise,
}
use mathlib.Core.Path.{◌≡◌, refl, ap, subst, ◌∙◌}
use mathlib.Core.Logic.{◌≢◌}
use native.Mathlib.Nat.{pow-suc, add-zero, add-suc}
use native.Mathlib.Omega.{arith}

-- What `bit_or` stands for: `n` is the number of digits to go.
abbrev disj : ℕ → ℕ → ℕ → ℕ
disj n a b = digits (λ y. y) max n a b

more_digits : (n a b : ℕ) → a ≤ n → disj (suc n) a b ≡ disj n a b
more_digits zero zero b h = refl
more_digits zero (suc a) b h = elim h [ ]
more_digits (suc n) zero b h = refl
more_digits (suc n) (suc a) b h =
    ap (λ t. t * 2 + max (suc a % 2) (b % 2)) (more_digits n _ _ (omega arith))

all_digits : (k a b : ℕ) → disj (a + k) a b ≡ disj a a b
all_digits zero a b = rw add-zero
all_digits (suc k) a b = rw (add-suc) (more_digits (a + k) a b (omega arith) ∙ all_digits k a b)

-- The least binary digit, and the others.
pub bit_or_halves : (b a : ℕ) → bit_or a b ≡ max (a % 2) (b % 2) + 2 * bit_or (a / 2) (b / 2)
bit_or_halves b zero = omega (arith, bit_or-bitwise 0 b, bit_or-bitwise 0 (b / 2))
bit_or_halves b (suc a) =
    let half = suc a / 2 in
    let enough : half + (a - half) ≡ a = omega arith in
    let cut =
      subst (λ n. disj n half (b / 2) ≡ disj half half (b / 2)) enough
        (all_digits (a - half) half (b / 2)) in
    omega (arith, bit_or-bitwise half (b / 2), bit_or-bitwise (suc a) b, cut)

disj-zero : (n a : ℕ) → a ≤ n → disj n a 0 ≡ a
disj-zero zero zero h = refl
disj-zero zero (suc a) h = elim h [ ]
disj-zero (suc n) zero h = refl
disj-zero (suc n) (suc a) h = omega (arith, disj-zero n (suc a / 2) (omega arith))

pub bit_or-zero : (a : ℕ) → bit_or a 0 ≡ a
bit_or-zero a = bit_or-bitwise a 0 ∙ disj-zero a a (omega arith)

-- Bit `k` of a number, the least being 0.
abbrev pub bit : ℕ → ℕ → ℕ
bit zero x = x % 2
bit (suc k) x = bit k (x / 2)

pub bit-zero : (k : ℕ) → bit k 0 ≡ 0
bit-zero zero = refl
bit-zero (suc k) = bit-zero k

or_half : (j a : ℕ) → bit_or a (2 ^ suc j) / 2 ≡ bit_or (a / 2) (2 ^ j)
or_half j a =
    let half : 2 ^ suc j / 2 ≡ 2 ^ j = omega (arith, pow-suc 2 j) in
    let same = ap (bit_or (a / 2)) half in
    omega (arith, bit_or_halves (2 ^ suc j) a, pow-suc 2 j, same)

or_low : (j a : ℕ) → bit_or a (2 ^ suc j) % 2 ≡ a % 2
or_low j a = omega (arith, bit_or_halves (2 ^ suc j) a, pow-suc 2 j)

or_one_half : (a : ℕ) → bit_or a 1 / 2 ≡ a / 2
or_one_half a = omega (arith, bit_or_halves 1 a, bit_or-zero (a / 2))

pub bit-set : (j a : ℕ) → bit j (bit_or a (2 ^ j)) ≡ 1
bit-set zero a = omega (arith, bit_or_halves 1 a)
bit-set (suc j) a = ap (bit j) (or_half j a) ∙ bit-set j (a / 2)

pub bit-other : (j k a : ℕ) → j ≢ k → bit k (bit_or a (2 ^ j)) ≡ bit k a
bit-other zero zero a h = absurd (h refl)
bit-other zero (suc k) a h = ap (bit k) (or_one_half a)
bit-other (suc j) zero a h = or_low j a
bit-other (suc j) (suc k) a h = ap (bit k) (or_half j a) ∙ bit-other j k (a / 2) (λ e. h (ap suc e))
