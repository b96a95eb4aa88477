-- ===== src/Base/Bits.antt =====
-- `&` and `|` against masks, as arithmetic, at every width.
use Prim.Native.Nat.{
  ℕ, zero, suc, ◌+◌, ◌-◌, ◌*◌, ◌/◌, ◌%◌, ◌^◌, ◌≤◌, ◌<◌, min, bit_and, digits, bit_and-bitwise,
}
use mathlib.Core.Path.{◌≡◌, refl, sym, ap, ap₂, ◌∙◌, subst}
use vec.Base.Usize.{usize_sub}
use native.Mathlib.Nat.{
  pow-suc, pow-le-pow_right, one-le-pow, mod-eq_of_lt, div-lt_iff_lt-mul, add-zero, add-suc,
  div-add-mod', mod-lt, suc-mul,
}
use native.Mathlib.Omega.{arith}

-- What `bit_and` stands for: `n` is the number of digits to go.
abbrev conj : ℕ → ℕ → ℕ → ℕ
conj n a b = digits (λ _. 0) min n a b

spare : (n a b : ℕ) → a ≤ n → conj (suc n) a b ≡ conj n a b
spare zero zero b h = refl
spare zero (suc a) b h = elim h [ ]
spare (suc n) zero b h = refl
spare (suc n) (suc a) b h = ap (λ t. t * 2 + min (suc a % 2) (b % 2)) (spare n _ _ (omega arith))

ample : (k a b : ℕ) → conj (a + k) a b ≡ conj a a b
ample zero a b = rw add-zero
ample (suc k) a b = rw (add-suc) (spare (a + k) a b (omega arith) ∙ ample k a b)

conj-zero : (n a : ℕ) → conj n a 0 ≡ 0
conj-zero zero a = refl
conj-zero (suc n) zero = refl
conj-zero (suc n) (suc a) = omega (arith, conj-zero n (suc a / 2))

pub bit_and-zero : (a : ℕ) → bit_and a 0 ≡ 0
bit_and-zero a = bit_and-bitwise a 0 ∙ conj-zero a a

-- The least binary digit, and the others.
pub bit_and_halves : (b a : ℕ) → bit_and a b ≡ min (a % 2) (b % 2) + 2 * bit_and (a / 2) (b / 2)
bit_and_halves b zero = omega (arith, bit_and-bitwise 0 b, bit_and-bitwise 0 (b / 2))
bit_and_halves b (suc a) =
    let half = suc a / 2 in
    let enough : half + (a - half) ≡ a = omega arith in
    let cut =
      subst (λ n. conj n half (b / 2) ≡ conj half half (b / 2)) enough
        (ample (a - half) half (b / 2)) in
    omega (arith, bit_and-bitwise half (b / 2), bit_and-bitwise (suc a) b, cut)

suc-sub-one : (a : ℕ) → suc a - 1 ≡ a
suc-sub-one a = omega arith

pow-double : (k h : ℕ) → h * 2 ^ suc k ≡ h * 2 ^ k + h * 2 ^ k
pow-double k h = omega (arith, ap (λ t. h * t) (pow-suc 2 k))

low_field : (h l k : ℕ) → l < 2 ^ k → bit_and (h * 2 ^ k + l) (2 ^ k - 1) ≡ l
low_field h l zero small = rw bit_and-zero (omega arith)
low_field h l (suc k) small =
    let rest = low_field h (l / 2) k (omega (arith, pow-suc 2 k)) in
    ground
      (arith, pow-double k h, rest, pow-suc 2 k, bit_and_halves (2 ^ suc k - 1) (h * 2 ^ suc k + l))

-- A mask of `k` low bits keeps the remainder by `2 ^ k`.
pub bit_and_low_mask : (k a : ℕ) → bit_and a (2 ^ k - 1) ≡ a % 2 ^ k
bit_and_low_mask k a = ground (arith, low_field (a / 2 ^ k) (a % 2 ^ k) k, one-le-pow k 2)

high_field :
    (k m q r : ℕ)
    → q < 2 ^ m
    → r < 2 ^ k
    → bit_and (q * 2 ^ k + r) ((2 ^ m - 1) * 2 ^ k) ≡ q * 2 ^ k
high_field zero m q r hq hr = ground (arith, bit_and_low_mask m q, mod-eq_of_lt hq)
high_field (suc k) m q r hq hr = ground (
  arith,
  bit_and_halves ((2 ^ m - 1) * 2 ^ suc k) (q * 2 ^ suc k + r),
  pow-double k q,
  pow-double k (2 ^ m - 1),
  pow-suc 2 k,
  high_field k m q (r / 2) hq (omega arith),
)

pub pow-add : (m k : ℕ) → 2 ^ (m + k) ≡ 2 ^ m * 2 ^ k
pow-add m zero = rw add-zero (omega arith)
pow-add m (suc k) =
    rw (add-suc)
      (omega (arith, pow-suc 2 (m + k), pow-add m k, ap (λ (t : ℕ). 2 ^ m * t) (pow-suc 2 k)))

sub-one-mul : (a b : ℕ) → 0 < a → a * b - b ≡ (a - 1) * b
sub-one-mul zero b h = elim h [ ]
sub-one-mul (suc a) b h = rw suc-sub-one (omega (arith, suc-mul a b))

-- A mask of all but the `k` low bits of a word of `m + k` bits rounds down to a multiple of `2 ^ k`.
pub bit_and_high_mask :
    (m k x : ℕ) → x < 2 ^ (m + k) → bit_and x (2 ^ (m + k) - 2 ^ k) ≡ x / 2 ^ k * 2 ^ k
bit_and_high_mask m k x hx =
    ap₂ bit_and (sym (div-add-mod' x (2 ^ k))) mask
    ∙ high_field k m (x / 2 ^ k) (x % 2 ^ k)
        ((div-lt_iff_lt-mul {k = 2 ^ k} {x = x} {y = 2 ^ m} (one-le-pow k 2 (omega arith))).1
          (rw (← pow-add m k) hx))
        (mod-lt x (one-le-pow k 2 (omega arith)))
  where
    mask : 2 ^ (m + k) - 2 ^ k ≡ (2 ^ m - 1) * 2 ^ k
    mask = omega (arith, pow-add m k, sub-one-mul (2 ^ m) (2 ^ k) (one-le-pow m 2 (omega arith)))

-- The same for a word of `w` bits.
pub bit_and_high_word :
    (w k x : ℕ) → k ≤ w → x < 2 ^ w → bit_and x (2 ^ w - 2 ^ k) ≡ x / 2 ^ k * 2 ^ k
bit_and_high_word w k x h hx =
    let e : w - k + k ≡ w = omega arith in
    subst (λ n. x < 2 ^ n → bit_and x (2 ^ n - 2 ^ k) ≡ x / 2 ^ k * 2 ^ k) e
      (bit_and_high_mask (w - k) k x) hx

-- The mask of a power of two.
pub mask-mod : (k x n : ℕ) → n ≡ 2 ^ k → k ≤ 63 → bit_and x (usize_sub n 1) ≡ x % n
mask-mod k x n e h = ap (bit_and x) (sym mask) ∙ bit_and_low_mask k x ∙ ap (λ t. x % t) (sym e)
  where
    mask : 2 ^ k - 1 ≡ usize_sub n 1
    mask =
        omega (arith, e, one-le-pow k 2, pow-le-pow_right {n = 2} (omega arith) {i = k} {j = 63} h)

-- What the mask clears are the multiples of the power.
pub masked-mod : (k x n : ℕ) → n ≡ 2 ^ k → k ≤ 63 → bit_and x (usize_sub n 1) ≡ 0 → x % n ≡ 0
masked-mod k x n e h zero_bits = sym (mask-mod k x n e h) ∙ zero_bits
