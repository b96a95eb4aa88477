-- ===== src/Build/Laws.antt =====
-- Which values of the build variable are accepted.
use vec.Base.{
  ℕ, ◌+◌, ◌-◌, ◌*◌, ◌^◌, ◌≤◌, ◌<◌, ◌≡◌, ◌↔◌, List, [], ◌∷◌, Option, none, some, true, arith,
  Bool-cases, inl, inr, ◌==◌, dec_lt, sym, ◌∙◌, le→ltb, Option-cases,
}
use vec.Build.{Config, IsBuilt, wrote, checked, main, parse_digits, parse_unsigned}
use vec.Build.Pow2.{is_power_of_two, is_power_of_two_sound, is_power_of_two-pow}
use native.Mathlib.Nat.{pow-le-pow_right}

-- Whatever digits are parsed, the result fits a `usize`.
parse_digits-lt :
    (acc : ℕ) (bs : List ℕ) (n : ℕ) → acc < 2 ^ 64 → parse_digits acc bs ≡ some n → n < 2 ^ 64
unfolding parse_digits
parse_digits-lt acc [] n h e = ground arith
parse_digits-lt acc (b ∷ bs) n h e = ground (arith, parse_digits-lt (acc * 10 + (b - b'0')) bs n)

pub parse_unsigned-lt : (bs : List ℕ) (n : ℕ) → parse_unsigned bs ≡ some n → n < 2 ^ 64
unfolding parse_unsigned
parse_unsigned-lt [] n e = cc
parse_unsigned-lt (b ∷ []) n e = parse_digits-lt 0 (b ∷ []) n (omega arith) e
parse_unsigned-lt (b ∷ c ∷ bs) n e = elim (Bool-cases (b == b'+')) [
  | inl plus ↦ parse_digits-lt 0 (c ∷ bs) n (omega arith) (rw plus at e)
  | inr other ↦ parse_digits-lt 0 (b ∷ c ∷ bs) n (omega arith) (rw other at e)
]

-- A power of two that is at least the least huge page.
exponent-least : (k : ℕ) → 4096 ≤ 2 ^ k → 12 ≤ k
exponent-least k h = elim (dec_lt k 12) [
  | yes small ↦
      absurd (omega (arith, pow-le-pow_right {n = 2} (omega arith) {i = k} {j = 11} (omega arith)))
  | no large ↦ omega arith
]

checked-inv : (v n : ℕ) → checked v ≡ wrote n → (v ≡ n) × (4096 ≤ v) × (is_power_of_two v ≡ true)
unfolding checked
checked-inv v n e = ground arith

checked-pow : (k : ℕ) → 12 ≤ k → k ≤ 63 → checked (2 ^ k) ≡ wrote (2 ^ k)
unfolding checked
checked-pow k low high = rw (
  le→ltb (2 ^ k) 4096 (pow-le-pow_right {n = 2} (omega arith) {i = 12} {j = k} low),
  is_power_of_two-pow k (omega arith),
)

IsBuilt_of : (v n : ℕ) (c : Config) → v < 2 ^ 64 → checked v ≡ wrote n → c.huge_page ≡ n → IsBuilt c
IsBuilt_of v n c h e p =
    let (same, large, pow) = checked-inv v n e in
    let (k, q, below) = is_power_of_two_sound v h pow in
    record {
      bits = k;
      power = p ∙ sym same ∙ q;
      least = exponent-least k (omega arith);
      most = omega arith;
    }

-- The checks accept a value exactly if it is a power of two from 2 ^ 12 to 2 ^ 63, and pass it on
-- unchanged.
pub checked_iff :
    (v : ℕ) → v < 2 ^ 64 → (checked v ≡ wrote v) ↔ ((k : ℕ) × (v ≡ 2 ^ k) × (12 ≤ k) × (k ≤ 63))
checked_iff v h = (sound, complete)
  where
    sound : checked v ≡ wrote v → (k : ℕ) × (v ≡ 2 ^ k) × (12 ≤ k) × (k ≤ 63)
    sound e =
        let (_, large, pow) = checked-inv v v e in
        let (k, p, below) = is_power_of_two_sound v h pow in
        (k, p, exponent-least k (omega arith), omega arith)

    complete : (k : ℕ) × (v ≡ 2 ^ k) × (12 ≤ k) × (k ≤ 63) → checked v ≡ wrote v
    complete (k, p, low, high) = rw p (checked-pow k low high)

-- Every `HUGE_PAGE` that the build script writes is a power of two from 4096 to 2 ^ 63, whatever
-- the environment says.
pub main-IsBuilt :
    (raw : Option (List ℕ)) (n : ℕ) (c : Config)
    → main true raw ≡ wrote n
    → c.huge_page ≡ n
    → IsBuilt c
unfolding main
main-IsBuilt none n c e p = IsBuilt_of 262144 n c (omega arith) e p
main-IsBuilt (some bs) n c e p = elim (Option-cases (parse_unsigned bs)) [
  | inl bad ↦ let q = (rw bad at e) in cc
  | inr (v, good) ↦ IsBuilt_of v n c (parse_unsigned-lt bs v good) (rw good at e) p
]
