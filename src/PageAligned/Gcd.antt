-- ===== src/PageAligned/Gcd.antt =====
-- `gcd` of src/page_aligned.rs.
use vec.Base.{ℕ, ◌*◌, ◌%◌, ◌/◌, ◌<◌, ◌≡◌, ◌∣◌, dite, dec_lt, arith, lt_wf, subst, ap, ◌+◌}
use mathlib.Core.Logic.{dif_pos, dif_neg}
use mathlib.Core.WellFounded.{Acc}
use native.Mathlib.Nat.{
  dvd-mod_iff, dvd_refl, dvd-zero, dvd-add_iff_right, dvd-mul_left_of_dvd, div-add-mod',
}
use native.Mathlib.Bridge.{le_prop}

-- The loop `while b != 0 { t = b; b = a % b; a = t }`.
gcd_loop : (a b : ℕ) → Acc ◌<◌ b → ℕ
gcd_loop a b (Acc.intro _ smaller) =
    dite (dec_lt 0 b) (λ h. gcd_loop b (a % b) (smaller (a % b) (omega arith))) (λ _. a)

unfoldable pub gcd : ℕ → ℕ → ℕ
unfolding gcd_loop lt_wf dec_lt
gcd a b = gcd_loop a b (lt_wf.apply b)

gcd_loop-dvd : (a b : ℕ) (w : Acc ◌<◌ b) → (gcd_loop a b w ∣ a) × (gcd_loop a b w ∣ b)
unfolding gcd_loop
gcd_loop-dvd a b (Acc.intro _ smaller) = elim (dec_lt 0 b) [
  | yes pos ↦
      let h = gcd_loop-dvd b (a % b) (smaller (a % b) (omega arith)) in
      rw (dif_pos _ le_prop pos) ((dvd-mod_iff _ h.0).0 h.1, h.0)
  | no done ↦ rw (dif_neg _ done) (dvd_refl a, subst (λ n. a ∣ n) (zero_of done) (dvd-zero a))
]
  where
    zero_of : {n : ℕ} → ¬ (0 < n) → 0 ≡ n
    zero_of h = omega arith

-- Each result divides both numbers.
pub gcd-dvd : (a b : ℕ) → (gcd a b ∣ a) × (gcd a b ∣ b)
unfolding gcd
gcd-dvd a b = gcd_loop-dvd a b (lt_wf.apply b)

gcd_loop-dvd_mul :
    (a b : ℕ) (w : Acc ◌<◌ b) (h n : ℕ) → h ∣ n * a → h ∣ n * b → h ∣ n * gcd_loop a b w
unfolding gcd_loop
gcd_loop-dvd_mul a b (Acc.intro _ smaller) h n p q = elim (dec_lt 0 b) [
  | yes pos ↦
      rw (dif_pos _ le_prop pos)
        (gcd_loop-dvd_mul b (a % b) (smaller (a % b) (omega arith)) h n q rest)
  | no done ↦ rw (dif_neg _ done) p
]
  where
    split : n * a ≡ a / b * (n * b) + n * (a % b)
    split = omega (arith, ap (λ (t : ℕ). n * t) (div-add-mod' a b))

    rest : h ∣ n * (a % b)
    rest = (dvd-add_iff_right h (dvd-mul_left_of_dvd h q (a / b))).1 (subst (λ t. h ∣ t) split p)

-- What divides a multiple of both numbers divides that multiple of the result: the two facts make
-- it the greatest common divisor.
pub gcd-dvd_mul : (a b h n : ℕ) → h ∣ n * a → h ∣ n * b → h ∣ n * gcd a b
unfolding gcd
gcd-dvd_mul a b = gcd_loop-dvd_mul a b (lt_wf.apply b)
