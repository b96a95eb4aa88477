-- ===== src/MmapAlloc/Tail.antt =====
-- The tail of a range of addresses, which `shrink` releases.
use vec.Base.{ℕ, ◌+◌, ◌-◌, ◌%◌, ◌<◌, ◌≡◌, true, false, within, arith}
use native.Mathlib.Nat.{mod-eq-zero_of_dvd, dvd_of_mod-eq-zero, dvd-sub, dvd-add}

pub sum-whole : (n p k : ℕ) → p % n ≡ 0 → k % n ≡ 0 → (p + k) % n ≡ 0
sum-whole n p k h g =
    mod-eq-zero_of_dvd n (dvd-add n (dvd_of_mod-eq-zero n h) (dvd_of_mod-eq-zero n g))

pub diff-whole : (n p k : ℕ) → p % n ≡ 0 → k % n ≡ 0 → (p - k) % n ≡ 0
diff-whole n p k h g =
    mod-eq-zero_of_dvd n (dvd-sub n (dvd_of_mod-eq-zero n h) (dvd_of_mod-eq-zero n g))

-- The tail of a range, past its first `k` addresses.
pub tail-within :
    (p k n a : ℕ)
    → k < n
    → within p n a ≡ true
    → within p k a ≡ false
    → within (p + k) (n - k) a ≡ true
unfolding within
tail-within p k n a fits h g = ground arith

pub tail-within_old : (p k n a : ℕ) → k < n → within (p + k) (n - k) a ≡ true → within p n a ≡ true
unfolding within
tail-within_old p k n a fits h = ground arith

pub tail-within_new : (p k n a : ℕ) → within p k a ≡ true → within (p + k) (n - k) a ≡ false
unfolding within
tail-within_new p k n a h = ground arith

pub tail-outside : (p k n a : ℕ) → k < n → within p n a ≡ false → within (p + k) (n - k) a ≡ false
unfolding within
tail-outside p k n a fits h = ground arith
