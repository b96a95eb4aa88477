-- ===== src/Base/Usize.antt =====
-- `usize` on a 64-bit target, with the operations that the source applies to it.
use Prim.Native.Nat.{ℕ, ◌+◌, ◌-◌, ◌%◌, ◌^◌}

abbrev pub usize_mod : ℕ
usize_mod = 2 ^ 64

-- Addition and subtraction wrap.
abbrev pub usize_add : ℕ → ℕ → ℕ
usize_add a b = (a + b) % usize_mod

abbrev pub usize_sub : ℕ → ℕ → ℕ
usize_sub a b = (a + usize_mod - b) % usize_mod

-- `!a`
abbrev pub usize_not : ℕ → ℕ
usize_not a = usize_mod - 1 - a
