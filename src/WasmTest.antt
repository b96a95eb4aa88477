-- ===== src/WasmTest.antt =====
-- wasm-test/src/lib.rs, for `wasm32`, where a `usize` has 32 bits and `Alloc64` is the allocator. The parallel sum of rayon and
-- the memory that the heap has are parameters.
pub mod Sums
mod Tests
use vec.Base.{
  ◌==◌, ℕ, zero, suc, ◌+◌, ◌-◌, ◌*◌, ◌/◌, ◌%◌, ◌^◌, List, [], ◌∷◌, Bool, not, ◌&&◌, ltb, leb,
  if◌then◌else◌,
}
use vec.Base.Outcome.{Outcome, done, panic, ◌>>=◌}

-- A `u64` operation whose exact result is `exact` and whose wrapped one is `wrapped`, with or without overflow checks.
abbrev pub u64_result : Bool → (exact_fits : Bool) → ℕ → Outcome ℕ
u64_result checks fits wrapped = if checks && not fits then panic else done wrapped

abbrev pub u64_add : Bool → ℕ → ℕ → Outcome ℕ
u64_add checks a b = u64_result checks (ltb (a + b) (2 ^ 64)) ((a + b) % 2 ^ 64)

abbrev pub u64_mul : Bool → ℕ → ℕ → Outcome ℕ
u64_mul checks a b = u64_result checks (ltb (a * b) (2 ^ 64)) (a * b % 2 ^ 64)

abbrev pub u64_sub : Bool → ℕ → ℕ → Outcome ℕ
u64_sub checks a b = u64_result checks (leb b a) ((a + 2 ^ 64 - b) % 2 ^ 64)

-- `0..n`, of which `i` have been taken.
abbrev pub range_from : ℕ → ℕ → List ℕ
range_from i zero = []
range_from i (suc n) = i ∷ range_from (i + 1) n

-- `(0..len as u64).collect()`. The hint of the range is exact, so the capacity is `len`, for eight bytes each: more than
-- `isize::MAX` bytes are a capacity overflow, and a size that `Alloc64` cannot raise to an alignment of 64 panics there.
-- `granted` is whether the heap has so many bytes.
pub collect_range : (ℕ → Bool) → ℕ → Outcome (List ℕ)
collect_range granted len =
    if len == 0
    then done []
    else if ltb (2 ^ 31 - 8) (len * 8)
    then panic
    else if ltb (2 ^ 31 - 64) (len * 8)
    then panic
    else if not (granted (len * 8))
    then panic
    else done (range_from 0 len)

-- `sum` is rayon's `par_iter().sum()` over `u64`.
pub par_sum : (ℕ → Bool) → (List ℕ → Outcome ℕ) → ℕ → Outcome ℕ
par_sum granted sum len = do v ← collect_range granted len; sum v

pub expected_sum : Bool → ℕ → Outcome ℕ
expected_sum checks len = do n1 ← u64_sub checks len 1; p ← u64_mul checks len n1; done (p / 2)
