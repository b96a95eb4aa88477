-- ===== src/Vec64/Raw.antt =====
-- `Vec<T, A>` as the crate uses it: a pointer, a length and a capacity over a memory of bytes, with
-- `elem` bytes to an element. Products with `elem` are sizes inside the allocation, which fit.
use vec.Base.{ℕ, zero, suc, ◌+◌, ◌-◌, ◌*◌, ◌%◌, List, [], ◌∷◌, ◌||◌, leb, ltb, ◌==◌, if◌then◌else◌}
use vec.Base.Outcome.{Outcome, done, undefined}
use vec.Machine.{Mem, copy}

pub record RawVec : Type 0 where
  pub ptr : ℕ
  pub len : ℕ
  pub cap : ℕ

-- `usize::next_multiple_of`
unfoldable pub next_multiple_of : ℕ → ℕ → ℕ
next_multiple_of x n = if x % n == 0 then x else x + (n - x % n)

-- `ptr::copy_nonoverlapping`, which is undefined where the ranges overlap.
abbrev pub copy_nonoverlapping : (src dst n : ℕ) → Mem → Outcome Mem
copy_nonoverlapping src dst n m =
    if leb (src + n) dst || leb (dst + n) src then done (copy src dst n m) else undefined

-- The `n` indices from `i` on.
abbrev pub indices : ℕ → ℕ → List ℕ
indices i zero = []
indices i (suc n) = i ∷ indices (i + 1) n

-- A vector and the memory after elements were deleted, and the indices of those whose destructor
-- ran, in order. Destructors return.
pub record Deleted : Type 0 where
  pub vec : RawVec
  pub mem : Mem
  pub dropped : List ℕ

-- `Vec::truncate`
abbrev pub truncate : RawVec → ℕ → Mem → Deleted
truncate v len m =
    if ltb v.len len
    then record { vec = v; mem = m; dropped = [] }
    else record { vec = record v { len = len }; mem = m; dropped = indices len (v.len - len) }

-- `Vec::drain(start..end)`, run to its end: the elements are dropped, the tail moves down.
abbrev pub drain : ℕ → RawVec → ℕ → ℕ → Mem → Deleted
drain elem v start end m = record {
  vec = record v { len = start + (v.len - end) };
  mem = copy (v.ptr + end * elem) (v.ptr + start * elem) ((v.len - end) * elem) m;
  dropped = indices start (end - start);
}
