-- ===== src/Vec64/Chunks.antt =====
-- src/vec64.rs: `from_chunks`.
pub mod Contents
pub mod Apart
pub mod Joined
use vec.Base.{ℕ, ◌+◌, List, [], ◌∷◌, ◌==◌, if◌then◌else◌}
use vec.Base.Outcome.{Outcome, done, ◌>>=◌}
use vec.Build.{Config}
use vec.Machine.{Mem, Sys}
use vec.Vec64.Raw.{RawVec}
use vec.Vec64.Append.{free_buffer, extend_from_vec64}
use vec.Vec64.New.{new, with_capacity}

-- `chunks.iter().map(|c| c.len()).sum()`
unfoldable pub total_len : List RawVec → ℕ
total_len [] = 0
total_len (w ∷ ws) = w.len + total_len ws

module _ (reserve : RawVec → ℕ → Mem → Outcome (RawVec × Mem)) (c : Config) (s : Sys)
    (elem align : ℕ) where
  -- The loop.
  pub append_all : List RawVec → RawVec → Mem → Outcome (RawVec × Mem)
  append_all [] out m = done (out, m)
  append_all (w ∷ ws) out m =
      extend_from_vec64 reserve c s elem align out w m >>= (λ r. append_all ws r.0 r.1)

  -- The chunks are dropped.
  pub free_all : List RawVec → Mem → Outcome Mem
  free_all [] m = done m
  free_all (w ∷ ws) m = free_buffer c s elem align w m >>= free_all ws

  pub from_chunks : ℕ → List RawVec → Mem → Outcome (RawVec × Mem)
  from_chunks dangling chunks m =
      let total = total_len chunks in
      if total == 0
      then (do m1 ← free_all chunks m; done (new dangling c s elem align, m1))
      else with_capacity dangling c s elem align total m >>= (λ r. append_all chunks r.0 r.1)
