-- ===== src/Vec64/Split.antt =====
-- src/vec64.rs: `split_off`. What `Vec::split_off` documents is written out.
pub mod Rejoin
use vec.Base.{ℕ, ◌+◌, ◌-◌, ◌*◌, ltb, if◌then◌else◌}
use vec.Base.Outcome.{Outcome, done, panic, ◌>>=◌}
use vec.Build.{Config}
use vec.Machine.{Mem, Sys}
use vec.Vec64.Raw.{RawVec}
use vec.Vec64.New.{from_slice}

-- The vector that is left, the new one, and the memory.
pub record Halves : Type 0 where
  pub left : RawVec
  pub right : RawVec
  pub mem : Mem

pub split_off : ℕ → Config → Sys → (elem align : ℕ) → RawVec → ℕ → Mem → Outcome Halves
split_off dangling c s elem align v at m = if ltb v.len at then panic else (do
  (other, m1) ← from_slice dangling c s elem align (v.ptr + at * elem) (v.len - at) m
  done (record { left = record v { len = at }; right = other; mem = m1 }))
