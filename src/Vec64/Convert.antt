-- ===== src/Vec64/Convert.antt =====
-- src/vec64.rs: `AsRef`, `IntoIterator` and `From<Vec<T>>`. The release of a buffer of the standard library's
-- own allocator is a parameter.
pub mod Taken
pub mod Rebuilt
mod Tests
use vec.Base.{ℕ, ◌+◌, ◌*◌, List, Option, some}
use vec.Base.Outcome.{Outcome, done, ◌>>=◌}
use vec.Build.{Config}
use vec.Machine.{Mem, Sys}
use vec.Vec64.Raw.{RawVec, copy_nonoverlapping}
use vec.Vec64.New.{with_capacity}
use vec.Vec64.Items.{Item, Iterator, items}

-- `AsRef`: the items.
pub as_ref : ℕ → RawVec → Mem → List Item
unfolding items
as_ref elem v m = items elem v.ptr v.len m

-- `IntoIterator`: the items in order, with an exact hint. The iterator keeps the buffer until it is dropped.
pub into_iter : ℕ → RawVec → Mem → Iterator
unfolding items
into_iter elem v m = record { rest = items elem v.ptr v.len m; lower = v.len; upper = some v.len }

module _ (dangling : ℕ) (c : Config) (s : Sys) (elem align : ℕ)
    (reserve : RawVec → ℕ → Mem → Outcome (RawVec × Mem)) (free_source : RawVec → Mem → Mem) where
  -- `Vec::extend` by the elements of a `Vec` of the standard library.
  pub extend_moved : RawVec → RawVec → Mem → Outcome (RawVec × Mem)
  extend_moved v w m = do
    (v1, m1) ← reserve v w.len m
    m2 ← copy_nonoverlapping w.ptr (v1.ptr + v1.len * elem) (w.len * elem) m1
    done (record v1 { len = v1.len + w.len }, m2)

  -- `From<Vec<T>>`
  pub from_vec : RawVec → Mem → Outcome (RawVec × Mem)
  from_vec w m = do
    (v, m1) ← with_capacity dangling c s elem align w.len m
    (v1, m2) ← extend_moved v w m1
    done (v1, free_source w m2)
