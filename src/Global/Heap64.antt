-- ===== src/Global/Heap64.antt =====
-- `Alloc64Global`, which forwards to the system with the raised alignment.
use vec.Base.{ℕ, Option, some}
use vec.Machine.{Layout, Mem, Sys}
use vec.Alloc64.{align_layout, ◌>>=◌}

module _ (s : Sys) where
  unfoldable pub alloc : Layout → Mem → Option (ℕ × Mem)
  unfolding align_layout
  alloc layout m = align_layout layout >>= (λ l. some (s.alloc l m))

  unfoldable pub dealloc : ℕ → Layout → Mem → Option Mem
  unfolding align_layout
  dealloc ptr layout m = align_layout layout >>= (λ l. some (s.dealloc ptr l m))

  unfoldable pub alloc_zeroed : Layout → Mem → Option (ℕ × Mem)
  unfolding align_layout
  alloc_zeroed layout m = align_layout layout >>= (λ l. some (s.alloc_zeroed l m))

  unfoldable pub realloc : ℕ → Layout → ℕ → Mem → Option (ℕ × Mem)
  unfolding align_layout
  realloc ptr layout new_size m = align_layout layout >>= (λ l. some (s.realloc ptr l new_size m))
