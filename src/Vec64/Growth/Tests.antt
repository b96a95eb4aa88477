-- ===== src/Vec64/Growth/Tests.antt =====
-- Vectors that grow, on the toy system, to twice the capacity that is needed.
use vec.Base.{
  ℕ, ◌+◌, ◌≡◌, refl, [], ◌∷◌, none, true, false, Bool, within, arith, ==_iff, ◌==◌, ◌&&◌,
}
use vec.Base.Outcome.{Outcome}
use vec.PageSize.{uses_mmap, mapped_size, round_to}
use vec.Machine.{Mem}
use vec.Machine.Toy.{toy}
use vec.Machine.Toy.Laws.{toy_laws, toy_keeps}
use vec.Vec64.Raw.{RawVec}
use vec.Vec64.Held.{IsVec, layout_of}
use vec.Vec64.Samples.{
  built, built_laws, used, used-Ok, first, second, second-IsVec, layout_of-IsLayout, first-IsVec,
  bytes, bytes-IsVec,
}
use vec.Vec64.Append.{extend_from_vec64}
use vec.Vec64.Append.Elements.{Separate}
use vec.Vec64.Append.Absorb.{Absorbs, extend_from_vec64-Absorbs}
use vec.Vec64.New.{allocate_by}
use vec.Vec64.New.Correct.{Making}
use vec.Vec64.Chunks.Contents.{read}
use vec.Vec64.Items.{
  Item, Iterator, write, write_all, from_iter, vec64_list, vec64_repeat, clone_vec,
}
use vec.Vec64.Items.Extends.{Extends}
use vec.Vec64.Items.Pushed.{IsReserve, Extending, flat}
use vec.Vec64.Items.Slices.{Foreign, Writing, write-Extends}
use vec.Vec64.Items.Collecting.{Collected, Collecting}
use vec.Vec64.Items.Collected.{from_iter-Collected, vec64-Collected}
use vec.Vec64.Items.Cloned.{IsClone, clone_vec-eq}
use vec.Vec64.Growth.{reserve_by}
use vec.Vec64.Growth.Reserve.{reserve_by-IsReserve}

abbrev twice : ℕ → ℕ → ℕ
twice cap n = cap + n

abbrev room : ℕ → ℕ → RawVec → ℕ → Mem → Outcome (RawVec × Mem)
room elem align = reserve_by twice built toy elem align

room-IsReserve : (elem align : ℕ) → IsReserve built toy elem align (room elem align)
unfolding toy_laws
room-IsReserve elem align =
    reserve_by-IsReserve built_laws toy_laws (omega arith) (omega arith) elem align twice

reserve_by_example : IsReserve built toy 8 8 (reserve_by twice built toy 8 8)
unfolding toy_laws
reserve_by_example = reserve_by-IsReserve built_laws toy_laws (omega arith) (omega arith) 8 8 twice

-- A thousand bytes, of which 144 would fit.
written_slice : Foreign built toy 1 1 bytes 1048576 1000 used
unfolding within uses_mmap mapped_size round_to
written_slice = record { owned = λ a h. ground (arith, h); outside = λ a h. ground (arith, h) }

write_example :
    Writing bytes 1000
      (Extends built toy 1 1 bytes used (read 1048576 1000 used) 1000)
      (write (room 1 1) bytes 1048576 1000 used)
    × Extending bytes 1000
        (Extends built toy 1 1 bytes used (read 1048576 1000 used) 1000)
        (write_all (room 1 1) bytes 1048576 1000 used)
write_example =
    write-Extends built_laws toy_laws (room 1 1) (room-IsReserve 1 1) bytes 1048576 1000 used
      bytes-IsVec used-Ok written_slice

abbrev three : Item
three = 3 ∷ 0 ∷ 0 ∷ 0 ∷ 0 ∷ 0 ∷ 0 ∷ 0 ∷ []

abbrev five : Item
five = 5 ∷ 0 ∷ 0 ∷ 0 ∷ 0 ∷ 0 ∷ 0 ∷ 0 ∷ []

-- The hint promises one item of two.
abbrev two_of_one : Iterator
two_of_one = record { rest = three ∷ five ∷ []; lower = 1; upper = none }

from_iter_example :
    Collecting
      (allocate_by true built toy (layout_of 8 8 1) used)
      1
      2
      (Collected built toy 8 8 (flat (three ∷ five ∷ [])) 2 used)
      (from_iter (room 8 8) 8 8 built toy 8 two_of_one used)
unfolding toy_laws
from_iter_example =
    from_iter-Collected built_laws toy_laws (omega arith) (omega arith) 8 8 (room 8 8)
      (room-IsReserve 8 8) 8 used used-Ok two_of_one (refl, (refl, tt))
      (layout_of-IsLayout 1 (omega arith)) (omega arith)

vec64_example :
    Making
      (allocate_by true built toy (layout_of 8 8 2) used)
      (Collected built toy 8 8 (flat (three ∷ five ∷ [])) 2 used)
      (vec64_list (room 8 8) 8 8 built toy 8 (three ∷ five ∷ []) used)
    × Making
        (allocate_by true built toy (layout_of 8 8 3) used)
        (Collected built toy 8 8 (flat (three ∷ three ∷ five ∷ [])) 3 used)
        (vec64_repeat (room 8 8) 8 8 built toy 8 (λ y. three) five 3 used)
unfolding toy_laws
vec64_example =
    vec64-Collected built_laws toy_laws (omega arith) (omega arith) 8 8 (room 8 8)
      (room-IsReserve 8 8) 8 used used-Ok (three ∷ five ∷ []) (λ y. three) five 3 (refl, (refl, tt))
      refl refl (layout_of-IsLayout 2 (omega arith)) (omega arith)
      (layout_of-IsLayout 3 (omega arith)) (omega arith)

-- The bytes of two items are compared.
abbrev same_bytes : Item → Item → Bool
same_bytes [] [] = true
same_bytes (x ∷ xs) (y ∷ ys) = x == y && same_bytes xs ys
same_bytes _ _ = false

same_bytes_refl : (x : Item) → same_bytes x x ≡ true
same_bytes_refl [] = refl
same_bytes_refl (x ∷ xs) = rw ((==_iff x x).1 refl) (same_bytes_refl xs)

clone_vec_example :
    Making
      (allocate_by true built toy (layout_of 8 8 1024) used)
      (IsClone same_bytes built toy 8 8 first used)
      (clone_vec (room 8 8) 8 8 built toy 8 (λ x. x) first used)
unfolding toy_laws
clone_vec_example =
    clone_vec-eq same_bytes (λ x. x) same_bytes_refl built_laws toy_laws (omega arith) (omega arith)
      8 8 (room 8 8) (room-IsReserve 8 8) 8 first used used-Ok first-IsVec (λ x e. e)
      (layout_of-IsLayout 1024 (omega arith)) (omega arith)

-- The first vector is full, so it moves.
abbrev packed : RawVec
packed = record first { len = 65536 }

packed-IsVec : IsVec built toy 8 8 packed used
packed-IsVec = record {
  is_layout = first-IsVec.is_layout;
  in_cap = omega arith;
  held = first-IsVec.held;
}

packed-Separate : Separate built toy 8 8 packed second
unfolding uses_mmap mapped_size round_to within
packed-Separate a h = ground (arith, h)

extend_from_vec64_growing_example :
    Extending packed 32768
      (Absorbs built toy 8 8 packed second used)
      (extend_from_vec64 (room 8 8) built toy 8 8 packed second used)
unfolding toy_laws
extend_from_vec64_growing_example =
    extend_from_vec64-Absorbs built_laws toy_laws (omega arith) (omega arith) 8 8 packed second used
      packed-IsVec second-IsVec packed-Separate (room 8 8) (room-IsReserve 8 8) used-Ok toy_keeps
      refl
