-- ===== src/Vec64/Append/Tests.antt =====
-- Runs on the toy system, from two mappings of which the second has the size of a page unit.
use vec.Vec64.Samples.{
  small_reserve, small_reserve-Reserves, built, built_laws, used, used-Ok, first, second,
  layout_of-IsLayout, first-IsVec, second-IsVec, bytes, bytes-IsVec,
}
use vec.Vec64.Chunks.Apart.{Released}
use vec.Base.{◌+◌, ◌≡◌, refl, [], ◌∷◌, true, arith, within, if◌then◌else◌, none, false, ◌*◌}
use vec.Base.Outcome.{Returns}
use vec.PageSize.{uses_mmap, mapped_size, round_to}
use vec.Machine.Toy.{toy}
use vec.Machine.Toy.Tearing.{tearing}
use vec.Machine.Toy.Laws.{toy_laws, toy_keeps}
use vec.Machine.Effect.{Zeros}
use vec.Vec64.Raw.{RawVec}
use vec.Vec64.Held.{IsVec, layout_of}
use vec.Build.Pow2.{is_power_of_two}
use vec.PageAligned.{is_page_aligned}
use vec.Machine.{fixed, free}
use vec.Vec64.Append.Aligned.{takes_pages, try_mremap_append-is_page_aligned}
use vec.Vec64.Append.{extend_from_vec64, try_mremap_append, appended}
use vec.Vec64.Append.Elements.{Separate, Appends}
use vec.Vec64.Append.Correct.{extend_from_vec64-Appends}
use vec.Vec64.New.{allocate_by, allocate_zeroed_by, zeroed, from_vec64_u8}
use vec.Vec64.New.Bytes.{Converts, from_vec64_u8-SameBytes}
use vec.Vec64.New.Correct.{Made, Making, zeroed-Made}
use vec.Vec64.Chunks.{total_len, from_chunks}
use vec.Vec64.Chunks.Contents.{contents, all_contents}
use vec.Vec64.Split.Rejoin.{rejoin, Whole, split_off-extend_from_vec64}
use vec.Vec64.Chunks.Joined.{from_chunks-contents}

first-Separate : Separate built toy 8 8 first second
unfolding uses_mmap mapped_size round_to within
first-Separate a h = ground (arith, h)

extend_from_vec64_example :
    Returns
      (λ r. Appends built toy 8 8 first second used r.0 r.1)
      (extend_from_vec64 small_reserve built toy 8 8 first second used)
unfolding toy_laws
extend_from_vec64_example =
    extend_from_vec64-Appends built_laws toy_laws (omega arith) (omega arith) small_reserve
      small_reserve-Reserves 8 8 first second used first-IsVec second-IsVec first-Separate
      (omega arith) used-Ok toy_keeps refl

from_chunks_example :
    Making
      (allocate_by true built toy (layout_of 8 8 (total_len (first ∷ second ∷ []))) used)
      (λ v1 m1.
        (v1.len ≡ total_len (first ∷ second ∷ []))
        × (contents 8 v1 m1 ≡ all_contents 8 (first ∷ second ∷ []) used)
        × IsVec built toy 8 8 v1 m1
        × toy.Ok m1
        × Released built toy 8 8 (first ∷ second ∷ []) m1)
      (from_chunks small_reserve built toy 8 8 8 (first ∷ second ∷ []) used)
unfolding toy_laws total_len
from_chunks_example =
    from_chunks-contents built_laws toy_laws (omega arith) (omega arith) small_reserve
      small_reserve-Reserves toy_keeps 8 8 8 (first ∷ second ∷ []) used used-Ok
      (first-IsVec, refl, (first-Separate, tt), (second-IsVec, refl, tt, tt))
      (layout_of-IsLayout 33792 (omega arith)) (omega arith)

zeroed_example :
    Making
      (allocate_zeroed_by true built toy (layout_of 8 8 50000) used)
      (λ v1 m1. Made built toy 8 8 used v1 m1 × (v1.len ≡ 50000) × Zeros m1 v1.ptr 400000)
      (zeroed 8 built toy 8 8 50000 used)
unfolding toy_laws
zeroed_example =
    zeroed-Made built_laws toy_laws (omega arith) (omega arith) 8 8 8 used used-Ok 50000
      (layout_of-IsLayout 50000 (omega arith)) (omega arith)

from_vec64_u8_example : Converts built toy 8 8 bytes used (from_vec64_u8 8 bytes)
from_vec64_u8_example =
    from_vec64_u8-SameBytes built toy 8 8 3 bytes used refl (omega arith) bytes-IsVec

split_off_example :
    Making
      (allocate_by true built toy (layout_of 8 8 24) used)
      (Whole built toy 8 8 first used)
      (rejoin small_reserve 8 built toy 8 8 first 1000 used)
unfolding toy_laws
split_off_example =
    split_off-extend_from_vec64 built_laws toy_laws (omega arith) (omega arith) small_reserve
      small_reserve-Reserves toy_keeps 8 8 8 first 1000 used first-IsVec used-Ok (omega arith) refl
      (layout_of-IsLayout 24 (omega arith)) (omega arith)

-- The second vector is page-aligned, but a thousand numbers do not end on a page of 4096 bytes.
abbrev start : RawVec
start = record { ptr = 1048576; len = 1000; cap = 65536 }

offset_run : takes_pages built toy 8 start second ≡ false
unfolding uses_mmap is_page_aligned
offset_run = refl

try_mremap_append-is_page_aligned_example : try_mremap_append built toy 8 8 first second used ≡ (
    if takes_pages built toy 8 first second
    then appended built toy 8 8 first second
        (toy.mremap 1572864 (32768 * 8) (32768 * 8) (fixed (1048576 + 1024 * 8)) used)
    else (none, used))
unfolding toy_laws
try_mremap_append-is_page_aligned_example =
    try_mremap_append-is_page_aligned built toy_laws 8 8 first second used refl (omega arith)

taken_run : takes_pages built toy 8 first second ≡ true
unfolding uses_mmap is_page_aligned
taken_run = refl

-- Where a kernel unmaps the destination and then fails, the other vector is handed back, to be copied to an address that
-- nothing is mapped at.
lost_run :
    ((try_mremap_append built tearing 8 8 first second used).0 ≡ none)
    × ((try_mremap_append built tearing 8 8 first second used).1.owner (1048576 + 1024 * 8) ≡ free)
unfolding try_mremap_append uses_mmap is_power_of_two within
lost_run = (refl, refl)
