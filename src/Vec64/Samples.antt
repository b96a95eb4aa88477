-- ===== src/Vec64/Samples.antt =====
-- Vectors on the toy system, for the examples: two of numbers, and one of bytes; and a `reserve` that never grows.
use vec.Base.{◌+◌, leb, le→leb, ℕ, ◌≤◌, refl, true, false, ◌||◌, none, arith, within, if◌then◌else◌}
use vec.Base.Outcome.{Outcome, done, panic}
use vec.Vec64.Append.Tried.{Reserves}
use vec.Build.{Config, IsBuilt}
use vec.PageSize.{uses_mmap, mapped_size, round_to}
use vec.Machine.{free, paged, Mem}
use vec.Machine.Toy.{toy}
use vec.Allocator.{IsLayout}
use vec.Vec64.Raw.{RawVec}
use vec.Vec64.Held.{IsVec, layout_of}

abbrev pub built : Config
built = record { huge_page = 262144; mmap = true; giant_pages = false; thp = true }

abbrev pub built_laws : IsBuilt built
built_laws = record { bits = 18; power = refl; least = omega arith; most = omega arith }

abbrev pub used : Mem
used = record {
  byte = λ a. a;
  owner = λ a. if within 1048576 524288 a || within 1572864 262144 a then paged else free;
  block = λ p. none;
  world = 1835008;
}

pub used-Ok : toy.Ok used
unfolding within
used-Ok a h = ground arith

abbrev pub first : RawVec
first = record { ptr = 1048576; len = 1024; cap = 65536 }

abbrev pub second : RawVec
second = record { ptr = 1572864; len = 32768; cap = 32768 }

pub layout_of-IsLayout : (n : ℕ) → n ≤ 1000000 → IsLayout (layout_of 8 8 n)
layout_of-IsLayout n h = record {
  bits = 3;
  align_is = refl;
  align_most = omega arith;
  fits = omega arith;
  room = omega arith;
}

pub first-IsVec : IsVec built toy 8 8 first used
unfolding uses_mmap mapped_size round_to
first-IsVec = record {
  is_layout = layout_of-IsLayout 65536 (omega arith);
  in_cap = omega arith;
  held = λ pos. record { mapped = λ a h. rw h; whole = refl };
}

pub second-IsVec : IsVec built toy 8 8 second used
unfolding uses_mmap mapped_size round_to
second-IsVec = record {
  is_layout = layout_of-IsLayout 32768 (omega arith);
  in_cap = omega arith;
  held = λ pos. record { mapped = λ a h. ground (arith, h); whole = refl };
}

abbrev pub bytes : RawVec
bytes = record { ptr = 1572864; len = 262000; cap = 262144 }

pub bytes-IsVec : IsVec built toy 1 1 bytes used
unfolding uses_mmap mapped_size round_to
bytes-IsVec = record {
  is_layout = record {
    bits = 0;
    align_is = refl;
    align_most = omega arith;
    fits = omega arith;
    room = omega arith;
  };
  in_cap = omega arith;
  held = λ pos. record { mapped = λ a h. ground (arith, h); whole = refl };
}

-- Grows nothing.
abbrev pub small_reserve : RawVec → ℕ → Mem → Outcome (RawVec × Mem)
small_reserve v n m = if leb (v.len + n) v.cap then done (v, m) else panic

pub small_reserve-Reserves : Reserves small_reserve
small_reserve-Reserves v n m h = rw (le→leb (v.len + n) v.cap h) refl
