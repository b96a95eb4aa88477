-- ===== src/Vec64/Convert/Tests.antt =====
-- Conversions on the toy system.
use vec.Base.{ℕ, ◌+◌, ◌*◌, refl, arith, true, within, if◌then◌else◌}
use vec.Base.Outcome.{Outcome}
use vec.Machine.{free, Mem}
use vec.Machine.Toy.{toy}
use vec.Machine.Toy.Laws.{toy_laws}
use vec.Vec64.Samples.{
  small_reserve, small_reserve-Reserves, built, built_laws, used, used-Ok, second,
  layout_of-IsLayout, second-IsVec,
}
use vec.Vec64.Raw.{RawVec}
use vec.Vec64.Held.{layout_of}
use vec.Vec64.New.{allocate_by}
use vec.Vec64.New.Correct.{Making}
use vec.Vec64.Append.Free.{holding-stays}
use vec.Vec64.Items.{from_iter}
use vec.Vec64.Items.Pushed.{IsReserve}
use vec.Vec64.Growth.{reserve_by}
use vec.Vec64.Growth.Reserve.{reserve_by-IsReserve}
use vec.Vec64.Convert.{from_vec, into_iter}
use vec.Vec64.Convert.Taken.{Frees, Taken, from_vec-Taken}
use vec.Vec64.Convert.Rebuilt.{Rebuilt, into_iter-from_iter}

-- Marks the bytes of the buffer as free.
abbrev give_back : RawVec → Mem → Mem
give_back w m = record m { owner = λ a. if within w.ptr (w.cap * 8) a then free else m.owner a }

give_back-Frees : (w : RawVec) → Frees built toy 8 give_back w
give_back-Frees w m ok owned = record {
  released = λ a h. rw h refl;
  owners = λ a h. rw h refl;
  bytes = λ a h g. refl;
  others = λ r l apart h.
      holding-stays built toy true m (give_back w m) r l refl (λ a g. rw (apart a g) refl) h;
  ok = λ a h. ground (arith, ok a h);
}

from_vec_example :
    Making
      (allocate_by true built toy (layout_of 8 8 32768) used)
      (Taken built toy 8 8 second used)
      (from_vec 8 built toy 8 8 small_reserve give_back second used)
unfolding toy_laws
from_vec_example =
    from_vec-Taken built_laws toy_laws (omega arith) (omega arith) small_reserve
      small_reserve-Reserves give_back 8 8 8 second (give_back-Frees second) used used-Ok
      (omega arith) (λ a h. ground (arith, h)) (layout_of-IsLayout 32768 (omega arith))
      (omega arith)

abbrev room : RawVec → ℕ → Mem → Outcome (RawVec × Mem)
room = reserve_by (λ cap n. cap + n) built toy 8 8

room-IsReserve : IsReserve built toy 8 8 room
unfolding toy_laws
room-IsReserve =
    reserve_by-IsReserve built_laws toy_laws (omega arith) (omega arith) 8 8 (λ cap n. cap + n)

into_iter_example :
    Making
      (allocate_by true built toy (layout_of 8 8 32768) used)
      (Rebuilt built toy 8 8 second used)
      (from_iter room 8 8 built toy 8 (into_iter 8 second used) used)
unfolding toy_laws
into_iter_example =
    into_iter-from_iter built_laws toy_laws (omega arith) (omega arith) 8 8 room room-IsReserve 8
      second used used-Ok second-IsVec (layout_of-IsLayout 32768 (omega arith)) (omega arith)
