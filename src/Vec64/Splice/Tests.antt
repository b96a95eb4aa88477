-- ===== src/Vec64/Splice/Tests.antt =====
-- A page's worth of elements deleted from a mapping of two pages of the default size, on the toy
-- system, from the middle of a page.
use vec.Base.{ℕ, refl, true, false, none, arith, within, if◌then◌else◌}
use vec.Base.Outcome.{Returns}
use vec.Build.{Config, IsBuilt}
use vec.PageSize.{uses_mmap, mapped_size, round_to}
use vec.Machine.{free, paged, Mem}
use vec.Machine.Toy.{toy}
use vec.Machine.Toy.Laws.{toy_laws, toy_keeps}
use vec.Vec64.Raw.{RawVec, drain}
use vec.Vec64.Held.{IsVec, extent}
use vec.Vec64.Splice.{delete_range}
use vec.Vec64.Splice.Deletes.{Deletion}
use vec.Vec64.Splice.Correct.{SameElements, delete_range-Deletion, delete_range-drain}

abbrev built : Config
built = record { huge_page = 262144; mmap = true; giant_pages = false; thp = true }

abbrev built_laws : IsBuilt built
built_laws = record { bits = 18; power = refl; least = omega arith; most = omega arith }

abbrev start_page : ℕ
start_page = 1048576

abbrev used : Mem
used = record {
  byte = λ a. a;
  owner = λ a. if within start_page 524288 a then paged else free;
  block = λ p. none;
  world = 1572864;
}

used-Ok : toy.Ok used
unfolding within
used-Ok a h = ground arith

abbrev vector : RawVec
vector = record { ptr = start_page; len = 40000; cap = 50000 }

abbrev vector-IsVec : IsVec built toy 8 8 vector used
unfolding uses_mmap mapped_size round_to
vector-IsVec = record {
  is_layout = record {
    bits = 3;
    align_is = refl;
    align_most = omega arith;
    fits = omega arith;
    room = omega arith;
  };
  in_cap = omega arith;
  held = λ pos. record { mapped = λ a h. rw h; whole = refl };
}

delete_range-Deletion_example :
    Deletion 8
      (extent built toy 8 8 vector)
      vector
      100
      612
      used
      (delete_range built toy 8 vector 100 612 used)
unfolding toy_laws
delete_range-Deletion_example =
    delete_range-Deletion built_laws toy_laws toy_keeps (omega arith) (omega arith) 8 8 vector 100
      612 used vector-IsVec used-Ok

delete_range-drain_example :
    Returns
      (SameElements 8 (drain 8 vector 100 612 used))
      (delete_range built toy 8 vector 100 612 used)
unfolding toy_laws
delete_range-drain_example =
    delete_range-drain built_laws toy_laws toy_keeps (omega arith) (omega arith) 8 8 vector 100 612
      used vector-IsVec used-Ok (omega arith) (omega arith)
