-- ===== src/AppendOnlyVec/Tests.antt =====
-- Runs of the vector: two writers that push into a vector of two slots, and a third that is late.
use vec.Base.{
  take, ℕ, ◌↔◌, zero, suc, ◌-◌, ◌*◌, ◌≤◌, ◌<◌, ◌≡◌, refl, Option, none, some, List, [], ◌∷◌, ◌++◌,
  length, arith, ℕ_discrete,
}
use vec.AppendOnlyVec.{AppendOnlyVec, done, as_slice, count, index, iter, Iter, drop_vec, raw_parts}
use vec.AppendOnlyVec.Push.{
  Pc, claiming, writing, waiting, publishing, returned, Move, load, full, cas_win, cas_lose, write,
  pass, store, System, pick, init, Steps, here, later, update, reserve, write_slot, publish,
}
use vec.AppendOnlyVec.Invariant.{pending, slot_of}
use vec.AppendOnlyVec.Log.{log, IsLogged, as_slice-log}
use vec.AppendOnlyVec.Settle.{moves, push-terminates}
use vec.AppendOnlyVec.Slice.{IsFilled}
use vec.AppendOnlyVec.Concurrent.{
  as_slice-Reach, as_slice-Steps, index-returned, no_deadlock, moves_left,
}
use vec.AppendOnlyVec.Solo.{Solo, push-Solo}
use vec.AppendOnlyVec.Exclusive.{push, IsQuiet}
use vec.AppendOnlyVec.Iterate.{collect, iter-enumerate, drop_vec-as_slice}

abbrev vec_of : List (Option ℕ) → ℕ → ℕ → AppendOnlyVec ℕ
vec_of slots r p = record { slots = slots; reserved = r; published = p }

-- Writer 0 pushes 7, writer 1 pushes 9, and writer 0 tries again.
abbrev fresh : System ℕ
fresh = init 2

abbrev moved : System ℕ → ℕ → AppendOnlyVec ℕ → Pc ℕ → System ℕ
moved s i v p = record { vec = v; pc = update s.pc i p }

abbrev at1 : System ℕ
at1 = moved fresh 0 fresh.vec (claiming 7 0)

abbrev at2 : System ℕ
at2 = moved at1 1 at1.vec (claiming 9 0)

abbrev at3 : System ℕ
at3 = moved at2 0 (reserve at2.vec 0) (writing 7 0)

abbrev at4 : System ℕ
at4 = moved at3 0 (write_slot at3.vec 0 7) (waiting 7 0)

abbrev at5 : System ℕ
at5 = moved at4 0 at4.vec (publishing 7 0)

abbrev at6 : System ℕ
at6 = moved at5 0 (publish at5.vec 0) (returned 7 (some 0))

abbrev at7 : System ℕ
at7 = moved at6 1 at6.vec (claiming 9 1)

abbrev at8 : System ℕ
at8 = moved at7 1 (reserve at7.vec 1) (writing 9 1)

abbrev at9 : System ℕ
at9 = moved at8 1 (write_slot at8.vec 1 9) (waiting 9 1)

abbrev at10 : System ℕ
at10 = moved at9 1 at9.vec (publishing 9 1)

abbrev at11 : System ℕ
at11 = moved at10 1 (publish at10.vec 1) (returned 9 (some 1))

abbrev at12 : System ℕ
at12 = moved at11 2 at11.vec (claiming 5 2)

abbrev at13 : System ℕ
at13 = moved at12 2 at12.vec (returned 5 none)

claimed : Steps fresh at3
unfolding ℕ_discrete
claimed =
    later (later (later here (pick 0 (load 7 0 (omega arith)))) (pick 1 (load 9 0 (omega arith))))
      (pick 0 (cas_win (omega arith) refl))

published : Steps fresh at6
unfolding ℕ_discrete
published =
    later (later (later claimed (pick 0 (write))) (pick 0 (pass 0 (omega arith) refl)))
      (pick 0 (store))

more : Steps at6 at11
unfolding ℕ_discrete
more =
    later
      (later
        (later
          (later (later here (pick 1 (cas_lose 1 (omega arith) (omega arith))))
            (pick 1 (cas_win (omega arith) refl)))
          (pick 1 (write)))
        (pick 1 (pass 1 (omega arith) refl)))
      (pick 1 (store))

both : Steps fresh at11
unfolding ℕ_discrete
both =
    later
      (later
        (later
          (later
            (later
              (later
                (later
                  (later
                    (later
                      (later (later here (pick 0 (load 7 0 (omega arith))))
                        (pick 1 (load 9 0 (omega arith))))
                      (pick 0 (cas_win (omega arith) refl)))
                    (pick 0 (write)))
                  (pick 0 (pass 0 (omega arith) refl)))
                (pick 0 (store)))
              (pick 1 (cas_lose 1 (omega arith) (omega arith))))
            (pick 1 (cas_win (omega arith) refl)))
          (pick 1 (write)))
        (pick 1 (pass 1 (omega arith) refl)))
      (pick 1 (store))

late : Steps fresh at13
unfolding ℕ_discrete
late = later (later both (pick 2 (load 5 2 (omega arith)))) (pick 2 (full (omega arith)))

as_slice-Reach_example :
    (xs : List ℕ) × (as_slice at11.vec ≡ done xs)
    × (length xs ≡ count at11.vec)
    × (count at11.vec ≤ 2)
as_slice-Reach_example = as_slice-Reach both

as_slice-Steps_example : (ys : List ℕ) × (as_slice at11.vec ≡ done ((7 ∷ []) ++ ys))
unfolding as_slice raw_parts
as_slice-Steps_example = as_slice-Steps 2 (7 ∷ []) published more refl

index-returned_example : (0 < count at11.vec) × (index at11.vec 0 ≡ done 7)
unfolding ℕ_discrete
index-returned_example = index-returned 2 0 both refl

no_deadlock_example :
    (i : ℕ) × (v : AppendOnlyVec ℕ) × (p : Pc ℕ) × Move at3.vec (at3.pc i) v p
    × (pending (at3.pc i) ≡ some 0)
    × (moves_left p < moves_left (at3.pc i))
no_deadlock_example = no_deadlock 2 claimed (omega arith)

-- The second writer has published, too.
as_slice-log_example :
    (as_slice at13.vec ≡ done (log late))
    × ((n : ℕ) → n ≤ count at13.vec → raw_parts at13.vec.slots n ≡ done (take n (log late)))
    × ((i : ℕ) → IsLogged 2 at13.pc (log late) (at13.pc i))
as_slice-log_example = as_slice-log 2 late

two_pushed : log late ≡ 7 ∷ 9 ∷ []
unfolding late both
two_pushed = refl

push-terminates_example :
    (t : System ℕ) × (r : Steps at3 t) × (moves r ≤ 3 * (at3.vec.reserved - count at3.vec))
    × (t.vec.reserved ≡ at3.vec.reserved)
    × (count t.vec ≡ at3.vec.reserved)
    × ((i : ℕ) → pending (t.pc i) ≡ none)
    × ((i : ℕ) → slot_of (t.pc i) ≡ slot_of (at3.pc i))
push-terminates_example = push-terminates 2 claimed

-- One element in a vector of two slots.
abbrev one : AppendOnlyVec ℕ
one = vec_of (some 7 ∷ none ∷ []) 1 1

one-IsFilled : IsFilled one.slots one.published
one-IsFilled zero h = (7, refl)
one-IsFilled (suc k) h = absurd (omega arith)

one-IsQuiet : IsQuiet one
one-IsQuiet = record { settled = refl; fits = omega arith; filled = one-IsFilled }

one_slice : as_slice one ≡ done (7 ∷ [])
unfolding as_slice raw_parts
one_slice = refl

iter-enumerate_example : (it : Iter ℕ) × (iter one ≡ done it) × (collect 2 it ≡ some ((0, 7) ∷ []))
iter-enumerate_example = iter-enumerate one (7 ∷ []) one_slice

drop_vec-as_slice_example : drop_vec one ≡ done (7 ∷ [])
drop_vec-as_slice_example = drop_vec-as_slice one (7 ∷ []) one_slice

push-Solo_example :
    (push (vec_of (none ∷ none ∷ []) 0 0) 7 ≡ some (some 0, vec_of (some 7 ∷ none ∷ []) 1 1))
    ↔ Solo (vec_of (none ∷ none ∷ []) 0 0) (vec_of (some 7 ∷ none ∷ []) 1 1) (returned 7 (some 0))
push-Solo_example =
    push-Solo (vec_of (none ∷ none ∷ []) 0 0) refl 7 (some 0) (vec_of (some 7 ∷ none ∷ []) 1 1)
