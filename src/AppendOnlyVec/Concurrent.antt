-- ===== src/AppendOnlyVec/Concurrent.antt =====
-- What any number of concurrent writers and readers may rely on, in every reachable state.
use vec.Base.{
  ℕ, ◌≤◌, ◌<◌, ◌≡◌, refl, none, some, List, ◌++◌, length, arith, length-replicate,
  get_elem?-replicate, get_elem?-set_ne, subst, ◌∙◌, lt→leb,
}
use vec.AppendOnlyVec.{AppendOnlyVec, done, count, as_slice, index, get, assume_init}
use vec.AppendOnlyVec.Push.{
  Pc, idle, claiming, writing, waiting, publishing, returned, Move, load, write, pass, store,
  System, Step, pick, init, Steps, here, later,
}
use vec.AppendOnlyVec.Invariant.{slot_of, pending, Local, Inv}
use vec.AppendOnlyVec.Moves.{Move-Inv}
use vec.AppendOnlyVec.Slice.{Agree, raw_parts-filled, raw_parts-extend}

module _ {ℓ} {A : Type ℓ} where
  init-Inv : (cap : ℕ) → Inv {A = A} cap (init cap).vec (init {A = A} cap).pc
  init-Inv cap = record {
    sized = length-replicate cap none;
    published_le = omega arith;
    reserved_le = omega arith;
    local = λ i. tt;
    unique = λ i j k p q. cc;
    covered = λ k p q. absurd (omega arith);
    filled = λ k h. absurd (omega arith);
    empty = λ k p q. get_elem?-replicate cap none k q;
  }

  Step-Inv : {cap : ℕ} {s t : System A} → Inv cap s.vec s.pc → Step s t → Inv cap t.vec t.pc
  Step-Inv inv (pick i mv) = Move-Inv inv i mv

  -- Whatever writers do, the counters stay in order and within the capacity, no two writers have
  -- one slot, each slot between the counters has a writer that will publish it, the published
  -- slots hold values, and the slots that nobody has claimed are untouched.
  pub Steps-Inv : {cap : ℕ} {s t : System A} → Inv cap s.vec s.pc → Steps s t → Inv cap t.vec t.pc
  Steps-Inv inv here = inv
  Steps-Inv inv (later r st) = Step-Inv (Steps-Inv inv r) st

  abbrev pub Reach : ℕ → System A → Type ℓ
  Reach cap s = Steps (init cap) s

  pub Reach-Inv : {cap : ℕ} {s : System A} → Reach cap s → Inv cap s.vec s.pc
  Reach-Inv {cap} r = Steps-Inv (init-Inv cap) r

  -- In every reachable state `as_slice` reads `count` values, none of them uninitialised, and the
  -- count is within the capacity that was asked for.
  pub as_slice-Reach :
      {cap : ℕ} {s : System A}
      → Reach cap s
      → (xs : List A) × (as_slice s.vec ≡ done xs) × (length xs ≡ count s.vec) × (count s.vec ≤ cap)
  unfolding as_slice
  as_slice-Reach {s} r =
      let inv = Reach-Inv r in
      let (xs, e, l) = raw_parts-filled s.vec.slots s.vec.published inv.filled in
      (xs, e, l, omega (arith, inv.published_le, inv.reserved_le))

  -- One move leaves the published slots alone.
  Move-Agree :
      {v v' : AppendOnlyVec A} {p p' : Pc A}
      → Local v p
      → Move v p v' p'
      → (v.published ≤ v'.published) × Agree v.slots v'.slots v.published
  Move-Agree {v} l (write {a} {idx}) =
      (omega arith, λ k h. get_elem?-set_ne v.slots idx k (some a) (omega (arith, l.0)))
  Move-Agree l store = (omega (arith, l.0), λ k h. refl)
  Move-Agree l (load _ _ _) = (omega arith, λ k h. refl)
  Move-Agree l mv = (omega arith, λ k h. refl)

  Steps-Agree :
      (cap : ℕ) {s t : System A}
      → Inv cap s.vec s.pc
      → Steps s t
      → (s.vec.published ≤ t.vec.published) × Agree s.vec.slots t.vec.slots s.vec.published
  Steps-Agree cap inv here = (omega arith, λ k h. refl)
  Steps-Agree cap inv (later r (pick i mv)) =
      let (le, same) = Steps-Agree cap inv r in
      let m = Move-Agree ((Steps-Inv inv r).local i) mv in
      (omega (arith, m.0), λ k h. m.1 k (omega arith) ∙ same k h)

  -- A slice that a reader has taken stays valid: whatever writers do afterwards, every later slice
  -- extends it, so no element of it changes or disappears.
  pub as_slice-Steps :
      (cap : ℕ) {s t : System A} (xs : List A)
      → Reach cap s
      → Steps s t
      → as_slice s.vec ≡ done xs
      → (ys : List A) × (as_slice t.vec ≡ done (xs ++ ys))
  unfolding as_slice
  as_slice-Steps cap {s} {t} xs r more e =
      let inv = Reach-Inv r in
      let (le, same) = Steps-Agree cap inv more in
      raw_parts-extend s.vec.slots t.vec.slots s.vec.published t.vec.published xs le same
        (Steps-Inv inv more).filled e

  -- A `push` that returned `Some(k)` published its value: index `k` reads that value.
  pub index-returned :
      (cap : ℕ) {k : ℕ} {a : A} {s : System A} (i : ℕ)
      → Reach cap s
      → s.pc i ≡ returned a (some k)
      → (k < count s.vec) × (index s.vec k ≡ done a)
  unfolding index get assume_init
  index-returned cap {k} {a} {s} i r e =
      let l : Local s.vec (returned a (some k)) = subst (Local s.vec) e ((Reach-Inv r).local i) in
      (l.0, rw (lt→leb (count s.vec) k l.0, l.1))

  -- A `push` returns `None` only when every slot of the capacity has been claimed.
  pub returned_none :
      {cap : ℕ} {a : A} {s : System A} (i : ℕ)
      → Reach cap s
      → s.pc i ≡ returned a none
      → s.vec.reserved ≡ cap
  returned_none {a} {s} i r e =
      let inv = Reach-Inv r in
      let l : Local s.vec (returned a none) = subst (Local s.vec) e (inv.local i) in l.0 ∙ inv.sized

  -- Two writers never have the same slot, before or after they return.
  pub slot_of-injective :
      (cap : ℕ) {k : ℕ} {s : System A} (i j : ℕ)
      → Reach cap s
      → slot_of (s.pc i) ≡ some k
      → slot_of (s.pc j) ≡ some k
      → i ≡ j
  slot_of-injective cap {k} i j r p q = (Reach-Inv r).unique i j k p q

  -- Moves left until the writer publishes, if it does not have to wait.
  abbrev pub moves_left : Pc A → ℕ
  moves_left (writing a k) = 3
  moves_left (waiting a k) = 2
  moves_left (publishing a k) = 1
  moves_left _ = 0

  advance :
      (v : AppendOnlyVec A) (p : Pc A) (k : ℕ)
      → v.published ≡ k
      → pending p ≡ some k
      → (v' : AppendOnlyVec A) × (p' : Pc A) × Move v p v' p' × (moves_left p' < moves_left p)
  advance v idle k e h = cc
  advance v (claiming a c) k e h = cc
  advance v (writing a n) k e h = (_, _, write, omega arith)
  advance v (waiting a n) k e h = (_, _, pass n (ground arith) refl, omega arith)
  advance v (publishing a n) k e h = (_, _, store, omega arith)
  advance v (returned a r) k e h = cc

  -- The wait for predecessors is no deadlock: while a claimed slot is unpublished, the writer of
  -- the first such slot has a move that brings it nearer to its store.
  pub no_deadlock :
      (cap : ℕ) {s : System A}
      → Reach cap s
      → count s.vec < s.vec.reserved
      → (i : ℕ) × (v : AppendOnlyVec A) × (p : Pc A) × Move s.vec (s.pc i) v p
        × (pending (s.pc i) ≡ some (count s.vec))
        × (moves_left p < moves_left (s.pc i))
  no_deadlock cap {s} r h =
      let (i, held) = (Reach-Inv r).covered s.vec.published (omega arith) h in
      let (v, p, mv, less) = advance s.vec (s.pc i) s.vec.published refl held in
      (i, v, p, mv, held, less)
