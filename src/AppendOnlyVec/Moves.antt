-- ===== src/AppendOnlyVec/Moves.antt =====
-- One move of writer `i` keeps each field of the invariant.
use vec.Base.{
  ℕ, ◌≤◌, ◌<◌, ◌≡◌, ◌≢◌, refl, none, some, get_elem?, arith, length-set, get_elem?-set_self,
  get_elem?-set_ne, ℕ_discrete, dite, ap, sym, ◌∙◌,
}
use vec.AppendOnlyVec.{AppendOnlyVec, capacity}
use vec.AppendOnlyVec.Push.{
  Pc, idle, claiming, writing, waiting, publishing, returned, Move, load, full, cas_win, cas_lose,
  write, spin, pass, store, leave, update, reserve, write_slot, publish,
}
use vec.AppendOnlyVec.Invariant.{slot_of, pending, Local, Inv}

module _ {ℓ} {A : Type ℓ} where
  -- The premise of a move, for the catch-all clauses below, which cannot name it.
  abbrev Guard : {v v' : AppendOnlyVec A} {p p' : Pc A} → Move v p v' p' → Type 0
  Guard {v} (cas_win {cur} _ _) = (cur < capacity v) × (v.reserved ≡ cur)
  Guard {v} (full {cur} _) = capacity v ≤ cur
  Guard {v} (pass {idx} seen _ _) = (seen ≤ v.published) × (seen ≡ idx)
  Guard _ = Unit

  guard : {v v' : AppendOnlyVec A} {p p' : Pc A} (mv : Move v p v' p') → Guard mv
  guard (cas_win h e) = (h, e)
  guard (full h) = h
  guard (pass seen h e) = (h, e)
  guard _ = tt

  -- What another writer, at `q`, knows outlives the three ways to change the vector.
  Local-reserve :
      (v : AppendOnlyVec A) (cur : ℕ) (q : Pc A)
      → v.reserved ≡ cur
      → cur < capacity v
      → Local v q
      → Local (reserve v cur) q
  Local-reserve v cur idle e h l = tt
  Local-reserve v cur (claiming a c) e h l = (omega arith, tt)
  Local-reserve v cur (writing a k) e h l = (l.0, omega arith, l.2)
  Local-reserve v cur (waiting a k) e h l = (l.0, omega arith, l.2)
  Local-reserve v cur (publishing a k) e h l = (l.0, omega arith, l.2)
  Local-reserve v cur (returned a none) e h l = absurd (omega arith)
  Local-reserve v cur (returned a (some k)) e h l = l

  Local-write :
      (v : AppendOnlyVec A) (idx : ℕ) (a : A) (q : Pc A)
      → slot_of q ≢ some idx
      → Local v q
      → Local (write_slot v idx a) q
  Local-write v idx a idle ne l = tt
  Local-write v idx a (claiming b c) ne l = l
  Local-write v idx a (writing b k) ne l =
      (l.0, l.1, get_elem?-set_ne v.slots idx k (some a) (λ e. ne (cc)) ∙ l.2)
  Local-write v idx a (waiting b k) ne l =
      (l.0, l.1, get_elem?-set_ne v.slots idx k (some a) (λ e. ne (cc)) ∙ l.2)
  Local-write v idx a (publishing b k) ne l =
      (l.0, l.1, get_elem?-set_ne v.slots idx k (some a) (λ e. ne (cc)) ∙ l.2)
  Local-write v idx a (returned b none) ne l = (l.0 ∙ sym (length-set v.slots idx (some a)), tt)
  Local-write v idx a (returned b (some k)) ne l =
      (l.0, get_elem?-set_ne v.slots idx k (some a) (λ e. ne (cc)) ∙ l.1)

  Local-publish :
      (v : AppendOnlyVec A) (idx : ℕ) (q : Pc A)
      → v.published ≡ idx
      → slot_of q ≢ some idx
      → Local v q
      → Local (publish v idx) q
  Local-publish v idx idle e ne l = tt
  Local-publish v idx (claiming b c) e ne l = l
  Local-publish v idx (writing b k) e ne l = (ground arith, l.1, l.2)
  Local-publish v idx (waiting b k) e ne l = (ground arith, l.1, l.2)
  Local-publish v idx (publishing b k) e ne l = absurd (ne (ground arith))
  Local-publish v idx (returned b none) e ne l = l
  Local-publish v idx (returned b (some k)) e ne l = (omega arith, l.1)

module _ {ℓ} {A : Type ℓ} {cap : ℕ} {v : AppendOnlyVec A} {pc : ℕ → Pc A} (inv : Inv cap v pc)
    (i : ℕ) where
  open inv use {sized, published_le, reserved_le, local, unique, covered, filled, empty}

  -- The writer `i` stands at `p`, about which the invariant speaks.
  record Mover (p : Pc A) : Type ℓ where
    at : pc i ≡ p
    own : Local v p

  Move-counts :
      {p p' : Pc A} {v' : AppendOnlyVec A}
      → Move v p v' p'
      → Mover p
      → (capacity v' ≡ cap) × (v'.published ≤ v'.reserved) × (v'.reserved ≤ cap)
  Move-counts (load a c h) f = ground arith
  Move-counts (write {a} {idx}) f = ground (arith, length-set v.slots idx (some a))
  Move-counts mv f = ground (arith, guard mv)

  Move-Local_self : {p p' : Pc A} {v' : AppendOnlyVec A} → Move v p v' p' → Mover p → Local v' p'
  Move-Local_self (load a c h) f = (h, tt)
  Move-Local_self (full h) f = (omega (arith, f.own.0), tt)
  Move-Local_self (cas_win {cur} h e) f =
      (omega arith, omega arith, empty cur (omega arith) (omega arith))
  Move-Local_self (cas_lose c h le) f = (le, tt)
  Move-Local_self (write {a} {idx}) f =
      (f.own.0, f.own.1, get_elem?-set_self v.slots idx (some a) (omega (arith, f.own.1)))
  Move-Local_self (spin n h g) f = f.own
  Move-Local_self (pass n h g) f = (omega (arith, f.own.0), f.own.1, f.own.2)
  Move-Local_self store f = (omega arith, f.own.2)
  Move-Local_self leave f = tt

  -- No other writer has the slot of the writer `i`.
  slot-ne :
      {p : Pc A} {k : ℕ} → Mover p → slot_of p ≡ some k → (j : ℕ) → i ≢ j → slot_of (pc j) ≢ some k
  slot-ne {p} {k} f e j ne q = ne (unique i j k (ap slot_of f.at ∙ e) q)

  Move-Local_other :
      {p p' : Pc A} {v' : AppendOnlyVec A}
      → Move v p v' p'
      → Mover p
      → (j : ℕ) → i ≢ j
      → Local v' (pc j)
  Move-Local_other (cas_win {cur} h e) f j ne = Local-reserve v cur (pc j) e h (local j)
  Move-Local_other (write {a} {idx}) f j ne =
      Local-write v idx a (pc j) (slot-ne f refl j ne) (local j)
  Move-Local_other (store {a} {idx}) f j ne =
      Local-publish v idx (pc j) f.own.0 (slot-ne f refl j ne) (local j)
  Move-Local_other mv f j ne = local j

  Move-Local :
      {p p' : Pc A} {v' : AppendOnlyVec A}
      → Move v p v' p'
      → Mover p
      → (j : ℕ) → Local v' (update pc i p' j)
  Move-Local {p'} {v'} mv f j =
      elim (ℕ_discrete i j) as (λ d. Local v' (dite d (λ _. p') (λ _. pc j))) [
        | yes e ↦ Move-Local_self mv f
        | no ne ↦ Move-Local_other mv f j ne
      ]

  -- A slot that a writer has is below `reserved`.
  slot-lt : (j k : ℕ) → slot_of (pc j) ≡ some k → k < v.reserved
  slot-lt j k e = ground (arith, local j)

  Move-unique :
      {p p' : Pc A} {v' : AppendOnlyVec A}
      → Move v p v' p'
      → Mover p
      → (a b k : ℕ) → slot_of (update pc i p' a) ≡ some k
      → slot_of (update pc i p' b) ≡ some k
      → a ≡ b
  Move-unique (load _ c h) f a b k p q = ground (arith, unique a b k)
  Move-unique (cas_win h e) f a b k p q = ground (arith, unique a b k, slot-lt a k, slot-lt b k)
  Move-unique mv f a b k p q = ground (arith, f.at, unique a b k, unique i a k, unique i b k)

  Move-covered :
      {p p' : Pc A} {v' : AppendOnlyVec A}
      → Move v p v' p'
      → Mover p
      → (k : ℕ) → v'.published ≤ k
      → k < v'.reserved
      → (j : ℕ) × (pending (update pc i p' j) ≡ some k)
  Move-covered (cas_win {cur} h e) f k p q = elim (ℕ_discrete k cur) [
    | yes new ↦ (i, ground arith)
    | no old ↦ let (j, held) = covered k p (omega arith) in (j, ground (arith, f.at))
  ]
  Move-covered store f k p q =
      let (j, held) = covered k (omega (arith, f.own.0)) q in (j, ground (arith, f.at))
  Move-covered mv f k p q = let (j, held) = covered k p q in (j, ground (arith, f.at))

  Move-filled :
      {p p' : Pc A} {v' : AppendOnlyVec A}
      → Move v p v' p'
      → Mover p
      → (k : ℕ) → k < v'.published
      → (a : A) × (get_elem? v'.slots k ≡ some (some a))
  Move-filled (write {a} {idx}) f k h =
      let (b, e) = filled k h in
      (b, get_elem?-set_ne v.slots idx k (some a) (omega (arith, f.own.0)) ∙ e)
  Move-filled (store {a} {idx}) f k h = elim (ℕ_discrete k idx) [
    | yes e ↦ (a, rw e f.own.2)
    | no ne ↦ filled k (omega (arith, f.own.0))
  ]
  Move-filled mv f k h = filled k h

  Move-empty :
      {p p' : Pc A} {v' : AppendOnlyVec A}
      → Move v p v' p'
      → Mover p
      → (k : ℕ) → v'.reserved ≤ k
      → k < cap
      → get_elem? v'.slots k ≡ some none
  Move-empty (cas_win c e) f k h q = empty k (omega arith) q
  Move-empty (write {a} {idx}) f k h q =
      get_elem?-set_ne v.slots idx k (some a) (omega (arith, f.own.1)) ∙ empty k h q
  Move-empty mv f k h q = empty k h q

  pub Move-Inv :
      {p' : Pc A} {v' : AppendOnlyVec A} → Move v (pc i) v' p' → Inv cap v' (update pc i p')
  Move-Inv {p'} mv = record {
    sized = (Move-counts mv f).0;
    published_le = (Move-counts mv f).1;
    reserved_le = (Move-counts mv f).2;
    local = Move-Local mv f;
    unique = Move-unique mv f;
    covered = Move-covered mv f;
    filled = Move-filled mv f;
    empty = Move-empty mv f;
  }
    where
      f : Mover (pc i)
      f = record { at = refl; own = local i }
