-- ===== src/AppendOnlyVec/Settle.antt =====
-- The wait for predecessors in `push` ends: a run that publishes every claimed slot.
use vec.Base.{
  ℕ, zero, suc, ◌+◌, ◌-◌, ◌*◌, ◌≤◌, ◌≡◌, refl, sym, ap, subst, none, ◌∙◌, some, arith, ℕ_discrete,
  dite,
}
use vec.AppendOnlyVec.{AppendOnlyVec, count}
use vec.AppendOnlyVec.Push.{
  Pc, idle, claiming, writing, waiting, publishing, returned, Move, write, pass, store, System,
  pick, Steps, here, later, update, write_slot, publish,
}
use vec.AppendOnlyVec.Invariant.{slot_of, pending, Local, Inv}
use vec.AppendOnlyVec.Concurrent.{Reach, Reach-Inv, Steps-Inv}

module _ {ℓ} {A : Type ℓ} where
  abbrev pub moves : {s t : System A} → Steps s t → ℕ
  moves here = 0
  moves (later r st) = suc (moves r)

  join : {s t u : System A} → Steps s t → Steps t u → Steps s u
  join r here = r
  join r (later q st) = later (join r q) st

  moves-join :
      {s t u : System A} (r : Steps s t) (q : Steps t u) → moves (join r q) ≡ moves r + moves q
  unfolding join
  moves-join r here = omega arith
  moves-join r (later q st) = omega (arith, moves-join r q)

  -- A run of at most `n` moves, after which the same slots are claimed by the same writers.
  record Closer (n : ℕ) (s t : System A) : Type ℓ where
    run : Steps s t
    short : moves run ≤ n
    reserved : t.vec.reserved ≡ s.vec.reserved
    slots : (i : ℕ) → slot_of (t.pc i) ≡ slot_of (s.pc i)

  Closer-refl : (n : ℕ) (s : System A) → Closer n s s
  Closer-refl n s = record { run = here; short = omega arith; reserved = refl; slots = λ i. refl }

  Closer-trans : (n k : ℕ) {s t u : System A} → Closer n s t → Closer k t u → Closer (n + k) s u
  Closer-trans n k f g = record {
    run = join f.run g.run;
    short = omega (arith, moves-join f.run g.run, f.short, g.short);
    reserved = g.reserved ∙ f.reserved;
    slots = λ i. g.slots i ∙ f.slots i;
  }

  abbrev after : System A → ℕ → AppendOnlyVec A → Pc A → System A
  after s i v p = record { vec = v; pc = update s.pc i p }

  update_self : (f : ℕ → Pc A) (i : ℕ) (p : Pc A) → update f i p i ≡ p
  update_self f i p = ground arith

  -- A move of writer `i` that leaves its slot and `reserved` alone.
  act :
      (s : System A) (i : ℕ) (p p' : Pc A) (v : AppendOnlyVec A)
      → s.pc i ≡ p
      → Move s.vec p v p'
      → v.reserved ≡ s.vec.reserved
      → slot_of p' ≡ slot_of p
      → Closer 1 s (after s i v p')
  act s i p p' v at mv same slot = record {
    run = later here (pick i (subst (λ q. Move s.vec q v p') (sym at) mv));
    short = omega arith;
    reserved = same;
    slots = λ j.
        elim (ℕ_discrete i j)
          as (λ d. slot_of (dite d (λ _. p') (λ _. s.pc j)) ≡ slot_of (s.pc j)) [
            | yes e ↦ slot ∙ ap slot_of (sym at) ∙ ap (λ k. slot_of (s.pc k)) e
            | no ne ↦ refl
          ];
  }

  -- The writer of the first unpublished slot publishes it.
  Published : ℕ → System A → Type ℓ
  Published n s = (t : System A) × Closer n s t × (t.vec.published ≡ suc s.vec.published)

  finish_store :
      (s : System A) (i k : ℕ) (a : A)
      → s.pc i ≡ publishing a k
      → k ≡ s.vec.published
      → Published 1 s
  unfolding Published
  finish_store s i k a at first =
      (_, act s i _ (returned a (some k)) (publish s.vec k) at store refl refl, omega arith)

  finish_wait :
      (s : System A) (i k : ℕ) (a : A) → s.pc i ≡ waiting a k → k ≡ s.vec.published → Published 2 s
  unfolding Published
  finish_wait s i k a at first =
      let t = after s i s.vec (publishing a k) in
      let one = act s i _ (publishing a k) s.vec at (pass k (omega arith) refl) refl refl in
      let (u, more, up) = finish_store t i k a (update_self s.pc i (publishing a k)) first in
      (u, Closer-trans 1 1 one more, up)

  finish_write :
      (s : System A) (i k : ℕ) (a : A) → s.pc i ≡ writing a k → k ≡ s.vec.published → Published 3 s
  unfolding Published
  finish_write s i k a at first =
      let t = after s i (write_slot s.vec k a) (waiting a k) in
      let one = act s i _ (waiting a k) (write_slot s.vec k a) at write refl refl in
      let (u, more, up) = finish_wait t i k a (update_self s.pc i (waiting a k)) first in
      (u, Closer-trans 1 2 one more, up)

  longer : (n k : ℕ) (s : System A) → n ≤ k → Published n s → Published k s
  unfolding Published
  longer n k s le (t, c, up) = (
    t,
    record { run = c.run; short = omega (arith, c.short); reserved = c.reserved; slots = c.slots },
    up,
  )

  finish :
      (s : System A) (i : ℕ) (p : Pc A)
      → s.pc i ≡ p
      → pending p ≡ some s.vec.published
      → Published 3 s
  finish s i idle at h = absurd (cc)
  finish s i (claiming a c) at h = absurd (cc)
  finish s i (writing a k) at h = finish_write s i k a at (cc)
  finish s i (waiting a k) at h = longer 2 3 s (omega arith) (finish_wait s i k a at (cc))
  finish s i (publishing a k) at h = longer 1 3 s (omega arith) (finish_store s i k a at (cc))
  finish s i (returned a r) at h = absurd (cc)

  Settled : ℕ → System A → Type ℓ
  Settled n s = (t : System A) × Closer n s t × (t.vec.published ≡ s.vec.reserved)

  settle :
      (cap d : ℕ) (s : System A)
      → Inv cap s.vec s.pc
      → s.vec.published + d ≡ s.vec.reserved
      → Settled (3 * d) s
  unfolding Settled Published
  settle cap zero s inv gap = (s, Closer-refl 0 s, omega arith)
  settle cap (suc d) s inv gap =
      let (i, held) = inv.covered s.vec.published (omega arith) (omega arith) in
      let (t, some_moves, up) = finish s i (s.pc i) refl held in
      let (u, rest, all) =
        settle cap d t (Steps-Inv inv some_moves.run) (omega (arith, some_moves.reserved)) in
      let three : 3 * suc d ≡ 3 + 3 * d = omega arith in
      (
        u,
        subst (λ n. Closer n s u) (sym three) (Closer-trans 3 (3 * d) some_moves rest),
        all ∙ some_moves.reserved,
      )

  -- With nothing left unpublished, no writer is about to publish.
  none-pending :
      (v : AppendOnlyVec A) (p : Pc A) → Local v p → v.published ≡ v.reserved → pending p ≡ none
  none-pending v (writing a n) l e = absurd (omega arith)
  none-pending v (waiting a n) l e = absurd (omega arith)
  none-pending v (publishing a n) l e = absurd (omega arith)
  none-pending v idle l e = refl
  none-pending v p l e = refl

  -- Waiting for predecessors ends: from every reachable state there is a run of at most three moves for each claimed
  -- and unpublished slot, without a new claim, after which every claimed slot is published, no writer is between its claim
  -- and its store, and every writer still has the slot that it had, so that it has returned from `push` with that index.
  pub push-terminates :
      (cap : ℕ) {s : System A}
      → Reach cap s
      → (t : System A) × (r : Steps s t) × (moves r ≤ 3 * (s.vec.reserved - count s.vec))
        × (t.vec.reserved ≡ s.vec.reserved)
        × (count t.vec ≡ s.vec.reserved)
        × ((i : ℕ) → pending (t.pc i) ≡ none)
        × ((i : ℕ) → slot_of (t.pc i) ≡ slot_of (s.pc i))
  unfolding Settled
  push-terminates cap {s} reach =
      let inv = Reach-Inv reach in
      let (t, c, all) =
        settle cap (s.vec.reserved - s.vec.published) s inv (omega (arith, inv.published_le)) in
      (
        t,
        c.run,
        c.short,
        c.reserved,
        all,
        λ i. none-pending t.vec (t.pc i) ((Steps-Inv inv c.run).local i) (all ∙ sym c.reserved),
        c.slots,
      )
