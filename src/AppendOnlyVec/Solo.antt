-- ===== src/AppendOnlyVec/Solo.antt =====
-- The step relation of `push` with one writer, against the function `push`.
use vec.Base.{
  ℕ, ◌≤◌, ◌<◌, ◌≡◌, refl, sym, ap, ◌∙◌, Option, none, some, arith, dec_lt, ◌↔◌, true, false, Bool,
  subst, le→leb, lt→leb, ==_iff,
}
use mathlib.Core.Logic.{Lift}
use vec.AppendOnlyVec.{AppendOnlyVec, capacity}
use vec.AppendOnlyVec.Push.{
  Pc, idle, claiming, writing, waiting, publishing, returned, Move, load, full, cas_win, cas_lose,
  write, spin, pass, store, leave, reserve, write_slot, publish,
}
use vec.AppendOnlyVec.Exclusive.{push}

module _ {ℓ} {A : Type ℓ} where
  abbrev is_over : Pc A → Bool
  is_over (returned a r) = true
  is_over _ = false

  -- The moves of one writer from `idle` on, up to its return.
  pub data Solo (v : AppendOnlyVec A) : AppendOnlyVec A → Pc A → Type ℓ where
    start : Solo v v idle
    move :
        {w x : AppendOnlyVec A} {p q : Pc A}
        → Solo v w p
        → is_over p ≡ false
        → Move w p x q
        → Solo v x q

  -- Where the writer stands, and what it has done.
  Local : AppendOnlyVec A → AppendOnlyVec A → Pc A → Type ℓ
  Local v w idle = w ≡ v
  Local v w (claiming a cur) = (w ≡ v) × (cur ≤ v.reserved)
  Local v w (writing a idx) = (w ≡ reserve v idx) × (idx ≡ v.reserved) × (idx < capacity v)
  Local v w (waiting a idx) =
      (w ≡ write_slot (reserve v idx) idx a) × (idx ≡ v.reserved) × (idx < capacity v)
  Local v w (publishing a idx) =
      (w ≡ write_slot (reserve v idx) idx a) × (idx ≡ v.reserved) × (idx < capacity v)
  Local v w (returned a r) = push v a ≡ some (r, w)

  module _ (v : AppendOnlyVec A) (quiet : v.published ≡ v.reserved) where
    push-full : (a : A) → capacity v ≤ v.reserved → push v a ≡ some (none, v)
    unfolding push
    push-full a h = rw (le→leb (capacity v) v.reserved h)

    push-last :
        (a : A) (idx : ℕ)
        → idx ≡ v.reserved
        → idx < capacity v
        → push v a ≡ some (some idx, publish (write_slot (reserve v idx) idx a) idx)
    unfolding push
    push-last a idx e h = rw (
      e,
      lt→leb (capacity v) v.reserved (omega (arith, e, h)),
      (==_iff v.published v.reserved).1 quiet,
    )

    Move-Local :
        {w x : AppendOnlyVec A} {p q : Pc A}
        → Move w p x q
        → is_over p ≡ false
        → Local v w p
        → Local v x q
    unfolding Local
    Move-Local (load value cur le) h e = (e, subst (λ u. cur ≤ u.reserved) e le)
    Move-Local (full {a} {cur} room) h (e, le) =
        push-full a (omega (arith, subst (λ u. capacity u ≤ cur) e room, le))
        ∙ ap (λ u. some (none, u)) (sym e)
    Move-Local (cas_win {a} {cur} room won) h (e, le) = (
      ap (λ u. reserve u cur) e,
      sym (subst (λ u. u.reserved ≡ cur) e won),
      subst (λ u. cur < capacity u) e room,
    )
    Move-Local (cas_lose actual room seen) h (e, le) = (e, subst (λ u. actual ≤ u.reserved) e seen)
    Move-Local (write {a} {idx}) h (e, at, room) = (ap (λ u. write_slot u idx a) e, at, room)
    Move-Local (spin seen le ne) h l = l
    Move-Local (pass seen le at) h l = l
    Move-Local (store {a} {idx}) h (e, at, room) =
        push-last a idx at room ∙ ap (λ u. some (some idx, publish u idx)) (sym e)
    Move-Local leave h l = absurd (ground (arith, h))

    Solo-Local : {w : AppendOnlyVec A} {p : Pc A} → Solo v w p → Local v w p
    unfolding Local
    Solo-Local start = refl
    Solo-Local (move r h mv) = Move-Local mv h (Solo-Local r)

    Ends : A → Option (Option ℕ × AppendOnlyVec A) → Type ℓ
    Ends a none = Lift {0, ℓ} ⊥
    Ends a (some (r, w)) = Solo v w (returned a r)

    loaded : (a : A) → Solo v v (claiming a v.reserved)
    loaded a = move start refl (load a v.reserved (omega arith))

    -- The shortest run.
    solo_run : (a : A) → Ends a (push v a)
    unfolding Ends
    solo_run a = elim (dec_lt v.reserved (capacity v)) [
      | yes room ↦ subst (Ends a) (sym (push-last a v.reserved refl room)) (
          move
            (move (move (move (loaded a) refl (cas_win room refl)) refl write) refl
              (pass v.reserved (omega (arith, quiet)) refl))
            refl store)
      | no past ↦
          subst (Ends a) (sym (push-full a (omega arith)))
            (move (loaded a) refl (full (omega arith)))
    ]

    -- Where no other writer is about and all that is claimed is published, the moves of one writer from the start of `push` to its
    -- return and the function `push` are the same: every run that returns, whatever values its loads have seen, returns and leaves what the function
    -- says, and there is such a run.
    pub push-Solo :
        (a : A) (r : Option ℕ) (w : AppendOnlyVec A)
        → (push v a ≡ some (r, w)) ↔ Solo v w (returned a r)
    unfolding Ends Local
    push-Solo a r w = (λ e. subst (Ends a) e (solo_run a), λ run. Solo-Local run)
