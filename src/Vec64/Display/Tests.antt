-- ===== src/Vec64/Display/Tests.antt =====
-- Prints of numbers below ten, into a sink of at most nine bytes.
use mathlib.Core.List.{append-nil}
use vec.Base.{
  ℕ, ◌+◌, ◌≡◌, refl, sym, [], ◌∷◌, ◌++◌, leb, length, if◌then◌else◌, Bool-cases, inl, inr,
}
use vec.Vec64.Display.{Text, Fmt, ok, failed, opening, closing, fmt, fmt_items}
use vec.Vec64.Display.Printed.{Writes, separated, fmt-Writes}

abbrev small_sink : Text → Text → Fmt
small_sink t f = if leb (length (f ++ t)) 9 then ok (f ++ t) else failed f

abbrev digit : ℕ → Text
digit n = (n + b'0') ∷ []

small_sink-Writes : (t f : Text) → Writes f t (small_sink t f)
small_sink-Writes t f = elim (Bool-cases (leb (length (f ++ t)) 9)) [
  | inl room ↦ rw room refl
  | inr full ↦ rw full ([], sym (append-nil f), (t, refl))
]

fmt-Writes_example :
    Writes []
      (opening ++ separated digit (1 ∷ 2 ∷ 3 ∷ 4 ∷ []) ++ closing)
      (fmt small_sink (λ n. small_sink (digit n)) (1 ∷ 2 ∷ 3 ∷ 4 ∷ []) [])
fmt-Writes_example =
    fmt-Writes small_sink (λ n. small_sink (digit n)) digit small_sink-Writes
      (λ n. small_sink-Writes (digit n)) (1 ∷ 2 ∷ 3 ∷ 4 ∷ []) []

-- `[1, 2, 3]` fits, and of `[1, 2, 3, 4]` the sink keeps the first eight bytes.
fits :
    fmt small_sink (λ n. small_sink (digit n)) (1 ∷ 2 ∷ 3 ∷ []) []
    ≡ ok (b'[' ∷ b'1' ∷ b',' ∷ b' ' ∷ b'2' ∷ b',' ∷ b' ' ∷ b'3' ∷ b']' ∷ [])
unfolding fmt fmt_items
fits = refl

too_long :
    fmt small_sink (λ n. small_sink (digit n)) (1 ∷ 2 ∷ 3 ∷ 4 ∷ []) []
    ≡ failed (b'[' ∷ b'1' ∷ b',' ∷ b' ' ∷ b'2' ∷ b',' ∷ b' ' ∷ b'3' ∷ [])
unfolding fmt fmt_items
too_long = refl
