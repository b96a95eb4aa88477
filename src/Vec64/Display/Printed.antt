-- ===== src/Vec64/Display/Printed.antt =====
-- What `Display` prints, on every sink.
use vec.Base.{ℕ, ◌+◌, ◌≡◌, sym, ap, subst, ◌∙◌, List, [], ◌∷◌, ◌++◌, lt→ltb, arith, ◌<◌}
use vec.Vec64.Display.{
  Text, Fmt, ok, failed, Writer, ◌>>=◌, opening, comma, closing, fmt, fmt_items,
}
use mathlib.Core.List.{append_assoc, append-nil}

abbrev pub IsPrefix : Text → Text → Type 0
IsPrefix xs ys = (zs : Text) × (ys ≡ xs ++ zs)

-- All of `t` went to the sink that held `f`; after an error, the beginning of it.
abbrev pub Writes : Text → Text → Fmt → Type 0
Writes f t (ok g) = g ≡ f ++ t
Writes f t (failed g) = (p : Text) × (g ≡ f ++ p) × IsPrefix p t

pub Writes-bind :
    (f t u : Text) (r : Fmt) (k : Text → Fmt)
    → Writes f t r
    → ((g : Text) → Writes g u (k g))
    → Writes f (t ++ u) (r >>= k)
Writes-bind f t u (ok g) k h next = more (k g) (next g)
  where
    more : (r : Fmt) → Writes g u r → Writes f (t ++ u) r
    more (ok a) e = e ∙ ap (λ x. x ++ u) h ∙ append_assoc f t u
    more (failed a) (p, e, q) = (
      t ++ p,
      e ∙ ap (λ x. x ++ p) h ∙ append_assoc f t p,
      (q.0, ap (λ x. t ++ x) q.1 ∙ sym (append_assoc t p q.0)),
    )
Writes-bind f t u (failed g) k (p, e, q) next =
    (p, e, (q.0 ++ u, ap (λ x. x ++ u) q.1 ∙ append_assoc p q.0 u))

-- The texts with commas between them.
abbrev pub separated {ℓ} : {A : Type ℓ} → (A → Text) → List A → Text
separated text [] = []
separated text (x ∷ []) = text x
separated text (x ∷ xs) = text x ++ (comma ++ separated text xs)

abbrev pub after_first {ℓ} : {A : Type ℓ} → (A → Text) → List A → Text
after_first text [] = []
after_first text (x ∷ xs) = (comma ++ text x) ++ after_first text xs

module _ {ℓ} {A : Type ℓ} (write_str : Writer) (fmt_item : A → Text → Fmt) (text : A → Text)
    (sink : (t f : Text) → Writes f t (write_str t f))
    (printer : (a : A) (f : Text) → Writes f (text a) (fmt_item a f)) where
  later_items :
      (i : ℕ) (items : List A) (f : Text)
      → 0 < i
      → Writes f (after_first text items) (fmt_items write_str fmt_item i items f)
  unfolding fmt_items
  later_items i [] f h = sym (append-nil f)
  later_items i (item ∷ items) f h = rw (lt→ltb 0 i h) (
      Writes-bind f (comma ++ text item) (after_first text items)
        (write_str comma f >>= fmt_item item) (fmt_items write_str fmt_item (i + 1) items)
        (Writes-bind f comma (text item) (write_str comma f) (fmt_item item) (sink comma f)
          (printer item))
        (λ g. later_items (i + 1) items g (omega arith)))

  separated-after_first :
      (x : A) (xs : List A) → separated text (x ∷ xs) ≡ text x ++ after_first text xs
  separated-after_first x [] = sym (append-nil (text x))
  separated-after_first x (y ∷ ys) = ap (λ t. text x ++ (comma ++ t)) (separated-after_first y ys)

  all_items :
      (items : List A) (f : Text)
      → Writes f (separated text items) (fmt_items write_str fmt_item 0 items f)
  unfolding fmt_items
  all_items [] f = sym (append-nil f)
  all_items (x ∷ xs) f =
      subst (λ t. Writes f t (fmt_item x f >>= fmt_items write_str fmt_item 1 xs))
        (sym (separated-after_first x xs))
        (Writes-bind f (text x) (after_first text xs) (fmt_item x f)
          (fmt_items write_str fmt_item 1 xs) (printer x f) (λ g. later_items 1 xs g (omega arith)))

  -- `Display` writes the elements in order, with commas between them and brackets around them. When the sink or an element
  -- reports an error it stops with that error, and what has been written is a beginning of that text. The sink and the
  -- elements write their texts, or a beginning before an error.
  pub fmt-Writes :
      (items : List A) (f : Text)
      → Writes f (opening ++ separated text items ++ closing) (fmt write_str fmt_item items f)
  unfolding fmt
  fmt-Writes items f =
      Writes-bind f (opening ++ separated text items) closing
        (write_str opening f >>= fmt_items write_str fmt_item 0 items) (write_str closing)
        (Writes-bind f opening (separated text items) (write_str opening f)
          (fmt_items write_str fmt_item 0 items) (sink opening f) (all_items items))
        (sink closing)
