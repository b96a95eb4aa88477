-- ===== src/Vec64/Display.antt =====
-- src/vec64.rs: `Display`. A text is a list of bytes, a formatter is the text that its sink holds; what `write_str` of
-- the sink does, and the `Display` of an element, are parameters.
pub mod Printed
mod Tests
use vec.Base.{ℕ, zero, suc, ◌+◌, List, [], ◌∷◌, ltb, if◌then◌else◌}

abbrev pub Text : Type 0
Text = List ℕ

-- `fmt::Result`, and what the sink holds afterwards.
pub data Fmt : Type 0 where
  ok : Text → Fmt
  failed : Text → Fmt

infixl 5 ◌>>=◌
abbrev pub ◌>>=◌ : Fmt → (Text → Fmt) → Fmt
ok t >>= k = k t
failed t >>= k = failed t

abbrev pub Writer : Type 0
Writer = Text → Text → Fmt

abbrev pub opening : Text
opening = b'[' ∷ []

abbrev pub comma : Text
comma = b',' ∷ b' ' ∷ []

abbrev pub closing : Text
closing = b']' ∷ []

module _ {ℓ} {A : Type ℓ} (write_str : Writer) (fmt_item : A → Text → Fmt) where
  -- The loop over the elements from index `i` on.
  pub fmt_items : ℕ → List A → Text → Fmt
  fmt_items i [] f = ok f
  fmt_items i (item ∷ items) f =
      (if ltb 0 i then write_str comma f else ok f) >>= fmt_item item >>= fmt_items (i + 1) items

  pub fmt : List A → Text → Fmt
  fmt items f = write_str opening f >>= fmt_items 0 items >>= write_str closing
