-- ===== src/Build.antt =====
-- build.rs: the choice of `HUGE_PAGE`, and the Cargo features that the rest of the crate reads.
pub mod Pow2
pub mod Laws
mod Tests
use vec.Base.{
  ℕ, zero, suc, ◌+◌, ◌-◌, ◌*◌, ◌/◌, ◌%◌, ◌^◌, List, [], ◌∷◌, Option, none, some, Bool, true, false,
  ◌&&◌, not, ltb, leb, ◌==◌, if◌then◌else◌, ◌≡◌, ◌≤◌,
}
use vec.Base.Usize.{usize_mod}
use vec.Build.Pow2.{is_power_of_two}

-- The build of the crate: `HUGE_PAGE`, and the features that change code in src/. `mmap` stands for
-- `all(feature = "mmap", target_os = "linux")`, and `thp` likewise.
pub record Config : Type 0 where
  pub huge_page : ℕ
  pub mmap : Bool
  pub giant_pages : Bool
  pub thp : Bool

abbrev pub default_huge_page_bytes : ℕ
default_huge_page_bytes = 256 * 1024

abbrev pub min_huge_page_bytes : ℕ
min_huge_page_bytes = 4096

-- `str::parse::<usize>` on the bytes of the variable: digits, with overflow checked.
pub parse_digits : ℕ → List ℕ → Option ℕ
parse_digits acc [] = some acc
parse_digits acc (b ∷ bs) =
    let rest = parse_digits (acc * 10 + (b - b'0')) bs in
    if leb b'0' b && leb b b'9' && ltb (acc * 10 + (b - b'0')) usize_mod then rest else none

-- An optional `+`, then at least one digit.
pub parse_unsigned : List ℕ → Option ℕ
unfolding parse_digits
parse_unsigned [] = none
parse_unsigned (b ∷ []) = parse_digits 0 (b ∷ [])
parse_unsigned (b ∷ c ∷ bs) =
    if b == b'+' then parse_digits 0 (c ∷ bs) else parse_digits 0 (b ∷ c ∷ bs)

pub data Built : Type 0 where
  skipped : Built  -- the feature is off: no constant is written
  not_a_number too_small not_a_power : Built  -- the panics
  wrote : (value : ℕ) → Built  -- `const HUGE_PAGE: usize = value;`

-- The checks on the value.
pub checked : ℕ → Built
unfolding is_power_of_two
checked value =
    if ltb value min_huge_page_bytes
    then too_small
    else if not (is_power_of_two value)
    then not_a_power
    else wrote value

abbrev checked_parse : Option ℕ → Built
checked_parse none = not_a_number
checked_parse (some value) = checked value

-- The value of `VEC64_HUGE_PAGE_BYTES`, if it is set.
abbrev value_of : Option (List ℕ) → Built
value_of none = checked default_huge_page_bytes
value_of (some raw) = checked_parse (parse_unsigned raw)

-- `main`, from `CARGO_FEATURE_MMAP` and `VEC64_HUGE_PAGE_BYTES`.
pub main : Bool → Option (List ℕ) → Built
unfolding checked parse_unsigned
main feature_mmap raw = if not feature_mmap then skipped else value_of raw

-- What a build that succeeds guarantees of its `HUGE_PAGE`.
pub record IsBuilt (c : Config) : Type 0 where
  pub bits : ℕ
  pub power : c.huge_page ≡ 2 ^ bits
  pub least : 12 ≤ bits
  pub most : bits ≤ 63
