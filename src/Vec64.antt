-- ===== src/Vec64.antt =====
-- src/vec64.rs: the macro `vec64!`, in its forms for Booleans, which packs one to a bit.
pub mod Packed
pub mod Raw
pub mod Held
pub mod Samples
pub mod Splice
pub mod Append
pub mod New
pub mod Chunks
pub mod Split
pub mod Fill
pub mod Display
pub mod Items
pub mod Growth
pub mod Convert
mod Tests
use vec.Base.{
  ℕ, ◌+◌, ◌-◌, ◌/◌, ◌%◌, ◌^◌, List, [], ◌∷◌, Option, none, some, Bool, not, ◌&&◌, ◌==◌, bit_or,
  bit_and, length, get_elem?, set, replicate, if◌then◌else◌,
}
use vec.Base.Usize.{usize_add, usize_sub}

-- The bytes that hold `len` bits.
abbrev pub byte_len : ℕ → ℕ
byte_len len = (len + 7) / 8

-- `v.0[byte_idx] |= 1u8 << bit_idx`; `none` is the panic of an index out of range.
abbrev pub or_byte : List ℕ → ℕ → ℕ → Option ℕ → Option (List ℕ)
or_byte v byte_idx bit_idx none = none
or_byte v byte_idx bit_idx (some x) = some (set v byte_idx (bit_or x (2 ^ bit_idx)))

pub set_bit : List ℕ → ℕ → Option (List ℕ)
set_bit v idx = or_byte v (idx / 8) (idx % 8) (get_elem? v (idx / 8))

-- The repeated statement of the macro, for the elements from `idx` on.
abbrev pub bind {ℓ} : {A : Type ℓ} → Option A → (A → Option A) → Option A
bind none f = none
bind (some a) f = f a

pub set_bits : List Bool → ℕ → List ℕ → Option (List ℕ)
unfolding set_bit
set_bits [] idx v = some v
set_bits (x ∷ xs) idx v = bind (if x then set_bit v idx else some v) (set_bits xs (idx + 1))

-- `vec64![bool x, ...]`
pub vec64_bool : List Bool → Option (List ℕ)
unfolding set_bits
vec64_bool xs = set_bits xs 0 (replicate (byte_len (length xs)) 0)

-- `v.0[last] &= mask`
abbrev pub and_byte : List ℕ → ℕ → ℕ → Option ℕ → Option (List ℕ)
and_byte v last mask none = none
and_byte v last mask (some x) = some (set v last (bit_and x mask))

-- `vec64![bool elem; n]`
pub vec64_bool_fill : Bool → ℕ → Option (List ℕ)
vec64_bool_fill elem len =
    let bytes = usize_add len 7 / 8 in
    let fill = if elem then 0xff else 0 in
    let v = replicate bytes fill in
    let last = usize_sub bytes 1 in
    if elem && not (bit_and len 7 == 0)
    then and_byte v last (2 ^ bit_and len 7 - 1) (get_elem? v last)
    else some v
