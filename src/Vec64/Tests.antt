-- ===== src/Vec64/Tests.antt =====
-- Ten bits in two bytes.
use vec.Base.{ℕ, ◌≡◌, refl, List, [], ◌∷◌, some, Bool, true, false}
use vec.Vec64.{vec64_bool_fill, vec64_bool, set_bits, set_bit}
use vec.Vec64.Packed.{IsPacked, vec64_bool-IsPacked}

abbrev ten : List Bool
ten = true ∷ false ∷ true ∷ true ∷ false ∷ false ∷ false ∷ true ∷ false ∷ true ∷ []

ten_packed : vec64_bool ten ≡ some (141 ∷ 2 ∷ [])
unfolding vec64_bool set_bits set_bit
ten_packed = refl

vec64_bool-IsPacked_example : (v : List ℕ) × (vec64_bool ten ≡ some v) × IsPacked ten v
vec64_bool-IsPacked_example = vec64_bool-IsPacked ten

-- Ten ones.
filled_run : vec64_bool_fill true 10 ≡ some (255 ∷ 3 ∷ [])
unfolding vec64_bool_fill
filled_run = refl
