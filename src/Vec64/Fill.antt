-- ===== src/Vec64/Fill.antt =====
-- The bits of a packed vector, for the repetition form.
use vec.Base.{
  ℕ, zero, suc, ◌+◌, ◌-◌, ◌/◌, ◌%◌, ◌^◌, ◌≤◌, ◌<◌, ◌≡◌, ◌≢◌, refl, sym, ap, ◌∙◌, List, some, Bool,
  true, false, bit_and, get_elem?, set, replicate, arith, get_elem?-set_self, get_elem?-set_ne,
  length-set, length-replicate, get_elem?-replicate, get_elem?_ge, dec_lt, ℕ_discrete, ◌==◌, ==_iff,
}
use native.Mathlib.Nat.{pow-suc, one-le-pow}
use vec.Base.Bits.{bit_and_low_mask}
use vec.Base.Disjunction.{bit, bit-zero}
use vec.Base.Usize.{usize_add, usize_sub}
use vec.Vec64.{byte_len, vec64_bool_fill}
use vec.Vec64.Packed.{bit_of, value_at, IsPacked}

-- A mask of `m` ones.
ones_half : (m : ℕ) → (2 ^ suc m - 1) / 2 ≡ 2 ^ m - 1
ones_half m = omega (arith, pow-suc 2 m, one-le-pow m 2 (omega arith))

ones_below : (m j : ℕ) → j < m → bit j (2 ^ m - 1) ≡ 1
ones_below zero j h = elim h [ ]
ones_below (suc m) zero h = omega (arith, pow-suc 2 m, one-le-pow m 2 (omega arith))
ones_below (suc m) (suc j) h = ap (bit j) (ones_half m) ∙ ones_below m j (omega arith)

ones_above : (m j : ℕ) → m ≤ j → bit j (2 ^ m - 1) ≡ 0
ones_above zero j h = bit-zero j
ones_above (suc m) zero h = absurd (omega arith)
ones_above (suc m) (suc j) h = ap (bit j) (ones_half m) ∙ ones_above m j (omega arith)

-- A full byte under such a mask.
masked_byte : (m : ℕ) → m < 8 → bit_and 255 (2 ^ m - 1) ≡ 2 ^ m - 1
masked_byte zero h = refl
masked_byte (suc zero) h = refl
masked_byte (suc (suc zero)) h = refl
masked_byte (suc (suc (suc zero))) h = refl
masked_byte (suc (suc (suc (suc zero)))) h = refl
masked_byte (suc (suc (suc (suc (suc zero))))) h = refl
masked_byte (suc (suc (suc (suc (suc (suc zero)))))) h = refl
masked_byte (suc (suc (suc (suc (suc (suc (suc zero))))))) h = refl
masked_byte (suc (suc (suc (suc (suc (suc (suc (suc m)))))))) h = absurd (omega arith)

value_in :
    (b : Bool) (len k : ℕ) → k < len → value_at (get_elem? (replicate len b) k) ≡ value_at (some b)
value_in b len k h = rw (get_elem?-replicate {A = Bool} len b k h)

value_out : (b : Bool) (len k : ℕ) → len ≤ k → value_at (get_elem? (replicate len b) k) ≡ 0
value_out b len k h =
    rw (get_elem?_ge {A = Bool} (replicate len b) k (omega (arith, length-replicate len b)))

-- Bits of a run of equal bytes.
bits_in : (x n k : ℕ) → k / 8 < n → bit_of (replicate n x) k ≡ bit (k % 8) x
bits_in x n k h = rw (get_elem?-replicate {A = ℕ} n x (k / 8) h)

bits_out : (x n k : ℕ) → n ≤ k / 8 → bit_of (replicate n x) k ≡ 0
bits_out x n k h =
    rw (get_elem?_ge {A = ℕ} (replicate n x) (k / 8) (omega (arith, length-replicate n x)))

module _ (len : ℕ) (small : len + 7 < 2 ^ 64) where
  bytes_is : usize_add len 7 / 8 ≡ byte_len len
  bytes_is = omega (arith, small)

  low_is : bit_and len 7 ≡ len % 8
  low_is = bit_and_low_mask 3 len

  last_is : 0 < len → usize_sub (byte_len len) 1 ≡ byte_len len - 1
  last_is h = omega (arith, small)

  full_byte : (j : ℕ) → j < 8 → bit j 255 ≡ 1
  full_byte j h = ones_below 8 j h

  zeros-IsPacked : IsPacked (replicate len false) (replicate (byte_len len) 0)
  zeros-IsPacked = record {
    bytes =
        length-replicate {A = ℕ} (byte_len len) 0 ∙ ap byte_len (sym (length-replicate len false));
    bits = λ k. elim (dec_lt (k / 8) (byte_len len)) [
      | yes h ↦ bits_in 0 (byte_len len) k h ∙ bit-zero (k % 8) ∙ sym (zero_value k)
      | no h ↦ bits_out 0 (byte_len len) k (omega arith) ∙ sym (zero_value k)
    ];
  }
    where
      zero_value : (k : ℕ) → value_at (get_elem? (replicate len false) k) ≡ 0
      zero_value k = elim (dec_lt k len) [
        | yes h ↦ value_in false len k h
        | no h ↦ value_out false len k (omega arith)
      ]

  ones-IsPacked : len % 8 ≡ 0 → IsPacked (replicate len true) (replicate (byte_len len) 255)
  ones-IsPacked whole = record {
    bytes =
        length-replicate {A = ℕ} (byte_len len) 255 ∙ ap byte_len (sym (length-replicate len true));
    bits = λ k. elim (dec_lt k len) [
      | yes h ↦
          bits_in 255 (byte_len len) k (omega arith)
          ∙ full_byte (k % 8) (omega arith)
          ∙ sym (value_in true len k h)
      | no h ↦
          bits_out 255 (byte_len len) k (omega (arith, whole))
          ∙ sym (value_out true len k (omega arith))
    ];
  }

  -- The last byte is cut to the bits that are left.
  abbrev cut : List ℕ
  cut = set (replicate (byte_len len) 255) (byte_len len - 1) (bit_and 255 (2 ^ (len % 8) - 1))

  cut-last :
      0 < len → (k : ℕ) → k / 8 ≡ byte_len len - 1 → bit_of cut k ≡ bit (k % 8) (2 ^ (len % 8) - 1)
  cut-last pos k e =
      rw
        (
          e,
          get_elem?-set_self (replicate (byte_len len) 255) (byte_len len - 1)
              (bit_and 255 (2 ^ (len % 8) - 1))
              (omega (arith, length-replicate {A = ℕ} (byte_len len) 255)),
        )
        (ap (bit (k % 8)) (masked_byte (len % 8) (omega arith)))

  cut-other :
      (k : ℕ) → byte_len len - 1 ≢ k / 8 → bit_of cut k ≡ bit_of (replicate (byte_len len) 255) k
  cut-other k ne = rw (
      get_elem?-set_ne (replicate (byte_len len) 255) (byte_len len - 1) (k / 8)
        (bit_and 255 (2 ^ (len % 8) - 1)) ne)

  cut-IsPacked : 0 < len % 8 → IsPacked (replicate len true) cut
  cut-IsPacked part = record {
    bytes =
        length-set (replicate (byte_len len) 255) (byte_len len - 1) _
        ∙ length-replicate {A = ℕ} (byte_len len) 255
        ∙ ap byte_len (sym (length-replicate len true));
    bits = λ k. elim (ℕ_discrete (byte_len len - 1) (k / 8)) [
      | yes e ↦ elim (dec_lt k len) [
        | yes h ↦
            cut-last (omega arith) k (sym e)
            ∙ ones_below (len % 8) (k % 8) (omega (arith, e))
            ∙ sym (value_in true len k h)
        | no h ↦
            cut-last (omega (arith, part)) k (sym e)
            ∙ ones_above (len % 8) (k % 8) (omega (arith, e))
            ∙ sym (value_out true len k (omega arith))
      ]
      | no ne ↦ elim (dec_lt k len) [
        | yes h ↦
            cut-other k ne
            ∙ bits_in 255 (byte_len len) k (omega arith)
            ∙ full_byte (k % 8) (omega arith)
            ∙ sym (value_in true len k h)
        | no h ↦
            cut-other k ne
            ∙ bits_out 255 (byte_len len) k (omega (arith, part, ne))
            ∙ sym (value_out true len k (omega arith))
      ]
    ];
  }

  -- Where `len + 7` does not overflow, `vec64![bool elem; len]` never indexes out of range, and
  -- packs `len` copies of the element one to a bit, with zeros after the last.
  pub vec64_bool_fill-IsPacked :
      (elem : Bool)
      → (v : List ℕ) × (vec64_bool_fill elem len ≡ some v) × IsPacked (replicate len elem) v
  unfolding vec64_bool_fill
  vec64_bool_fill-IsPacked false = (_, rw bytes_is, zeros-IsPacked)
  vec64_bool_fill-IsPacked true = elim (dec_lt 0 (len % 8)) [
    | yes part ↦ (
      cut,
      rw (
        bytes_is,
        low_is,
        nonzero part,
        last_is (omega (arith, part)),
        get_elem?-replicate {A = ℕ} (byte_len len) 255 (byte_len len - 1) (omega (arith, part)),
      ),
      cut-IsPacked part,
    )
    | no none_left ↦ (
      _,
      rw (bytes_is, low_is, (==_iff (len % 8) 0).1 (omega arith)),
      ones-IsPacked (omega arith),
    )
  ]
    where
      nonzero : 0 < len % 8 → (len % 8 == 0) ≡ false
      nonzero h = ground arith
