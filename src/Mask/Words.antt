-- ===== src/Mask/Words.antt =====
-- Words of src/mask.rs byte by byte: an exclusive or of two words is that of their bytes.
use yawc.Shared.{ℕ, ◌+◌, ◌*◌, ◌^◌, ◌≡◌, refl, [], ◌∷◌, bit_xor, arith}
use yawc.Shared.Bits.{IsByte, bit_xor_parts, bit_xor-lt}
use yawc.Frame.{MaskKey}
use yawc.Mask.{from_ne_bytes32, to_ne_bytes32, mask_word}

abbrev pub IsKey : MaskKey → Type 0
IsKey key = IsByte key.k0 × IsByte key.k1 × IsByte key.k2 × IsByte key.k3

-- The bytes of a word come back.
pub to_ne_bytes32-from_ne_bytes32 :
    (a b c d : ℕ)
    → IsByte a
    → IsByte b
    → IsByte c
    → IsByte d
    → to_ne_bytes32 (from_ne_bytes32 a b c d) ≡ a ∷ b ∷ c ∷ d ∷ []
to_ne_bytes32-from_ne_bytes32 a b c d ha hb hc hd = ground arith

pub xor-from_ne_bytes32 :
    (a b c d : ℕ) (key : MaskKey)
    → IsByte a
    → IsByte b
    → IsByte c
    → IsByte d
    → IsKey key
    → bit_xor (from_ne_bytes32 a b c d) (mask_word key)
      ≡ from_ne_bytes32 (bit_xor a key.k0) (bit_xor b key.k1) (bit_xor c key.k2) (bit_xor d key.k3)
xor-from_ne_bytes32 a b c d key ha hb hc hd hk =
    rw
      (
        bit_xor_parts 8 ((d * 2 ^ 8 + c) * 2 ^ 8 + b) ((key.k3 * 2 ^ 8 + key.k2) * 2 ^ 8 + key.k1) a
            key.k0 ha hk.0,
        bit_xor_parts 8 (d * 2 ^ 8 + c) (key.k3 * 2 ^ 8 + key.k2) b key.k1 hb hk.1,
        bit_xor_parts 8 d key.k3 c key.k2 hc hk.2,
      )
      refl

-- One chunk of `apply_mask_fast32`.
pub xor_chunk :
    (a b c d : ℕ) (key : MaskKey)
    → IsByte a
    → IsByte b
    → IsByte c
    → IsByte d
    → IsKey key
    → to_ne_bytes32 (bit_xor (from_ne_bytes32 a b c d) (mask_word key))
      ≡ bit_xor a key.k0 ∷ bit_xor b key.k1 ∷ bit_xor c key.k2 ∷ bit_xor d key.k3 ∷ []
xor_chunk a b c d key ha hb hc hd hk = rw (xor-from_ne_bytes32 a b c d key ha hb hc hd hk) (
    to_ne_bytes32-from_ne_bytes32 _ _ _ _ (bit_xor-lt 8 a key.k0 ha hk.0)
      (bit_xor-lt 8 b key.k1 hb hk.1) (bit_xor-lt 8 c key.k2 hc hk.2)
      (bit_xor-lt 8 d key.k3 hd hk.3))
