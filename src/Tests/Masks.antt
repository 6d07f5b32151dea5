-- ===== src/Tests/Masks.antt =====
-- src/mask.rs at concrete inputs.
use yawc.Shared.{ℕ, ◌+◌, ◌*◌, ◌≤◌, ◌≡◌, true, false, List, [], ◌∷◌, length, arith}
use yawc.Frame.{MaskKey}
use yawc.Mask.{apply_mask, copy_mask, apply_mask_fallback, Platform}
use yawc.Mask.Dispatch.{apply_mask-apply_mask_fallback, apply_mask-copy_mask}

-- The key and the text of the example in RFC 6455, section 5.7.
abbrev pub rfc_key : MaskKey
rfc_key = record { k0 = 0x37; k1 = 0xfa; k2 = 0x21; k3 = 0x3d }

abbrev pub hello : List ℕ
hello = 0x48 ∷ 0x65 ∷ 0x6c ∷ 0x6c ∷ 0x6f ∷ []

-- A platform without AVX2 whose buffers start aligned and are shorter than a word.
abbrev pub plain : Platform
plain = record { avx2 = false; cut = λ buf. (0, 0) }

pub plain_aligns : (buf : List ℕ) → (plain.cut buf).0 + (plain.cut buf).1 * 8 ≤ length buf
plain_aligns buf = omega arith

apply_mask-apply_mask_fallback_example :
    apply_mask true 3 0 rfc_key hello ≡ apply_mask_fallback rfc_key hello
apply_mask-apply_mask_fallback_example =
    apply_mask-apply_mask_fallback true 3 0 rfc_key hello (omega arith) (omega arith) (omega arith)

apply_mask-copy_mask_example : apply_mask false 0 0 rfc_key (copy_mask true rfc_key hello) ≡ hello
apply_mask-copy_mask_example =
    apply_mask-copy_mask true false 0 0 rfc_key hello (omega arith) (omega arith) (omega arith)
