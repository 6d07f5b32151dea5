-- ===== src/Mask/Dispatch.antt =====
-- Whichever routine src/mask.rs picks, the result is the same.
use yawc.Shared.{ℕ, ◌+◌, ◌*◌, ◌≤◌, ◌≡◌, ◌∙◌, List, length, All, arith, Bool, ap, sym}
use yawc.Shared.Bits.{IsByte}
use yawc.Frame.{MaskKey}
use yawc.Mask.{apply_mask, apply_mask_fallback, copy_mask, masked, mask_buffer, Platform, Aligns}
use yawc.Mask.Words.{IsKey}
use yawc.Mask.Laws.{
  fallback_from-masked, apply_mask_fast32-masked, masked_twice, length-masked, masked-IsByte,
}
use yawc.Mask.Words64.{apply_mask_fast64-masked}
use yawc.Mask.Vectors.{xor_avx2-masked}

module _ (avx2 : Bool) (p w : ℕ) (key : MaskKey) (buf : List ℕ) (hk : IsKey key)
    (hb : All IsByte buf) (fits : p + w * 8 ≤ length buf) where
  pub apply_mask-masked : apply_mask avx2 p w key buf ≡ masked key buf
  unfolding apply_mask
  apply_mask-masked = ground (
    arith,
    apply_mask_fast32-masked key buf hk hb,
    xor_avx2-masked key buf hk hb,
    apply_mask_fast64-masked p w key buf hk hb fits,
  )

  -- For a byte string and a byte key, and wherever `align_to_mut` cuts the string, `apply_mask`
  -- gives the bytes of `apply_mask_fallback`, with and without AVX2.
  pub apply_mask-apply_mask_fallback : apply_mask avx2 p w key buf ≡ apply_mask_fallback key buf
  unfolding apply_mask_fallback
  apply_mask-apply_mask_fallback = apply_mask-masked ∙ sym (fallback_from-masked 0 key buf)

pub copy_mask-masked :
    (avx2 : Bool) (key : MaskKey) (src : List ℕ)
    → IsKey key
    → All IsByte src
    → copy_mask avx2 key src ≡ masked key src
unfolding copy_mask
copy_mask-masked avx2 key src hk hb =
    ground (arith, apply_mask_fast32-masked key src hk hb, xor_avx2-masked key src hk hb)

-- `apply_mask` at the receiver undoes `copy_mask` at the sender with the same key, on every byte
-- string and whichever routines the two sides pick.
pub apply_mask-copy_mask :
    (avx2 avx2' : Bool) (p w : ℕ) (key : MaskKey) (src : List ℕ)
    → IsKey key
    → All IsByte src
    → p + w * 8 ≤ length src
    → apply_mask avx2' p w key (copy_mask avx2 key src) ≡ src
apply_mask-copy_mask avx2 avx2' p w key src hk hb fits =
    ap (apply_mask avx2' p w key) (copy_mask-masked avx2 key src hk hb)
    ∙ apply_mask-masked avx2' p w key (masked key src) hk (masked-IsByte key src hk hb)
        (omega (arith, length-masked key src))
    ∙ masked_twice key src hk hb

pub length-copy_mask :
    (avx2 : Bool) (key : MaskKey) (src : List ℕ)
    → IsKey key
    → All IsByte src
    → length (copy_mask avx2 key src) ≡ length src
length-copy_mask avx2 key src hk hb =
    ap length (copy_mask-masked avx2 key src hk hb) ∙ length-masked key src

-- The same at a call that the decoder makes.
pub mask_buffer-copy_mask :
    (at : Platform) (avx2 : Bool) (key : MaskKey) (src : List ℕ)
    → Aligns at
    → IsKey key
    → All IsByte src
    → mask_buffer at key (copy_mask avx2 key src) ≡ src
unfolding mask_buffer
mask_buffer-copy_mask at avx2 key src aligned hk hb =
    let sent = copy_mask avx2 key src in
    apply_mask-copy_mask avx2 at.avx2 (at.cut sent).0 (at.cut sent).1 key src hk hb
      (omega (arith, aligned sent, length-copy_mask avx2 key src hk hb))
