-- ===== src/Mask/Laws.antt =====
-- The byte loops of src/mask.rs mask as RFC 6455 describes, and masking twice gives the bytes back.
use yawc.Shared.{
  ℕ, suc, ◌+◌, ◌%◌, ◌≡◌, refl, ap, ap₂, sym, ◌∙◌, List, [], ◌∷◌, ◌++◌, length, All, get_or, bit_xor,
  arith,
}
use yawc.Shared.Bits.{IsByte, bit_xor-lt, bit_xor_twice, bit_and_mask3}
use yawc.Frame.{MaskKey, key_bytes}
use yawc.Mask.{key_at, fallback_from, xor_zip, apply_mask_fast32, masked, rotate_key}
use yawc.Mask.Words.{IsKey, xor_chunk}

-- The key as seen from index `i`.
abbrev pub shift_key : MaskKey → ℕ → MaskKey
shift_key key i = record {
  k0 = key_at key i;
  k1 = key_at key (i + 1);
  k2 = key_at key (i + 2);
  k3 = key_at key (i + 3);
}

pub key_at-mod : (key : MaskKey) (i j : ℕ) → i % 4 ≡ j % 4 → key_at key i ≡ key_at key j
key_at-mod key i j h =
    ap (λ n. get_or (key_bytes key) n 0) (bit_and_mask3 i ∙ h ∙ sym (bit_and_mask3 j))

rotate_key-shift_key :
    (key : MaskKey) (i : ℕ) → shift_key key (i + 1) ≡ rotate_key (shift_key key i)
rotate_key-shift_key key i = λ t. record {
  k0 = key_at key (i + 1);
  k1 = key_at-mod key (i + 1 + 1) (i + 2) (omega arith) t;
  k2 = key_at-mod key (i + 1 + 2) (i + 3) (omega arith) t;
  k3 = key_at-mod key (i + 1 + 3) i (omega arith) t;
}

pub fallback_from-masked :
    (i : ℕ) (key : MaskKey) (buf : List ℕ) → fallback_from i key buf ≡ masked (shift_key key i) buf
unfolding fallback_from masked
fallback_from-masked i key [] = refl
fallback_from-masked i key (x ∷ xs) =
    ap (λ l. bit_xor x (key_at key i) ∷ l)
      (fallback_from-masked (i + 1) key xs ∙ ap (λ k. masked k xs) (rotate_key-shift_key key i))

pub masked-IsByte :
    (key : MaskKey) (buf : List ℕ) → IsKey key → All IsByte buf → All IsByte (masked key buf)
unfolding masked
masked-IsByte key [] hk h = tt
masked-IsByte key (x ∷ xs) hk h =
    (bit_xor-lt 8 x key.k0 h.0 hk.0, masked-IsByte (rotate_key key) xs (hk.1, hk.2, hk.3, hk.0) h.1)

pub length-masked : (key : MaskKey) (buf : List ℕ) → length (masked key buf) ≡ length buf
unfolding masked
length-masked key [] = refl
length-masked key (x ∷ xs) = ap suc (length-masked (rotate_key key) xs)

pub masked_twice :
    (key : MaskKey) (buf : List ℕ) → IsKey key → All IsByte buf → masked key (masked key buf) ≡ buf
unfolding masked
masked_twice key [] hk h = refl
masked_twice key (x ∷ xs) hk h =
    ap₂ ◌∷◌ (bit_xor_twice 8 x key.k0 h.0 hk.0)
      (masked_twice (rotate_key key) xs (hk.1, hk.2, hk.3, hk.0) h.1)

-- `apply_mask_fast32`, four bytes at a time, masks like the byte loop.
pub apply_mask_fast32-masked :
    (key : MaskKey) (buf : List ℕ)
    → IsKey key
    → All IsByte buf
    → apply_mask_fast32 key buf ≡ masked key buf
unfolding apply_mask_fast32 masked xor_zip
apply_mask_fast32-masked key (a ∷ b ∷ c ∷ d ∷ rest) hk (ha, (hb, (hc, (hd, h)))) =
    ap₂ ◌++◌ (xor_chunk a b c d key ha hb hc hd hk) (apply_mask_fast32-masked key rest hk h)
apply_mask_fast32-masked key _ hk h = refl
