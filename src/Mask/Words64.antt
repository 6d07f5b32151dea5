-- ===== src/Mask/Words64.antt =====
-- `apply_mask_fast64` of src/mask.rs masks like the byte loop, wherever `align_to_mut` cuts.
use yawc.Shared.{
  ℕ, zero, suc, ◌+◌, ◌*◌, ◌/◌, ◌%◌, ◌^◌, ◌≤◌, ◌<◌, ◌≡◌, refl, ap, ap₂, sym, ◌∙◌, List, [], ◌∷◌,
  ◌++◌, length, take, drop, All, bit_xor, bit_and, bit_or, arith, take-append-drop, All-take,
  All-drop, length-take, length-drop,
}
use yawc.Shared.Bits.{IsByte, bit_xor-lt, bit_and_mask3, bit_or_parts, bit_xor_parts}
use yawc.Frame.{MaskKey}
use yawc.Mask.{
  key_at, apply_mask_fast64, masked, mask_u64, mask_word, xor_words, from_ne_bytes32,
  from_ne_bytes64, to_ne_bytes32, to_ne_bytes64,
}
use yawc.Mask.Words.{IsKey, xor_chunk}
use yawc.Mask.Laws.{shift_key, fallback_from-masked}
use yawc.Mask.Keys.{
  shift_key-mod, masked-append, masked-append_whole, word64, rotate_word, rotate_word2,
  rotate_word3, low_key-word64,
}

word64_or :
    (key : MaskKey) → IsKey key → bit_or (mask_word key * 2 ^ 32) (mask_word key) ≡ word64 key
word64_or key hk = bit_or_parts 32 (mask_word key) (mask_word key) (omega arith)

turned :
    (key : MaskKey)
    → IsKey key
    → (p r : ℕ) → bit_and p 3 ≡ r
    → r < 4
    → mask_u64 key p ≡ word64 (shift_key key r)
unfolding mask_u64
turned key hk p zero e h = rw (e, word64_or key hk)
turned key hk p (suc zero) e h = rw (e, word64_or key hk) (rotate_word key hk)
turned key hk p (suc (suc zero)) e h = rw (e, word64_or key hk) (rotate_word2 key hk)
turned key hk p (suc (suc (suc zero))) e h = rw (e, word64_or key hk) (rotate_word3 key hk)
turned key hk p (suc (suc (suc (suc r)))) e h = absurd (omega arith)

-- The 64-bit mask behind a prefix of `p` bytes is the key as seen from index `p`.
pub mask_u64_lem : (key : MaskKey) (p : ℕ) → IsKey key → mask_u64 key p ≡ word64 (shift_key key p)
mask_u64_lem key p hk =
    turned key hk p (p % 4) (bit_and_mask3 p) (omega arith)
    ∙ ap word64 (shift_key-mod key (p % 4) p (omega arith))

key_at-IsByte :
    (key : MaskKey) (i r : ℕ) → IsKey key → bit_and i 3 ≡ r → r < 4 → IsByte (key_at key i)
key_at-IsByte key i zero hk e h = rw e hk.0
key_at-IsByte key i (suc zero) hk e h = rw e hk.1
key_at-IsByte key i (suc (suc zero)) hk e h = rw e hk.2
key_at-IsByte key i (suc (suc (suc zero))) hk e h = rw e hk.3
key_at-IsByte key i (suc (suc (suc (suc r)))) hk e h = absurd (omega arith)

pub shift_key-IsKey : (key : MaskKey) (i : ℕ) → IsKey key → IsKey (shift_key key i)
shift_key-IsKey key i hk = (at i, at (i + 1), at (i + 2), at (i + 3))
  where
    at : (j : ℕ) → IsByte (key_at key j)
    at j = key_at-IsByte key j (j % 4) hk (bit_and_mask3 j) (omega arith)

-- One word of the middle part: two chunks of four bytes.
xor_word64 :
    (a b c d : ℕ) (key : MaskKey) (e f g h : ℕ)
    → IsKey key
    → All IsByte (a ∷ b ∷ c ∷ d ∷ e ∷ f ∷ g ∷ h ∷ [])
    → to_ne_bytes64 (bit_xor (from_ne_bytes64 (a ∷ b ∷ c ∷ d ∷ e ∷ f ∷ g ∷ h ∷ [])) (word64 key))
      ≡ masked key (a ∷ b ∷ c ∷ d ∷ e ∷ f ∷ g ∷ h ∷ [])
unfolding masked
xor_word64 a b c d key e f g h hk (ha, (hb, (hc, (hd, (he, (hf, (hg, (hh, _)))))))) =
    rw (split, bit_xor_parts 32 hi (mask_word key) lo (mask_word key) (omega arith) (omega arith))
      (ap₂ (λ (x y : ℕ). to_ne_bytes32 x ++ to_ne_bytes32 y) low high
        ∙ ap₂ ◌++◌ (xor_chunk a b c d key ha hb hc hd hk) (xor_chunk e f g h key he hf hg hh hk))
  where
    lo : ℕ
    lo = from_ne_bytes32 a b c d

    hi : ℕ
    hi = from_ne_bytes32 e f g h

    split : from_ne_bytes64 (a ∷ b ∷ c ∷ d ∷ e ∷ f ∷ g ∷ h ∷ []) ≡ hi * 2 ^ 32 + lo
    split = omega arith

    lo_lt : bit_xor lo (mask_word key) < 2 ^ 32
    lo_lt = bit_xor-lt 32 lo (mask_word key) (omega arith) (omega arith)

    hi_lt : bit_xor hi (mask_word key) < 2 ^ 32
    hi_lt = bit_xor-lt 32 hi (mask_word key) (omega arith) (omega arith)

    both : ℕ
    both = bit_xor hi (mask_word key) * 2 ^ 32 + bit_xor lo (mask_word key)

    low : both % 2 ^ 32 ≡ bit_xor lo (mask_word key)
    low = omega (arith, lo_lt)

    high : both / 2 ^ 32 % 2 ^ 32 ≡ bit_xor hi (mask_word key)
    high = omega (arith, lo_lt, hi_lt)

xor_words-masked :
    (w : ℕ) (key : MaskKey) (buf : List ℕ)
    → IsKey key
    → All IsByte buf
    → w * 8 ≤ length buf
    → xor_words w (word64 key) buf ≡ masked key (take (w * 8) buf)
unfolding xor_words masked
xor_words-masked zero key buf hk hb h = refl
xor_words-masked (suc w) key (a ∷ b ∷ c ∷ d ∷ e ∷ f ∷ g ∷ i ∷ rest) hk hb h = rw round (
    ap₂ ◌++◌
      (xor_word64 a b c d key e f g i hk
        (All-take IsByte 8 (a ∷ b ∷ c ∷ d ∷ e ∷ f ∷ g ∷ i ∷ rest) hb))
      (xor_words-masked w key rest hk (All-drop IsByte 8 (a ∷ b ∷ c ∷ d ∷ e ∷ f ∷ g ∷ i ∷ rest) hb)
        (omega arith)))
  where
    round : suc w * 8 ≡ suc (suc (suc (suc (suc (suc (suc (suc (w * 8))))))))
    round = omega arith
xor_words-masked (suc w) key _ hk hb h = absurd (omega arith)

-- The prefix, the words and the suffix together mask every byte string as the byte loop does,
-- provided that the cut lies within the string.
pub apply_mask_fast64-masked :
    (p w : ℕ) (key : MaskKey) (buf : List ℕ)
    → IsKey key
    → All IsByte buf
    → p + w * 8 ≤ length buf
    → apply_mask_fast64 p w key buf ≡ masked key buf
unfolding apply_mask_fast64
apply_mask_fast64-masked p w key buf hk hb h =
    rw (mask_u64_lem key p hk, low_key-word64 key' hk')
      (ap₂ ◌++◌ (fallback_from-masked 0 key front) (
          ap₂ ◌++◌ (xor_words-masked w key' rest hk' (All-drop IsByte p buf hb) fits)
            (fallback_from-masked 0 key' (drop (w * 8) rest))
          ∙ sym (
              masked-append_whole key' (take (w * 8) rest) (drop (w * 8) rest)
                (omega (arith, length-take (w * 8) rest, fits)))
          ∙ ap (masked key') (take-append-drop (w * 8) rest)
          ∙ ap (λ k. masked k rest)
              (shift_key-mod key p (length front) (omega (arith, front_length))))
        ∙ sym (masked-append key front rest)
        ∙ ap (masked key) (take-append-drop p buf))
  where
    front : List ℕ
    front = take p buf

    rest : List ℕ
    rest = drop p buf

    key' : MaskKey
    key' = shift_key key p

    hk' : IsKey key'
    hk' = shift_key-IsKey key p hk

    fits : w * 8 ≤ length rest
    fits = omega (arith, length-drop p buf)

    front_length : length front ≡ p
    front_length = omega (arith, length-take p buf)
