-- ===== src/Mask/Keys.antt =====
-- The masking key of src/mask.rs as the routines turn it: seen from an index, and doubled to 64 bits.
use yawc.Shared.{
  ℕ, zero, suc, ◌+◌, ◌*◌, ◌%◌, ◌^◌, ◌<◌, ◌≡◌, refl, ap, ◌∙◌, List, [], ◌∷◌, ◌++◌, length, bit_xor,
  arith,
}
use yawc.Frame.{MaskKey}
use yawc.Mask.{key_at, masked, rotate_key, rotate_right64, mask_word, low_key}
use yawc.Mask.Words.{IsKey}
use yawc.Mask.Laws.{shift_key, key_at-mod}

pub shift_key-mod : (key : MaskKey) (i j : ℕ) → i % 4 ≡ j % 4 → shift_key key i ≡ shift_key key j
shift_key-mod key i j h = λ t. record {
  k0 = key_at-mod key i j h t;
  k1 = key_at-mod key (i + 1) (j + 1) (omega arith) t;
  k2 = key_at-mod key (i + 2) (j + 2) (omega arith) t;
  k3 = key_at-mod key (i + 3) (j + 3) (omega arith) t;
}

key_at-rotate_small :
    (key : MaskKey) (r : ℕ) → r < 4 → key_at (rotate_key key) r ≡ key_at key (r + 1)
key_at-rotate_small key zero h = refl
key_at-rotate_small key (suc zero) h = refl
key_at-rotate_small key (suc (suc zero)) h = refl
key_at-rotate_small key (suc (suc (suc zero))) h = refl
key_at-rotate_small key (suc (suc (suc (suc r)))) h = absurd (omega arith)

key_at-rotate_key : (key : MaskKey) (i : ℕ) → key_at (rotate_key key) i ≡ key_at key (i + 1)
key_at-rotate_key key i =
    key_at-mod (rotate_key key) i (i % 4) (omega arith)
    ∙ key_at-rotate_small key (i % 4) (omega arith)
    ∙ key_at-mod key (i % 4 + 1) (i + 1) (omega arith)

shift_key-rotate_key :
    (key : MaskKey) (i : ℕ) → shift_key (rotate_key key) i ≡ shift_key key (suc i)
shift_key-rotate_key key i = λ t. record {
  k0 = (key_at-rotate_key key i ∙ key_at-mod key (i + 1) (suc i) (omega arith)) t;
  k1 = (key_at-rotate_key key (i + 1) ∙ key_at-mod key (i + 1 + 1) (suc i + 1) (omega arith)) t;
  k2 = (key_at-rotate_key key (i + 2) ∙ key_at-mod key (i + 2 + 1) (suc i + 2) (omega arith)) t;
  k3 = (key_at-rotate_key key (i + 3) ∙ key_at-mod key (i + 3 + 1) (suc i + 3) (omega arith)) t;
}

-- Masking in two parts: the second part starts where the first left the key.
pub masked-append :
    (key : MaskKey) (xs ys : List ℕ)
    → masked key (xs ++ ys) ≡ masked key xs ++ masked (shift_key key (length xs)) ys
unfolding masked
masked-append key [] ys = refl
masked-append key (x ∷ xs) ys =
    ap (λ l. bit_xor x key.k0 ∷ l)
      (masked-append (rotate_key key) xs ys
        ∙ ap (λ k. masked (rotate_key key) xs ++ masked k ys)
            (shift_key-rotate_key key (length xs)))

-- A first part of whole key lengths leaves the key as it was.
pub masked-append_whole :
    (key : MaskKey) (xs ys : List ℕ)
    → length xs % 4 ≡ 0
    → masked key (xs ++ ys) ≡ masked key xs ++ masked key ys
masked-append_whole key xs ys h =
    masked-append key xs ys
    ∙ ap (λ k. masked key xs ++ masked k ys) (shift_key-mod key (length xs) 0 h)

-- The mask word twice.
abbrev pub word64 : MaskKey → ℕ
word64 key = mask_word key * 2 ^ 32 + mask_word key

module _ (key : MaskKey) (hk : IsKey key) where
  pub rotate_word : rotate_right64 (word64 key) 8 ≡ word64 (shift_key key 1)
  unfolding rotate_right64
  rotate_word = omega arith

  pub rotate_word2 : rotate_right64 (word64 key) 16 ≡ word64 (shift_key key 2)
  unfolding rotate_right64
  rotate_word2 = omega arith

  pub rotate_word3 : rotate_right64 (word64 key) 24 ≡ word64 (shift_key key 3)
  unfolding rotate_right64
  rotate_word3 = omega arith

  pub low_key-word64 : low_key (word64 key) ≡ key
  low_key-word64 = λ t. record { k0 = k0_eq t; k1 = k1_eq t; k2 = k2_eq t; k3 = k3_eq t }
    where
      k0_eq : (low_key (word64 key)).k0 ≡ key.k0
      k0_eq = omega arith

      k1_eq : (low_key (word64 key)).k1 ≡ key.k1
      k1_eq = omega arith

      k2_eq : (low_key (word64 key)).k2 ≡ key.k2
      k2_eq = omega arith

      k3_eq : (low_key (word64 key)).k3 ≡ key.k3
      k3_eq = omega arith
