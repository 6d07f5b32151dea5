-- ===== src/Mask/Lengths.antt =====
-- The routines of src/mask.rs write as many bytes as they read, whatever the bytes are.
use yawc.Shared.{
  ℕ, zero, suc, ◌+◌, ◌*◌, ◌≤◌, ◌≡◌, refl, ap, List, [], ◌∷◌, ◌++◌, length, take, drop, length-take,
  length-drop, length-append, arith,
}
use yawc.Frame.{MaskKey}
use yawc.Mask.{
  fallback_from, xor_zip, apply_mask_fast32, xor_words, mask_u64, apply_mask_fast64, xor_vectors,
  avx2_loop, Progress, xor_avx2, mask_buffer, Platform, Aligns, low_key,
}

length-fallback_from :
    (i : ℕ) (key : MaskKey) (buf : List ℕ) → length (fallback_from i key buf) ≡ length buf
unfolding fallback_from
length-fallback_from i key [] = refl
length-fallback_from i key (x ∷ xs) = ap suc (length-fallback_from (i + 1) key xs)

length-xor_zip : (xs ks : List ℕ) → length (xor_zip xs ks) ≡ length xs
unfolding xor_zip
length-xor_zip [] ks = refl
length-xor_zip (x ∷ xs) [] = refl
length-xor_zip (x ∷ xs) (k ∷ ks) = ap suc (length-xor_zip xs ks)

length-apply_mask_fast32 :
    (key : MaskKey) (buf : List ℕ) → length (apply_mask_fast32 key buf) ≡ length buf
unfolding apply_mask_fast32
length-apply_mask_fast32 key (a ∷ b ∷ c ∷ d ∷ rest) =
    ap (λ (n : ℕ). suc (suc (suc (suc n)))) (length-apply_mask_fast32 key rest)
length-apply_mask_fast32 key (a ∷ b ∷ c ∷ []) = length-xor_zip (a ∷ b ∷ c ∷ []) _
length-apply_mask_fast32 key (a ∷ b ∷ []) = length-xor_zip (a ∷ b ∷ []) _
length-apply_mask_fast32 key (a ∷ []) = length-xor_zip (a ∷ []) _
length-apply_mask_fast32 key [] = length-xor_zip [] _

length-xor_words : (w mask64 : ℕ) (buf : List ℕ) → length (xor_words w mask64 buf) ≡ w * 8
unfolding xor_words
length-xor_words zero mask64 buf = omega arith
length-xor_words (suc w) mask64 buf = omega (arith, length-xor_words w mask64 (drop 8 buf))

length-apply_mask_fast64 :
    (p w : ℕ) (key : MaskKey) (buf : List ℕ)
    → p + w * 8 ≤ length buf
    → length (apply_mask_fast64 p w key buf) ≡ length buf
unfolding apply_mask_fast64
length-apply_mask_fast64 p w key buf h = omega (
  arith,
  length-append (fallback_from 0 key (take p buf)) (words ++ suffix),
  length-append words suffix,
  length-fallback_from 0 key (take p buf),
  length-fallback_from 0 (low_key (mask_u64 key p)) (drop (w * 8) (drop p buf)),
  length-xor_words w (mask_u64 key p) (drop p buf),
  length-take p buf,
  length-drop (w * 8) (drop p buf),
  length-drop p buf,
)
  where
    words : List ℕ
    words = xor_words w (mask_u64 key p) (drop p buf)

    suffix : List ℕ
    suffix = fallback_from 0 (low_key (mask_u64 key p)) (drop (w * 8) (drop p buf))

length-xor_vectors :
    (n : ℕ) (key : MaskKey) (buf : List ℕ)
    → n * 32 ≤ length buf
    → length (xor_vectors n key buf) ≡ n * 32
unfolding xor_vectors
length-xor_vectors zero key buf h = omega arith
length-xor_vectors (suc n) key buf h = omega (
  arith,
  length-append (apply_mask_fast32 key (take 32 buf)) (xor_vectors n key (drop 32 buf)),
  length-apply_mask_fast32 key (take 32 buf),
  length-take 32 buf,
  length-drop 32 buf,
  length-xor_vectors n key (drop 32 buf) (omega (arith, length-drop 32 buf)),
)

avx2_loop_size :
    (fuel v : ℕ) (key : MaskKey) (s : Progress)
    → length (avx2_loop fuel v key s).written + length (avx2_loop fuel v key s).left
      ≡ length s.written + length s.left
unfolding avx2_loop
avx2_loop_size zero v key s = refl
avx2_loop_size (suc fuel) v key s = ground (
  arith,
  avx2_loop_size fuel v key (record {
    written = s.written ++ xor_vectors v key s.left;
    offset = s.offset + v * 32;
    left = drop (v * 32) s.left;
  }),
  length-append s.written (xor_vectors v key s.left),
  length-xor_vectors v key s.left,
  length-drop (v * 32) s.left,
)

length-xor_avx2 : (key : MaskKey) (src : List ℕ) → length (xor_avx2 key src) ≡ length src
unfolding xor_avx2
length-xor_avx2 key src =
    let start : Progress = record { written = []; offset = 0; left = src } in
    let big = avx2_loop (length src) 4 key start in
    let small = avx2_loop (length src) 1 key big in
    omega (
      arith,
      avx2_loop_size (length src) 4 key start,
      avx2_loop_size (length src) 1 key big,
      length-append small.written (fallback_from small.offset key small.left),
      length-fallback_from small.offset key small.left,
    )

-- Unmasking in place keeps the length of the buffer.
pub length-mask_buffer :
    (at : Platform) (key : MaskKey) (buf : List ℕ)
    → Aligns at
    → length (mask_buffer at key buf) ≡ length buf
unfolding mask_buffer
length-mask_buffer at key buf aligned = ground (
  arith,
  length-apply_mask_fast32 key buf,
  length-xor_avx2 key buf,
  length-apply_mask_fast64 (at.cut buf).0 (at.cut buf).1 key buf (aligned buf),
)
