-- ===== src/Mask.antt =====
-- src/mask.rs: XOR masking of a payload. The loops are those of a little-endian x86-64 build; the
-- NEON routine (aarch64) is not among them. `masked` is the description that RFC 6455 gives.
pub mod Words
pub mod Laws
pub mod Keys
pub mod Words64
pub mod Vectors
pub mod Dispatch
pub mod Lengths
use yawc.Shared.{
  ℕ, zero, suc, ◌+◌, ◌-◌, ◌*◌, ◌/◌, ◌%◌, ◌^◌, ◌≤◌, Bool, ◌&&◌, List, [], ◌∷◌, ◌++◌, length, take,
  drop, get_or, bit_and, bit_or, bit_xor, ltb, leb, if◌then◌else◌,
}
use yawc.Frame.{MaskKey, key_bytes}

-- Byte `i` of the key, `mask[i & 3]`.
abbrev pub key_at : MaskKey → ℕ → ℕ
key_at key i = get_or (key_bytes key) (bit_and i 3) 0

-- `apply_mask_fallback`, from index `i` on.
pub fallback_from : ℕ → MaskKey → List ℕ → List ℕ
fallback_from i key [] = []
fallback_from i key (x ∷ xs) = bit_xor x (key_at key i) ∷ fallback_from (i + 1) key xs

pub apply_mask_fallback : MaskKey → List ℕ → List ℕ
unfolding fallback_from
apply_mask_fallback key buf = fallback_from 0 key buf

-- `u32::from_ne_bytes` and `to_ne_bytes`, lowest byte first.
abbrev pub from_ne_bytes32 : ℕ → ℕ → ℕ → ℕ → ℕ
from_ne_bytes32 a b c d = ((d * 2 ^ 8 + c) * 2 ^ 8 + b) * 2 ^ 8 + a

abbrev pub to_ne_bytes32 : ℕ → List ℕ
to_ne_bytes32 w =
    (w % 2 ^ 8) ∷ (w / 2 ^ 8 % 2 ^ 8) ∷ (w / 2 ^ 16 % 2 ^ 8) ∷ (w / 2 ^ 24 % 2 ^ 8) ∷ []

abbrev pub mask_word : MaskKey → ℕ
mask_word key = from_ne_bytes32 key.k0 key.k1 key.k2 key.k3

-- `for (byte, key) in bytes.iter_mut().zip(mask) { *byte ^= key }`.
pub xor_zip : List ℕ → List ℕ → List ℕ
xor_zip [] ks = []
xor_zip (x ∷ xs) [] = x ∷ xs
xor_zip (x ∷ xs) (k ∷ ks) = bit_xor x k ∷ xor_zip xs ks

-- `apply_mask_fast32`: chunks of four bytes as words, then the remainder.
pub apply_mask_fast32 : MaskKey → List ℕ → List ℕ
apply_mask_fast32 key (a ∷ b ∷ c ∷ d ∷ rest) =
    to_ne_bytes32 (bit_xor (from_ne_bytes32 a b c d) (mask_word key)) ++ apply_mask_fast32 key rest
apply_mask_fast32 key rest = xor_zip rest (key_bytes key)

-- `u64::rotate_right`.
pub rotate_right64 : ℕ → ℕ → ℕ
rotate_right64 w n = w / 2 ^ n + w % 2 ^ n * 2 ^ (64 - n)

abbrev pub from_ne_bytes64 : List ℕ → ℕ
from_ne_bytes64 [] = 0
from_ne_bytes64 (b ∷ bs) = from_ne_bytes64 bs * 2 ^ 8 + b

abbrev pub to_ne_bytes64 : ℕ → List ℕ
to_ne_bytes64 w = to_ne_bytes32 (w % 2 ^ 32) ++ to_ne_bytes32 (w / 2 ^ 32 % 2 ^ 32)

-- `for word in words.iter_mut() { *word ^= mask_u64 }` over `w` words.
pub xor_words : ℕ → ℕ → List ℕ → List ℕ
xor_words zero mask64 buf = []
xor_words (suc w) mask64 buf =
    to_ne_bytes64 (bit_xor (from_ne_bytes64 (take 8 buf)) mask64) ++ xor_words w mask64 (drop 8 buf)

-- `mask_u64` for a prefix of `p` bytes.
pub mask_u64 : MaskKey → ℕ → ℕ
unfolding rotate_right64
mask_u64 key p =
    let word = bit_or (mask_word key * 2 ^ 32) (mask_word key) in
    let head = bit_and p 3 in if ltb 0 head then rotate_right64 word (8 * head) else word

-- The key whose bytes are `(mask as u32).to_ne_bytes()`.
abbrev pub low_key : ℕ → MaskKey
low_key m = record {
  k0 = m % 2 ^ 32 % 2 ^ 8;
  k1 = m % 2 ^ 32 / 2 ^ 8 % 2 ^ 8;
  k2 = m % 2 ^ 32 / 2 ^ 16 % 2 ^ 8;
  k3 = m % 2 ^ 32 / 2 ^ 24 % 2 ^ 8;
}

-- `apply_mask_fast64`. `align_to_mut` cuts the buffer into `p` bytes, `w` words of eight bytes and
-- a suffix; where it cuts depends on the address, so `p` and `w` are arguments.
pub apply_mask_fast64 : ℕ → ℕ → MaskKey → List ℕ → List ℕ
unfolding apply_mask_fallback xor_words mask_u64
apply_mask_fast64 p w key buf =
    let mask64 = mask_u64 key p in
    apply_mask_fallback key (take p buf)
    ++ (xor_words w mask64 (drop p buf)
        ++ apply_mask_fallback (low_key mask64) (drop (w * 8) (drop p buf)))

-- `xor_avx2`: a vector is eight 32-bit lanes, each xored with the mask word.
abbrev pub xor_lane : MaskKey → List ℕ → List ℕ
xor_lane key block = apply_mask_fast32 key block

-- `n` vectors of 32 bytes.
pub xor_vectors : ℕ → MaskKey → List ℕ → List ℕ
xor_vectors zero key block = []
xor_vectors (suc n) key block = xor_lane key (take 32 block) ++ xor_vectors n key (drop 32 block)

-- What is written so far, the offset, and the source from there on.
pub record Progress : Type 0 where
  pub written : List ℕ
  pub offset : ℕ
  pub left : List ℕ

-- `while len - offset >= v * 32`, a round of `v` vectors. A round takes a byte at least, so the
-- length of the source is fuel enough.
pub avx2_loop : ℕ → ℕ → MaskKey → Progress → Progress
unfolding xor_vectors
avx2_loop zero v key s = s
avx2_loop (suc fuel) v key s =
    let next = avx2_loop fuel v key (record {
      written = s.written ++ xor_vectors v key s.left;
      offset = s.offset + v * 32;
      left = drop (v * 32) s.left;
    }) in
    if leb (v * 32) (length s.left) then next else s

-- The loop over 128 bytes, the loop over 32 bytes, and the bytes from `offset` to the end.
pub xor_avx2 : MaskKey → List ℕ → List ℕ
unfolding avx2_loop fallback_from
xor_avx2 key src =
    let start : Progress = record { written = []; offset = 0; left = src } in
    let big = avx2_loop (length src) 4 key start in
    let small = avx2_loop (length src) 1 key big in
    small.written ++ fallback_from small.offset key small.left

-- `apply_mask` on x86-64: `avx2` is the runtime check.
pub apply_mask : Bool → ℕ → ℕ → MaskKey → List ℕ → List ℕ
unfolding apply_mask_fast32 apply_mask_fast64 xor_avx2
apply_mask avx2 p w key buf =
    if leb (length buf) 128
    then apply_mask_fast32 key buf
    else if leb 256 (length buf) && avx2
    then xor_avx2 key buf
    else apply_mask_fast64 p w key buf

-- `copy_mask`: what is written to the output, which has the length of the source.
pub copy_mask : Bool → MaskKey → List ℕ → List ℕ
unfolding apply_mask_fast32 xor_avx2
copy_mask avx2 key src =
    if leb 256 (length src) && avx2 then xor_avx2 key src else apply_mask_fast32 key src

abbrev pub rotate_key : MaskKey → MaskKey
rotate_key key = record { k0 = key.k1; k1 = key.k2; k2 = key.k3; k3 = key.k0 }

-- RFC 6455, section 5.3: byte `i` is xored with key byte `i mod 4`.
pub masked : MaskKey → List ℕ → List ℕ
masked key [] = []
masked key (x ∷ xs) = bit_xor x key.k0 ∷ masked (rotate_key key) xs

-- What picks the routine at run time: the CPU check, and where `align_to_mut` cuts a buffer.
pub record Platform : Type 0 where
  pub avx2 : Bool
  pub cut : List ℕ → ℕ × ℕ

-- The documented behaviour of `align_to_mut`: the prefix and the words lie within the buffer.
abbrev pub Aligns : Platform → Type 0
Aligns at = (buf : List ℕ) → (at.cut buf).0 + (at.cut buf).1 * 8 ≤ length buf

-- A call of `apply_mask` on a buffer.
pub mask_buffer : Platform → MaskKey → List ℕ → List ℕ
unfolding apply_mask
mask_buffer at key buf = apply_mask at.avx2 (at.cut buf).0 (at.cut buf).1 key buf
