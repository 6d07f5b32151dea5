-- ===== src/Codec/Headers.antt =====
-- The header that src/frame.rs writes, read by the tests of src/codec.rs.
use yawc.Shared.{
  ℕ, ◌+◌, ◌*◌, ◌/◌, ◌%◌, ◌^◌, ◌≤◌, ◌<◌, ◌≡◌, ◌↔◌, refl, ap, Bool, true, false, none, some, List, [],
  ◌∷◌, ◌++◌, length, arith, lt→ltb, le→ltb, not, bit_and, bit_or, ◌==◌,
}
use native.Mathlib.Decide.{dec_lt}
use yawc.Shared.Bits.{bit_and_0x7f, bit_and_0x80, bit_or_0x80, bit_or_zero}
use yawc.Error.{ok}
use yawc.Frame.{
  OpCode, Frame, bit, try_from, first_byte, length_bytes, be_bytes16, be_bytes64, to_u8, is_control,
  same_op, ping,
}
use yawc.Codec.{header_error, extra_of, read_length, get_u16, get_u64}

-- FIN, RSV1 and the opcode come back from the first byte, and its reserved bits are zero.
pub first_byte-bits :
    (f : Frame)
    → (not (bit_and (first_byte f) 0x80 == 0) ≡ f.fin)
      × (not (bit_and (first_byte f) 0x40 == 0) ≡ f.is_compressed)
      × ((bit_and (first_byte f) 0x30 == 0) ≡ true)
      × (try_from (bit_and (first_byte f) 0x0f) ≡ ok f.opcode)
unfolding first_byte to_u8 try_from
first_byte-bits f = ground arith

flag-lt : (masked : Bool) (n : ℕ) → n < 128 → bit_or n (bit masked 0x80) ≡ n + bit masked 128
flag-lt true n h = bit_or_0x80 n h
flag-lt false n h = rw (bit_or_zero n h) (omega arith)

-- The second byte carries the mask flag and a length code.
second_byte :
    (masked : Bool) (n : ℕ)
    → n < 128
    → (not (bit_and (bit_or n (bit masked 0x80)) 0x80 == 0) ≡ masked)
      × (bit_and (bit_or n (bit masked 0x80)) 0x7f ≡ n)
second_byte true n h =
    rw
      (flag-lt true n h, bit_and_0x80 (n + 128) (omega arith), bit_and_0x7f (n + 128) (omega arith))
      (ground arith, omega arith)
second_byte false n h =
    rw (flag-lt false n h, bit_and_0x80 (n + 0) (omega arith), bit_and_0x7f (n + 0) (omega arith))
      (ground arith, omega arith)

pub get_u16-be_bytes16 :
    (n : ℕ) (tail : List ℕ) → n < 2 ^ 16 → get_u16 (be_bytes16 n ++ tail) ≡ some (n, tail)
unfolding get_u16 be_bytes16
get_u16-be_bytes16 n tail h = let e : n / 256 % 256 * 256 + n % 256 ≡ n = omega arith in rw e

pub get_u64-be_bytes64 :
    (n : ℕ) (tail : List ℕ) → n < 2 ^ 64 → get_u64 (be_bytes64 n ++ tail) ≡ some (n, tail)
unfolding get_u64 be_bytes64
get_u64-be_bytes64 n tail h = ap (λ (m : ℕ). some (m, tail)) (omega arith)

-- The length of a payload comes back from the bytes behind the first one.
pub record ReadsBack (masked : Bool) (len : ℕ) : Type 0 where
  pub second : ℕ
  pub extended : List ℕ
  pub written : length_bytes masked len ≡ second ∷ extended
  pub flag : not (bit_and second 0x80 == 0) ≡ masked
  pub size : extra_of (bit_and second 0x7f) ≡ length extended
  pub reads :
      (tail : List ℕ)
      → read_length (extra_of (bit_and second 0x7f)) (bit_and second 0x7f) (extended ++ tail)
        ≡ some (len, tail)

extra_of-small : (n : ℕ) → n < 126 → extra_of n ≡ 0
unfolding extra_of
extra_of-small n h = ground arith

read_length-zero : (n : ℕ) (tail : List ℕ) → read_length 0 n tail ≡ some (n, tail)
unfolding read_length
read_length-zero n tail = refl

short-ReadsBack : (masked : Bool) (len : ℕ) → len < 126 → ReadsBack masked len
short-ReadsBack masked len h =
    let (flag, code) = second_byte masked len (omega arith) in
    record {
      second = bit_or len (bit masked 0x80);
      extended = [];
      written = unfold length_bytes in rw (lt→ltb len 126 h, length_bytes);
      flag = flag;
      size = rw code (extra_of-small len h);
      reads = λ tail. rw (code, extra_of-small len h) (read_length-zero len tail);
    }

medium-ReadsBack : (masked : Bool) (len : ℕ) → 126 ≤ len → len < 2 ^ 16 → ReadsBack masked len
unfolding extra_of read_length
medium-ReadsBack masked len lo hi =
    let (flag, code) = second_byte masked 126 (omega arith) in
    record {
      second = bit_or 126 (bit masked 0x80);
      extended = be_bytes16 len;
      written = unfold length_bytes in rw (le→ltb len 126 lo, lt→ltb len 65536 hi, length_bytes);
      flag = flag;
      size = rw code (unfold be_bytes16 in refl);
      reads = λ tail. rw code (get_u16-be_bytes16 len tail hi);
    }

long-ReadsBack : (masked : Bool) (len : ℕ) → 2 ^ 16 ≤ len → len < 2 ^ 64 → ReadsBack masked len
unfolding extra_of read_length
long-ReadsBack masked len lo hi =
    let (flag, code) = second_byte masked 127 (omega arith) in
    record {
      second = bit_or 127 (bit masked 0x80);
      extended = be_bytes64 len;
      written =
          unfold length_bytes in
          rw (le→ltb len 126 (omega arith), le→ltb len 65536 lo, length_bytes);
      flag = flag;
      size = rw code (unfold be_bytes64 in refl);
      reads = λ tail. rw code (get_u64-be_bytes64 len tail hi);
    }

-- Below 126 the code is the length, below 2 ^ 16 two bytes follow, and eight from there on.
pub length_bytes-ReadsBack : (masked : Bool) (len : ℕ) → len < 2 ^ 64 → ReadsBack masked len
length_bytes-ReadsBack masked len h = elim (dec_lt len 126) [
  | yes s ↦ short-ReadsBack masked len s
  | no s ↦ elim (dec_lt len (2 ^ 16)) [
    | yes m ↦ medium-ReadsBack masked len (omega arith) m
    | no m ↦ long-ReadsBack masked len (omega arith) h
  ]
]

-- What the checks on a header let through, for a payload limit `max`.
abbrev pub IsAccepted : ℕ → OpCode → Bool → ℕ → Type 0
IsAccepted max opcode fin len =
    (is_control opcode ≡ true → fin ≡ true) × (opcode ≡ ping → len ≤ 125) × (len < max)

pub header_error-none_iff :
    (opcode : OpCode) (fin : Bool) (len max : ℕ)
    → (header_error opcode fin len max ≡ none) ↔ IsAccepted max opcode fin len
unfolding header_error is_control same_op
header_error-none_iff opcode fin len max = (
  λ h. (λ c. ground arith, λ p. ground arith, ground arith),
  λ (final, small, fits). checked final small fits,
)
  where
    checked :
        (is_control opcode ≡ true → fin ≡ true)
        → (opcode ≡ ping → len ≤ 125)
        → len < max
        → header_error opcode fin len max ≡ none
    checked final small fits = ground (arith, final, small, le→ltb 125 len)
