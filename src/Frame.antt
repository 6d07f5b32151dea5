-- ===== src/Frame.antt =====
-- src/frame.rs: opcodes, frames, their constructors and the header that is written in front of a
-- payload. A byte string (`Bytes`, `BytesMut`, `Vec<u8>`) is a list of numbers below 256.
pub mod OpCodes
pub mod Fragments
pub mod CloseFrames
use yawc.Shared.{
  ℕ, zero, suc, ◌+◌, ◌*◌, ◌/◌, ◌%◌, ◌^◌, ◌≡◌, Bool, true, false, ◌&&◌, not, Option, none, some,
  List, [], ◌∷◌, ◌++◌, length, take, drop, get_or, bit_or, ltb, leb, ◌==◌, if◌then◌else◌,
}
use yawc.Error.{WebSocketError, Result, ok, err, invalid_op_code, invalid_utf8}
use yawc.Close
use yawc.Close.{CloseCode}

pub data OpCode : Type 0 where
  continuation text binary close ping pong : OpCode

unfoldable pub is_control : OpCode → Bool
is_control close = true
is_control ping = true
is_control pong = true
is_control _ = false

-- `opcode == other`, the derived `PartialEq`.
unfoldable pub same_op : OpCode → OpCode → Bool
same_op continuation continuation = true
same_op text text = true
same_op binary binary = true
same_op close close = true
same_op ping ping = true
same_op pong pong = true
same_op _ _ = false

-- `OpCode::try_from(u8)`.
unfoldable pub try_from : ℕ → Result OpCode
try_from value =
    if value == 0x0
    then ok continuation
    else if value == 0x1
    then ok text
    else if value == 0x2
    then ok binary
    else if value == 0x8
    then ok close
    else if value == 0x9
    then ok ping
    else if value == 0xa
    then ok pong
    else err (invalid_op_code value)

-- `u8::from(OpCode)`.
unfoldable pub to_u8 : OpCode → ℕ
to_u8 continuation = 0x0
to_u8 text = 0x1
to_u8 binary = 0x2
to_u8 close = 0x8
to_u8 ping = 0x9
to_u8 pong = 0xa

-- A masking key, `[u8; 4]`.
pub record MaskKey : Type 0 where
  pub k0 : ℕ
  pub k1 : ℕ
  pub k2 : ℕ
  pub k3 : ℕ

abbrev pub key_bytes : MaskKey → List ℕ
key_bytes k = k.k0 ∷ k.k1 ∷ k.k2 ∷ k.k3 ∷ []

pub record Frame : Type 0 where
  pub fin : Bool
  pub opcode : OpCode
  pub is_compressed : Bool
  pub mask : Option MaskKey
  pub payload : List ℕ

-- `Frame::new`.
abbrev pub new : Bool → OpCode → Option MaskKey → List ℕ → Frame
new fin opcode mask payload = record {
  fin = fin;
  opcode = opcode;
  is_compressed = false;
  mask = mask;
  payload = payload;
}

-- `Frame::from((opcode, payload))`, which the named constructors below agree with.
abbrev pub from_parts : OpCode → List ℕ → Frame
from_parts opcode payload = new true opcode none payload

abbrev pub text_frame : List ℕ → Frame
text_frame payload = from_parts text payload

abbrev pub binary_frame : List ℕ → Frame
binary_frame payload = from_parts binary payload

abbrev pub ping_frame : List ℕ → Frame
ping_frame payload = from_parts ping payload

abbrev pub pong_frame : List ℕ → Frame
pong_frame payload = from_parts pong payload

abbrev pub continuation_frame : List ℕ → Frame
continuation_frame payload = from_parts continuation payload

abbrev pub close_raw : List ℕ → Frame
close_raw payload = from_parts close payload

abbrev pub with_fin : Frame → Bool → Frame
with_fin f fin = record f { fin = fin }

abbrev pub with_mask : Frame → MaskKey → Frame
with_mask f key = record f { mask = some key }

-- `to_be_bytes` of a `u16` and of a `u64`.
unfoldable pub be_bytes16 : ℕ → List ℕ
be_bytes16 n = (n / 256 % 256) ∷ (n % 256) ∷ []

unfoldable pub be_bytes64 : ℕ → List ℕ
be_bytes64 n =
    (n / 2 ^ 56 % 256)
    ∷ (n / 2 ^ 48 % 256)
    ∷ (n / 2 ^ 40 % 256)
    ∷ (n / 2 ^ 32 % 256)
    ∷ (n / 2 ^ 24 % 256)
    ∷ (n / 2 ^ 16 % 256)
    ∷ (n / 2 ^ 8 % 256)
    ∷ (n % 256)
    ∷ []

-- `Frame::close`.
unfoldable pub close_frame : CloseCode → List ℕ → Frame
unfolding be_bytes16
close_frame code reason = from_parts close (be_bytes16 (Close.to_u16 code) ++ reason)

-- `Frame::close_code`: the first two payload bytes, big endian.
unfoldable pub close_code : Frame → Option CloseCode
close_code f = elim f.payload [ a ∷ b ∷ rest ↦ some (Close.from_u16 (a * 256 + b)) | _ ↦ none ]

-- `Frame::close_reason`, with `std::str::from_utf8` as the test `is_utf8`.
unfoldable pub close_reason : (List ℕ → Bool) → Frame → Result (Option (List ℕ))
close_reason is_utf8 f = elim f.payload [
  | [] ↦ ok none
  | a ∷ [] ↦ err invalid_utf8
  | a ∷ b ∷ reason ↦ (if is_utf8 reason then ok (some reason) else err invalid_utf8)
]

-- `set_random_mask_if_not_set`, with the random key as an argument.
unfoldable pub set_random_mask_if_not_set : MaskKey → Frame → Frame
set_random_mask_if_not_set random f = elim f.mask [
  | none ↦ record f { mask = some random }
  | some key ↦ f
]

abbrev pub bit : Bool → ℕ → ℕ
bit b n = if b then n else 0

abbrev pub is_some {ℓ} : {A : Type ℓ} → Option A → Bool
is_some none = false
is_some (some a) = true

abbrev pub mask_bytes : Option MaskKey → List ℕ
mask_bytes none = []
mask_bytes (some key) = key_bytes key

-- `(fin as u8) << 7 | compression << 6 | u8::from(opcode)`.
unfoldable pub first_byte : Frame → ℕ
first_byte f =
    bit_or (bit_or (bit f.fin 1 * 2 ^ 7) (bit f.is_compressed 1 * 2 ^ 6)) (to_u8 f.opcode)

-- The length code with the mask flag, and the extended length.
unfoldable pub length_bytes : Bool → ℕ → List ℕ
length_bytes masked len =
    let flag = bit masked 0x80 in
    if ltb len 126
    then bit_or len flag ∷ []
    else if ltb len 65536
    then bit_or 126 flag ∷ be_bytes16 len
    else bit_or 127 flag ∷ be_bytes64 len

-- `write_head`.
unfoldable pub write_head : Frame → List ℕ → List ℕ
write_head f dst =
    dst ++ (first_byte f ∷ (length_bytes (is_some f.mask) (length f.payload) ++ mask_bytes f.mask))

-- The iterator of `into_fragments`.
pub record Split : Type 0 where
  pub index : ℕ
  pub max_size : ℕ
  pub held : Option Frame

-- `Split::next` on the frame that it took.
unfoldable pub next_of : ℕ → ℕ → Frame → Frame × Split
next_of index max_size f =
    if leb (length f.payload) max_size
    then (
      if index == 0 then f else record f { fin = true; opcode = continuation },
      record { index = index; max_size = max_size; held = none },
    )
    else (
      new false (if index == 0 then f.opcode else continuation) f.mask (take max_size f.payload),
      record {
        index = index + 1;
        max_size = max_size;
        held = some (record f { payload = drop max_size f.payload });
      },
    )

unfoldable pub next : Split → Option (Frame × Split)
next s = elim s.held [ none ↦ none | some f ↦ some (next_of s.index s.max_size f) ]

-- All items of the iterator; `none` when it has not ended within the fuel.
unfoldable pub collect : ℕ → Split → Option (List Frame)
collect zero s = none
collect (suc fuel) s = elim (next s) [
  | none ↦ some []
  | some (f, s') ↦ elim (collect fuel s') [ none ↦ none | some fs ↦ some (f ∷ fs) ]
]

abbrev pub split : Frame → ℕ → Split
split f partition = record { index = 0; max_size = partition; held = some f }

-- `Frame::into_fragments`, collected. With a partition of at least one byte every item but the last
-- takes a byte, so the payload's length and two more calls are enough.
unfoldable pub into_fragments : Frame → ℕ → Option (List Frame)
into_fragments f partition = collect (length f.payload + 2) (split f partition)
