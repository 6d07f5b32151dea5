-- ===== src/Codec.antt =====
-- src/codec.rs: the frame decoder with its saved header, and the encoder. A `BytesMut` is the list
-- of its bytes; `usize` is 64 bits wide. `undefined` stands for what Rust leaves undefined or turns
-- into a panic: a transmute of a byte that is no opcode, a read past the end, `unreachable!`.
pub mod State
pub mod Feed
pub mod Headers
pub mod RoundTrip
pub mod Limits
use yawc.Shared.{
  ℕ, zero, suc, ◌+◌, ◌*◌, ◌/◌, ◌%◌, ◌^◌, Bool, true, false, ◌&&◌, not, Option, none, some, List, [],
  ◌∷◌, ◌++◌, length, take, drop, bit_or, bit_and, ltb, leb, ◌==◌, if◌then◌else◌,
}
use yawc.Error.{
  WebSocketError, Result, ok, err, invalid_fragment, reserved_bits_not_zero,
  control_frame_fragmented, ping_frame_too_large, frame_too_large,
}
use yawc.Frame
use yawc.Frame.{
  OpCode, continuation, text, binary, close, ping, pong, is_control, same_op, try_from, Frame,
  MaskKey, bit, is_some, set_random_mask_if_not_set, write_head,
}
use yawc.Mask.{Platform, mask_buffer, copy_mask}

pub data Role : Type 0 where
  server client : Role

-- `opcode as u8` is the variant's number, and `transmute` goes back.
pub discriminant : OpCode → ℕ
discriminant continuation = 0
discriminant text = 1
discriminant binary = 2
discriminant close = 3
discriminant ping = 4
discriminant pong = 5

pub transmute : ℕ → Option OpCode
transmute n =
    if n == 0
    then some continuation
    else if n == 1
    then some text
    else if n == 2
    then some binary
    else if n == 3
    then some close
    else if n == 4
    then some ping
    else if n == 5
    then some pong
    else none

-- The fields of `ReadState` but its padding.
pub record ReadState : Type 0 where
  pub flags : ℕ
  pub mask : MaskKey
  pub payload_len : ℕ

abbrev pub zero_key : MaskKey
zero_key = record { k0 = 0; k1 = 0; k2 = 0; k3 = 0 }

abbrev pub unwrap_or_zero : Option MaskKey → MaskKey
unwrap_or_zero none = zero_key
unwrap_or_zero (some key) = key

-- `ReadState::new`.
pub new_state : Bool → Bool → OpCode → Option MaskKey → ℕ → ReadState
unfolding discriminant
new_state fin rsv1 opcode mask payload_len = record {
  flags =
      bit_or
        (bit_or (bit_or (bit fin 1 * 2 ^ 7) (bit rsv1 1 * 2 ^ 6))
          (bit_and (discriminant opcode) 0x0f))
        (bit (is_some mask) 0x10);
  mask = unwrap_or_zero mask;
  payload_len = payload_len;
}

pub state_fin : ReadState → Bool
state_fin s = not (bit_and s.flags 0x80 == 0)

pub state_rsv1 : ReadState → Bool
state_rsv1 s = not (bit_and s.flags 0x40 == 0)

pub state_opcode : ReadState → Option OpCode
unfolding transmute
state_opcode s = transmute (bit_and s.flags 0x0f)

pub state_mask : ReadState → Option MaskKey
state_mask s = if not (bit_and s.flags 0x10 == 0) then some s.mask else none

pub record Decoder : Type 0 where
  pub role : Role
  pub state : Option ReadState
  pub max_payload_size : ℕ

-- `Decoder::new`.
abbrev pub new_decoder : Role → ℕ → Decoder
new_decoder role max = record { role = role; state = none; max_payload_size = max }

-- `Ok(Some(frame))`, `Ok(None)` and `Err(e)`.
pub data Outcome : Type 0 where
  frame : Frame → Outcome
  more : Outcome
  fail : WebSocketError → Outcome
  undefined : Outcome

-- The outcome, with the decoder and the buffer after the call.
pub record Decoded : Type 0 where
  pub outcome : Outcome
  pub decoder : Decoder
  pub src : List ℕ

abbrev pub decoded : Outcome → Decoder → List ℕ → Decoded
decoded o d src = record { outcome = o; decoder = d; src = src }

-- `split_to` and `Frame::new`, with RSV1 as the compression flag.
abbrev pub split_frame : Decoder → Bool → Bool → OpCode → Option MaskKey → List ℕ → List ℕ → Decoded
split_frame d fin rsv1 opcode mask payload rest =
    let f : Frame = record {
      fin = fin;
      opcode = opcode;
      is_compressed = rsv1;
      mask = mask;
      payload = payload;
    } in
    decoded (frame f) d rest

module _ (at : Platform) where
  -- The payload is there: a server unmasks it in place, and the frame is split off.
  pub take_payload : Decoder → Bool → Bool → OpCode → Option MaskKey → ℕ → List ℕ → Decoded
  take_payload d fin rsv1 opcode mask len src = elim d.role [
    | client ↦ split_frame d fin rsv1 opcode mask (take len src) (drop len src)
    | server ↦ elim mask [
      | none ↦ decoded (fail invalid_fragment) d src
      | some key ↦
          split_frame d fin rsv1 opcode (some key) (mask_buffer at key (take len src))
            (drop len src)
    ]
  ]

  -- A saved header: `self.state` was taken, and goes back if the payload is not complete.
  pub resume : Decoder → ReadState → List ℕ → Decoded
  resume d s src =
      if ltb (length src) s.payload_len
      then decoded more (record d { state = some s }) src
      else elim (state_opcode s) [
        | none ↦ decoded undefined (record d { state = none }) src
        | some opcode ↦
            take_payload (record d { state = none }) (state_fin s) (state_rsv1 s) opcode
              (state_mask s) s.payload_len src
      ]

-- `get_u16`, `get_u64` and `get_u32().to_be_bytes()`; `none` is a panic.
pub get_u16 : List ℕ → Option (ℕ × List ℕ)
get_u16 (a ∷ b ∷ rest) = some (a * 256 + b, rest)
get_u16 _ = none

pub get_u64 : List ℕ → Option (ℕ × List ℕ)
get_u64 (a ∷ b ∷ c ∷ d ∷ e ∷ f ∷ g ∷ h ∷ rest) =
    some (((((((a * 256 + b) * 256 + c) * 256 + d) * 256 + e) * 256 + f) * 256 + g) * 256 + h, rest)
get_u64 _ = none

pub get_key : List ℕ → Option (MaskKey × List ℕ)
get_key (a ∷ b ∷ c ∷ d ∷ rest) =
    let word = ((a * 256 + b) * 256 + c) * 256 + d in
    some (
      record {
        k0 = word / 2 ^ 24 % 256;
        k1 = word / 2 ^ 16 % 256;
        k2 = word / 2 ^ 8 % 256;
        k3 = word % 256;
      },
      rest,
    )
get_key _ = none

-- How many bytes the extended length takes.
pub extra_of : ℕ → ℕ
extra_of code = if code == 126 then 2 else if code == 127 then 8 else 0

pub read_length : ℕ → ℕ → List ℕ → Option (ℕ × List ℕ)
unfolding get_u16 get_u64
read_length extra code src =
    if extra == 0
    then some (code, src)
    else if extra == 2
    then get_u16 src
    else if extra == 8
    then get_u64 src
    else none

pub read_mask : Bool → List ℕ → Option (Option MaskKey × List ℕ)
read_mask false src = some (none, src)
read_mask true src = elim (get_key src) [ none ↦ none | some (key, rest) ↦ some (some key, rest) ]

-- The checks on a complete header, in the order of the source.
pub header_error : OpCode → Bool → ℕ → ℕ → Option WebSocketError
header_error opcode fin len max =
    if is_control opcode && not fin
    then some control_frame_fragmented
    else if same_op opcode ping && ltb 125 len
    then some ping_frame_too_large
    else if leb max len
    then some frame_too_large
    else none

module _ (at : Platform) where
  -- The header is read and checked: take the payload, or save the header and wait.
  pub read_payload : Decoder → Bool → Bool → OpCode → Option MaskKey → ℕ → List ℕ → Decoded
  read_payload d fin rsv1 opcode mask len src =
      if ltb (length src) len
      then decoded more (record d { state = some (new_state fin rsv1 opcode mask len) }) src
      else take_payload at d fin rsv1 opcode mask len src

  pub check_header : Decoder → Bool → Bool → OpCode → Option MaskKey → ℕ → List ℕ → Decoded
  check_header d fin rsv1 opcode mask len src =
      elim (header_error opcode fin len d.max_payload_size) [
        | some e ↦ decoded (fail e) d src
        | none ↦ read_payload d fin rsv1 opcode mask len src
      ]

  -- The whole header is in `rest`, the buffer behind its first two bytes.
  pub read_header : Decoder → Bool → Bool → OpCode → Bool → ℕ → List ℕ → Decoded
  read_header d fin rsv1 opcode has_mask code rest = elim (read_length (extra_of code) code rest) [
    | none ↦ decoded undefined d rest
    | some (len, rest') ↦ elim (read_mask has_mask rest') [
      | none ↦ decoded undefined d rest'
      | some (mask, rest'') ↦ check_header d fin rsv1 opcode mask len rest''
    ]
  ]

  -- A new frame, from its first two bytes on.
  pub parse_header : Decoder → ℕ → ℕ → List ℕ → Decoded
  parse_header d b0 b1 rest =
      let src : List ℕ = b0 ∷ b1 ∷ rest in
      let fin = not (bit_and b0 0x80 == 0) in
      let rsv1 = not (bit_and b0 0x40 == 0) in
      let has_mask = not (bit_and b1 0x80 == 0) in
      let code = bit_and b1 0x7f in
      let header_size = 2 + extra_of code + bit has_mask 4 in
      if not (bit_and b0 0x30 == 0)
      then decoded (fail reserved_bits_not_zero) d src
      else elim (try_from (bit_and b0 0x0f)) [
        | err e ↦ decoded (fail e) d src
        | ok opcode ↦
            if ltb (length src) header_size
            then decoded more d src
            else read_header d fin rsv1 opcode has_mask code rest
      ]

  pub start : Decoder → List ℕ → Decoded
  start d (b0 ∷ b1 ∷ rest) = parse_header d b0 b1 rest
  start d src = decoded more d src

  -- `Decoder::decode`.
  pub decode : Decoder → List ℕ → Decoded
  decode d src = elim d.state [ some s ↦ resume at d s src | none ↦ start d src ]

-- `Encoder::encode`; `random` is the key that a client draws if the frame has none.
pub encode : Bool → Role → MaskKey → Frame → List ℕ → List ℕ
encode avx2 role random f dst =
    let f' : Frame = elim role [ client ↦ set_random_mask_if_not_set random f | server ↦ f ] in
    let head = write_head f' dst in
    elim f'.mask [ some key ↦ head ++ copy_mask avx2 key f'.payload | none ↦ head ++ f'.payload ]
