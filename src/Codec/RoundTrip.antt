-- ===== src/Codec/RoundTrip.antt =====
-- What the encoder of one side writes, the decoder of the other side reads back.
use yawc.Shared.{
  ℕ, suc, ◌+◌, ◌*◌, ◌/◌, ◌%◌, ◌^◌, ◌<◌, ◌≡◌, refl, ap, sym, ◌∙◌, Bool, false, Option, none, some,
  List, [], ◌∷◌, ◌++◌, length, length-append, append_assoc, All, arith, ltb, bit_and, Option-cases,
  inl, inr, take-length_append, drop-length_append, le→ltb,
}
use yawc.Shared.Bits.{IsByte}
use yawc.Frame.{
  OpCode, Frame, MaskKey, key_bytes, bit, first_byte, mask_bytes, is_some, with_mask, write_head,
  set_random_mask_if_not_set,
}
use yawc.Mask.{Platform, Aligns, copy_mask}
use yawc.Mask.Words.{IsKey}
use yawc.Mask.Dispatch.{length-copy_mask, mask_buffer-copy_mask}
use yawc.Codec.{
  server, client, Decoder, new_decoder, decoded, frame, get_key, read_mask, extra_of, take_payload,
  read_payload, check_header, read_header, parse_header, start, decode, encode,
}
use yawc.Codec.Feed.{decode_idle}
use yawc.Codec.Headers.{
  IsAccepted, header_error-none_iff, first_byte-bits, ReadsBack, length_bytes-ReadsBack,
}

-- The keys that can be on the wire.
abbrev pub MaskIsKey : Option MaskKey → Type 0
MaskIsKey none = Unit {0}
MaskIsKey (some key) = IsKey key

get_key-key_bytes :
    (key : MaskKey) (tail : List ℕ) → IsKey key → get_key (key_bytes key ++ tail) ≡ some (key, tail)
unfolding get_key
get_key-key_bytes key tail hk =
    λ i. some (record { k0 = byte0 i; k1 = byte1 i; k2 = byte2 i; k3 = byte3 i }, tail)
  where
    word : ℕ
    word = ((key.k0 * 256 + key.k1) * 256 + key.k2) * 256 + key.k3

    byte0 : word / 2 ^ 24 % 256 ≡ key.k0
    byte0 = omega arith

    byte1 : word / 2 ^ 16 % 256 ≡ key.k1
    byte1 = omega arith

    byte2 : word / 2 ^ 8 % 256 ≡ key.k2
    byte2 = omega arith

    byte3 : word % 256 ≡ key.k3
    byte3 = omega arith

read_mask-mask_bytes :
    (mask : Option MaskKey) (tail : List ℕ)
    → MaskIsKey mask
    → read_mask (is_some mask) (mask_bytes mask ++ tail) ≡ some (mask, tail)
unfolding read_mask
read_mask-mask_bytes none tail h = refl
read_mask-mask_bytes (some key) tail h = rw (get_key-key_bytes key tail h, read_mask)

length-mask_bytes : (mask : Option MaskKey) → length (mask_bytes mask) ≡ bit (is_some mask) 4
length-mask_bytes none = refl
length-mask_bytes (some key) = refl

module _ (at : Platform) (d : Decoder) (f : Frame)
    (accepted : IsAccepted d.max_payload_size f.opcode f.fin (length f.payload))
    (word : length f.payload < 2 ^ 64) (key : MaskIsKey f.mask) (body : List ℕ) where
  back : ReadsBack (is_some f.mask) (length f.payload)
  back = length_bytes-ReadsBack (is_some f.mask) (length f.payload) word

  abbrev behind : List ℕ
  behind = back.extended ++ (mask_bytes f.mask ++ body)

  abbrev code : ℕ
  code = bit_and back.second 0x7f

  write_head-shape : write_head f [] ++ body ≡ first_byte f ∷ back.second ∷ behind
  unfolding write_head
  write_head-shape = rw back.written (
      ap (λ l. first_byte f ∷ back.second ∷ l)
        (append_assoc back.extended (mask_bytes f.mask) body))

  read_header-behind :
      read_header at d f.fin f.is_compressed f.opcode (is_some f.mask) code behind
      ≡ read_payload at d f.fin f.is_compressed f.opcode f.mask (length f.payload) body
  unfolding read_header check_header
  read_header-behind =
      rw
        (
          back.reads (mask_bytes f.mask ++ body),
          read_mask-mask_bytes f.mask body key,
          (header_error-none_iff f.opcode f.fin (length f.payload) d.max_payload_size).1 accepted,
          read_header,
          check_header,
        )
        refl

  header_complete :
      ltb (suc (suc (length behind))) (2 + extra_of code + bit (is_some f.mask) 4) ≡ false
  header_complete = le→ltb _ _ (
      omega (
        arith,
        back.size,
        length-append back.extended (mask_bytes f.mask ++ body),
        length-append (mask_bytes f.mask) body,
        length-mask_bytes f.mask,
      ))

  -- The decoder reads the header of a frame that it accepts as what the frame says.
  pub start-write_head :
      start at d (write_head f [] ++ body)
      ≡ read_payload at d f.fin f.is_compressed f.opcode f.mask (length f.payload) body
  unfolding start parse_header
  start-write_head =
      let (fin, rsv1, reserved, opcode) = first_byte-bits f in
      rw write_head-shape (
        rw (reserved, opcode, fin, rsv1, back.flag, header_complete, parse_header)
          read_header-behind)

-- The key that a client's frame travels with.
abbrev pub wire_key : MaskKey → Frame → MaskKey
wire_key random f = elim f.mask [ none ↦ random | some key ↦ key ]

set_random_mask-wire_key :
    (random : MaskKey) (f : Frame)
    → set_random_mask_if_not_set random f ≡ with_mask f (wire_key random f)
unfolding set_random_mask_if_not_set
set_random_mask-wire_key random f = elim (Option-cases f.mask) [
  | inl e ↦ rw e
  | inr (key, e) ↦ ground arith
]

read_payload-whole :
    (at : Platform) (d : Decoder) (fin rsv1 : Bool) (opcode : OpCode) (mask : Option MaskKey)
    (payload rest : List ℕ)
    → read_payload at d fin rsv1 opcode mask (length payload) (payload ++ rest)
      ≡ take_payload at d fin rsv1 opcode mask (length payload) (payload ++ rest)
unfolding read_payload
read_payload-whole at d fin rsv1 opcode mask payload rest =
    rw (
      le→ltb (length (payload ++ rest)) (length payload)
        (omega (arith, length-append payload rest)))

encode_client :
    (avx2 : Bool) (random : MaskKey) (f : Frame)
    → encode avx2 client random f []
      ≡ write_head (with_mask f (wire_key random f)) []
        ++ copy_mask avx2 (wire_key random f) f.payload
unfolding encode
encode_client avx2 random f = ground (arith, set_random_mask-wire_key random f)

-- A server reads back the frame that a client encoded, with the key that it travelled with, and
-- leaves what follows: for a frame of bytes that the server's limit accepts, of less than 2 ^ 64
-- bytes, whichever masking routines the two sides use.
pub decode-encode_client :
    (at : Platform) (avx2 : Bool) (max : ℕ) (random : MaskKey) (f : Frame) (rest : List ℕ)
    → Aligns at
    → IsAccepted max f.opcode f.fin (length f.payload)
    → length f.payload < 2 ^ 64
    → IsKey (wire_key random f)
    → All IsByte f.payload
    → decode at (new_decoder server max) (encode avx2 client random f [] ++ rest)
      ≡ decoded (frame (with_mask f (wire_key random f))) (new_decoder server max) rest
decode-encode_client at avx2 max random f rest aligned accepted word hk hb =
    rw (encode_client avx2 random f, append_assoc (write_head g []) sent rest)
      (decode_idle at d refl (write_head g [] ++ (sent ++ rest))
        ∙ start-write_head at d g accepted word hk (sent ++ rest)
        ∙ ap (λ n. read_payload at d f.fin f.is_compressed f.opcode (some key) n (sent ++ rest))
            (sym size)
        ∙ read_payload-whole at d f.fin f.is_compressed f.opcode (some key) sent rest
        ∙ unmasked)
  where
    key : MaskKey
    key = wire_key random f

    g : Frame
    g = with_mask f key

    d : Decoder
    d = new_decoder server max

    sent : List ℕ
    sent = copy_mask avx2 key f.payload

    size : length sent ≡ length f.payload
    size = length-copy_mask avx2 key f.payload hk hb

    unmasked :
        take_payload at d f.fin f.is_compressed f.opcode (some key) (length sent) (sent ++ rest)
        ≡ decoded (frame g) d rest
    unmasked =
        unfold take_payload in
        rw
          (
            take-length_append (length sent) sent rest refl,
            drop-length_append (length sent) sent rest refl,
            mask_buffer-copy_mask at avx2 key f.payload aligned hk hb,
          )
          refl

-- A client reads back the frame that a server encoded, and leaves what follows: for a frame with
-- no key of its own that the client's limit accepts, of less than 2 ^ 64 bytes.
pub decode-encode_server :
    (at : Platform) (avx2 : Bool) (max : ℕ) (random : MaskKey) (f : Frame) (rest : List ℕ)
    → f.mask ≡ none
    → IsAccepted max f.opcode f.fin (length f.payload)
    → length f.payload < 2 ^ 64
    → decode at (new_decoder client max) (encode avx2 server random f [] ++ rest)
      ≡ decoded (frame f) (new_decoder client max) rest
decode-encode_server at avx2 max random f rest plain accepted word =
    rw (encode_server, append_assoc (write_head f []) f.payload rest)
      (decode_idle at d refl (write_head f [] ++ (f.payload ++ rest))
        ∙ start-write_head at d f accepted word (rw plain tt) (f.payload ++ rest)
        ∙ read_payload-whole at d f.fin f.is_compressed f.opcode f.mask f.payload rest
        ∙ whole)
  where
    d : Decoder
    d = new_decoder client max

    encode_server : encode avx2 server random f [] ≡ write_head f [] ++ f.payload
    encode_server = unfold encode in ground arith

    whole :
        take_payload at d f.fin f.is_compressed f.opcode f.mask
          (length f.payload)
          (f.payload ++ rest)
        ≡ decoded (frame f) d rest
    whole =
        unfold take_payload in
        rw
          (
            take-length_append (length f.payload) f.payload rest refl,
            drop-length_append (length f.payload) f.payload rest refl,
          )
          refl
