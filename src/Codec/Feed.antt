-- ===== src/Codec/Feed.antt =====
-- Decoding does not depend on how the bytes arrive: a call on a longer buffer does what the call
-- on its front and the calls on the rest do.
use yawc.Shared.{
  ℕ, suc, ◌+◌, ◌≤◌, ◌≡◌, refl, subst, sym, ◌⊎◌, Bool, true, false, Option, none, some, List, [],
  ◌∷◌, ◌++◌, length, take-append, drop-append, length-append, arith, ltb, not, bit_and, ◌==◌,
  Bool-cases, Option-cases, inl, inr,
}
use yawc.Error.{ok, Result-cases}
use yawc.Frame.{OpCode, MaskKey, bit, try_from}
use yawc.Mask.{Platform}
use yawc.Codec.{
  Decoder, ReadState, more, Decoded, decoded, take_payload, resume, get_u16, get_u64, get_key,
  extra_of, read_length, read_mask, header_error, read_payload, check_header, read_header,
  parse_header, start, decode, new_state, state_fin, state_rsv1, state_opcode, state_mask,
}
use yawc.Codec.State.{new_state-Accessors, new_state-payload_len}

module _ (at : Platform) where
  -- What becomes of a call when `tail` arrives behind its buffer: a finished call keeps its result
  -- and has more bytes left, and a call that waits is made again.
  abbrev pub continue_with : List ℕ → Decoded → Decoded
  continue_with tail r = elim r.outcome [
    | more ↦ decode at r.decoder (r.src ++ tail)
    | other ↦ decoded other r.decoder (r.src ++ tail)
  ]

  take_payload-feed :
      (d : Decoder) (fin rsv1 : Bool) (opcode : OpCode) (mask : Option MaskKey) (len : ℕ)
      (src tail : List ℕ)
      → len ≤ length src
      → take_payload at d fin rsv1 opcode mask len (src ++ tail)
        ≡ continue_with tail (take_payload at d fin rsv1 opcode mask len src)
  unfolding take_payload
  take_payload-feed d fin rsv1 opcode mask len src tail h =
      ground (arith, take-append len src tail h, drop-append len src tail h)

  resume-feed :
      (d : Decoder) (s : ReadState) (src tail : List ℕ)
      → resume at d s (src ++ tail) ≡ continue_with tail (resume at d s src)
  unfolding resume decode
  resume-feed d s src tail = elim (Option-cases (state_opcode s)) [
    | inl bad ↦ rw bad (ground (arith, length-append src tail))
    | inr (opcode, e) ↦ rw e (
        ground (
          arith,
          length-append src tail,
          take_payload-feed (record d { state = none }) (state_fin s) (state_rsv1 s) opcode
              (state_mask s) s.payload_len src tail,
        ))
  ]

  taken : (d : Decoder) → d.state ≡ none → record d { state = none } ≡ d
  taken d h = λ i. record d { state = sym h i }

  -- A saved header resumes as the header that was saved.
  pub resume-new_state :
      (d : Decoder) (fin rsv1 : Bool) (opcode : OpCode) (mask : Option MaskKey) (len : ℕ)
      (src : List ℕ)
      → d.state ≡ none
      → resume at
          (record d { state = some (new_state fin rsv1 opcode mask len) })
          (new_state fin rsv1 opcode mask len)
          src
        ≡ read_payload at d fin rsv1 opcode mask len src
  unfolding resume read_payload
  resume-new_state d fin rsv1 opcode mask len src h =
      let (hf, hr, ho, hm) = new_state-Accessors fin rsv1 opcode mask len in
      rw (ho, hf, hr, hm, new_state-payload_len fin rsv1 opcode mask len)
        (ground (arith, taken d h))

  read_payload-feed :
      (d : Decoder) (fin rsv1 : Bool) (opcode : OpCode) (mask : Option MaskKey) (len : ℕ)
      (src tail : List ℕ)
      → d.state ≡ none
      → read_payload at d fin rsv1 opcode mask len (src ++ tail)
        ≡ continue_with tail (read_payload at d fin rsv1 opcode mask len src)
  read_payload-feed d fin rsv1 opcode mask len src tail h =
      elim (Bool-cases (ltb (length src) len)) [
        | inl waits ↦
            let saved : read_payload at d fin rsv1 opcode mask len src
                ≡ decoded more (record d { state = some (new_state fin rsv1 opcode mask len) })
                    src =
              unfold read_payload in rw waits in
            rw saved
              (unfold decode in sym (resume-new_state d fin rsv1 opcode mask len (src ++ tail) h))
        | inr whole ↦
            let now : read_payload at d fin rsv1 opcode mask len src
                ≡ take_payload at d fin rsv1 opcode mask len src =
              unfold read_payload in rw whole in
            let later : read_payload at d fin rsv1 opcode mask len (src ++ tail)
                ≡ take_payload at d fin rsv1 opcode mask len (src ++ tail) =
              unfold read_payload in ground (arith, length-append src tail) in
            rw (now, later) (take_payload-feed d fin rsv1 opcode mask len src tail (ground arith))
      ]

  check_header-feed :
      (d : Decoder) (fin rsv1 : Bool) (opcode : OpCode) (mask : Option MaskKey) (len : ℕ)
      (src tail : List ℕ)
      → d.state ≡ none
      → check_header at d fin rsv1 opcode mask len (src ++ tail)
        ≡ continue_with tail (check_header at d fin rsv1 opcode mask len src)
  unfolding check_header
  check_header-feed d fin rsv1 opcode mask len src tail h =
      elim (Option-cases (header_error opcode fin len d.max_payload_size)) [
        | inl fine ↦
            rw (fine, check_header) (read_payload-feed d fin rsv1 opcode mask len src tail h)
        | inr (e, bad) ↦ rw (bad, check_header)
      ]

-- A read that finds enough bytes succeeds, and does not see what follows.
get_u16-feed :
    (src : List ℕ)
    → 2 ≤ length src
    → (len : ℕ) × (rest : List ℕ) × (get_u16 src ≡ some (len, rest))
      × (length rest + 2 ≡ length src)
      × ((tail : List ℕ) → get_u16 (src ++ tail) ≡ some (len, rest ++ tail))
unfolding get_u16
get_u16-feed (a ∷ b ∷ rest) h = (_, rest, refl, omega arith, λ tail. refl)
get_u16-feed _ h = absurd (omega arith)

get_u64-feed :
    (src : List ℕ)
    → 8 ≤ length src
    → (len : ℕ) × (rest : List ℕ) × (get_u64 src ≡ some (len, rest))
      × (length rest + 8 ≡ length src)
      × ((tail : List ℕ) → get_u64 (src ++ tail) ≡ some (len, rest ++ tail))
unfolding get_u64
get_u64-feed (a ∷ b ∷ c ∷ d ∷ e ∷ f ∷ g ∷ i ∷ rest) h = (_, rest, refl, omega arith, λ tail. refl)
get_u64-feed _ h = absurd (omega arith)

get_key-feed :
    (src : List ℕ)
    → 4 ≤ length src
    → (key : MaskKey) × (rest : List ℕ) × (get_key src ≡ some (key, rest))
      × ((tail : List ℕ) → get_key (src ++ tail) ≡ some (key, rest ++ tail))
unfolding get_key
get_key-feed (a ∷ b ∷ c ∷ d ∷ rest) h = (_, rest, refl, λ tail. refl)
get_key-feed _ h = absurd (omega arith)

abbrev pub ReadsLength : ℕ → List ℕ → ℕ → Type 0
ReadsLength code src extra =
    (len : ℕ) × (rest : List ℕ) × (read_length extra code src ≡ some (len, rest))
    × (length rest + extra ≡ length src)
    × ((tail : List ℕ) → read_length extra code (src ++ tail) ≡ some (len, rest ++ tail))

extra_of-cases : (code : ℕ) → (extra_of code ≡ 0) ⊎ ((extra_of code ≡ 2) ⊎ (extra_of code ≡ 8))
unfolding extra_of
extra_of-cases code = ground arith

pub read_length-feed :
    (code : ℕ) (src : List ℕ) → extra_of code ≤ length src → ReadsLength code src (extra_of code)
unfolding read_length
read_length-feed code src h = elim (extra_of-cases code) [
  | inl e ↦ subst (λ x. ReadsLength code src x) (sym e) (code, src, refl, omega arith, λ tail. refl)
  | inr (inl e) ↦
      subst (λ x. x ≤ length src → ReadsLength code src x) (sym e) (λ k. get_u16-feed src k) h
  | inr (inr e) ↦
      subst (λ x. x ≤ length src → ReadsLength code src x) (sym e) (λ k. get_u64-feed src k) h
]

pub read_mask-feed :
    (has_mask : Bool) (src : List ℕ)
    → bit has_mask 4 ≤ length src
    → (mask : Option MaskKey) × (rest : List ℕ) × (read_mask has_mask src ≡ some (mask, rest))
      × ((tail : List ℕ) → read_mask has_mask (src ++ tail) ≡ some (mask, rest ++ tail))
unfolding read_mask
read_mask-feed false src h = (none, src, refl, λ tail. refl)
read_mask-feed true src h =
    let (key, rest, now, later) = get_key-feed src h in
    (some key, rest, rw (now, read_mask), λ tail. rw (later tail, read_mask))

module _ (at : Platform) (d : Decoder) (idle : d.state ≡ none) where
  read_header-feed :
      (fin rsv1 : Bool) (opcode : OpCode) (has_mask : Bool) (code : ℕ) (src tail : List ℕ)
      → extra_of code + bit has_mask 4 ≤ length src
      → read_header at d fin rsv1 opcode has_mask code (src ++ tail)
        ≡ continue_with at tail (read_header at d fin rsv1 opcode has_mask code src)
  read_header-feed fin rsv1 opcode has_mask code src tail h =
      let (len, rest, now, size, later) = read_length-feed code src (omega arith) in
      let (mask, rest', now', later') = read_mask-feed has_mask rest (omega arith) in
      let one : read_header at d fin rsv1 opcode has_mask code src
          ≡ check_header at d fin rsv1 opcode mask len rest' =
        unfold read_header in rw (now, now', read_header) in
      let two : read_header at d fin rsv1 opcode has_mask code (src ++ tail)
          ≡ check_header at d fin rsv1 opcode mask len (rest' ++ tail) =
        unfold read_header in rw (later tail, later' tail, read_header) in
      rw (one, two) (check_header-feed at d fin rsv1 opcode mask len rest' tail idle)

  pub decode_idle : (src : List ℕ) → decode at d src ≡ start at d src
  unfolding decode
  decode_idle src = ground arith

  parse_header-feed :
      (b0 b1 : ℕ) (rest tail : List ℕ)
      → parse_header at d b0 b1 (rest ++ tail)
        ≡ continue_with at tail (parse_header at d b0 b1 rest)
  parse_header-feed b0 b1 rest tail = elim (Bool-cases (bit_and b0 0x30 == 0)) [
    | inr reserved ↦ unfold parse_header in rw (reserved, parse_header)
    | inl zeroed ↦ elim (Result-cases (try_from (bit_and b0 0x0f))) [
      | inr (e, bad) ↦ unfold parse_header in rw (zeroed, bad, parse_header)
      | inl (opcode, good) ↦ known zeroed opcode good
    ]
  ]
    where
      fin : Bool
      fin = not (bit_and b0 0x80 == 0)

      rsv1 : Bool
      rsv1 = not (bit_and b0 0x40 == 0)

      has_mask : Bool
      has_mask = not (bit_and b1 0x80 == 0)

      code : ℕ
      code = bit_and b1 0x7f

      known :
          (bit_and b0 0x30 == 0) ≡ true
          → (opcode : OpCode) → try_from (bit_and b0 0x0f) ≡ ok opcode
          → parse_header at d b0 b1 (rest ++ tail)
            ≡ continue_with at tail (parse_header at d b0 b1 rest)
      known zeroed opcode good =
          elim (Bool-cases (ltb (suc (suc (length rest))) (2 + extra_of code + bit has_mask 4))) [
            | inl short ↦
                let now : parse_header at d b0 b1 rest ≡ decoded more d (b0 ∷ b1 ∷ rest) =
                  unfold parse_header in rw (zeroed, good, short, parse_header) in
                rw now (unfold start in sym (decode_idle (b0 ∷ b1 ∷ (rest ++ tail))))
            | inr whole ↦
                let now : parse_header at d b0 b1 rest
                    ≡ read_header at d fin rsv1 opcode has_mask code rest =
                  unfold parse_header in rw (zeroed, good, whole, parse_header) in
                let enough : extra_of code + bit has_mask 4 ≤ length rest = ground arith in
                let whole' : ltb (suc (suc (length (rest ++ tail))))
                      (2 + extra_of code + bit has_mask 4)
                    ≡ false =
                  ground (arith, length-append rest tail) in
                let later : parse_header at d b0 b1 (rest ++ tail)
                    ≡ read_header at d fin rsv1 opcode has_mask code (rest ++ tail) =
                  unfold parse_header in rw (zeroed, good, whole', parse_header) in
                rw (now, later) (read_header-feed fin rsv1 opcode has_mask code rest tail enough)
          ]

  start-feed :
      (src tail : List ℕ) → start at d (src ++ tail) ≡ continue_with at tail (start at d src)
  unfolding start
  start-feed (b0 ∷ b1 ∷ rest) tail = parse_header-feed b0 b1 rest tail
  start-feed (b0 ∷ []) tail = sym (decode_idle (b0 ∷ tail))
  start-feed [] tail = sym (decode_idle tail)

pub decode_saved :
    (at : Platform) (d : Decoder) (s : ReadState)
    → d.state ≡ some s
    → (src : List ℕ) → decode at d src ≡ resume at d s src
unfolding decode
decode_saved at d s saved src = ground arith

-- Decoding is insensitive to how the bytes arrive. A call of `decode` on `src ++ tail` gives what
-- the call on `src` gives when `tail` arrives afterwards: if that call returned a frame or an
-- error, the same one, with `tail` left behind it; if it asked for more, what the next call on the
-- kept bytes and `tail` returns, from the state that it saved.
pub decode-feed :
    (at : Platform) (d : Decoder) (src tail : List ℕ)
    → decode at d (src ++ tail) ≡ continue_with at tail (decode at d src)
decode-feed at d src tail = elim (Option-cases d.state) [
  | inl idle ↦
      rw (decode_idle at d idle (src ++ tail), decode_idle at d idle src)
        (start-feed at d idle src tail)
  | inr (s, saved) ↦
      rw (decode_saved at d s saved (src ++ tail), decode_saved at d s saved src)
        (resume-feed at d s src tail)
]
