-- ===== src/Codec/Limits.antt =====
-- What every call of `decode` guarantees: no undefined behaviour, and only frames that passed the
-- checks, also when the header was saved between two calls.
use yawc.Shared.{
  ℕ, suc, ◌+◌, ◌≤◌, ◌≡◌, refl, ap, sym, ◌∙◌, Bool, true, Option, none, some, List, [], ◌∷◌, length,
  take, drop, length-take, arith, ltb, not, bit_and, ◌==◌, if◌then◌else◌, Bool-cases, Option-cases,
  inl, inr, subst,
}
use yawc.Error.{Result-cases}
use yawc.Frame.{OpCode, Frame, MaskKey, bit, is_some, try_from}
use yawc.Mask.{Platform, Aligns}
use yawc.Mask.Lengths.{length-mask_buffer}
use yawc.Codec.{
  Role, server, client, Decoder, ReadState, Outcome, frame, more, fail, undefined, Decoded, decoded,
  take_payload, resume, extra_of, header_error, read_payload, check_header, read_header,
  parse_header, start, decode, new_state, new_decoder,
}
use yawc.Codec.Headers.{IsAccepted, header_error-none_iff}
use yawc.Codec.Feed.{decode_idle, decode_saved, resume-new_state, read_length-feed, read_mask-feed}

-- A header that passed the checks, as it is saved.
pub record IsSaved (max : ℕ) (s : ReadState) : Type 0 where
  pub fin : Bool
  pub rsv1 : Bool
  pub opcode : OpCode
  pub mask : Option MaskKey
  pub len : ℕ
  pub packed : s ≡ new_state fin rsv1 opcode mask len
  pub passed : header_error opcode fin len max ≡ none

-- The decoder's invariant: it is idle or holds such a header.
abbrev StateIsSaved : ℕ → Option ReadState → Type 0
StateIsSaved max none = Unit {0}
StateIsSaved max (some s) = IsSaved max s

abbrev pub IsWellFormed : Decoder → Type 0
IsWellFormed d = StateIsSaved d.max_payload_size d.state

-- What holds of a frame that a decoder with this role and limit returns: its header passes the
-- checks for the payload that it carries, and a server has seen a key.
abbrev pub IsChecked : Role → ℕ → Frame → Type 0
IsChecked role max f =
    IsAccepted max f.opcode f.fin (length f.payload) × (role ≡ server → is_some f.mask ≡ true)

abbrev OutcomeIsSound : Decoder → Outcome → Type 0
OutcomeIsSound d (frame f) = IsChecked d.role d.max_payload_size f
OutcomeIsSound d more = Unit {0}
OutcomeIsSound d (fail e) = Unit {0}
OutcomeIsSound d undefined = ⊥

-- A call keeps the invariant, the role and the limit, and has a sound outcome.
pub record IsSound (d : Decoder) (r : Decoded) : Type 0 where
  pub well_formed : IsWellFormed r.decoder
  pub same_role : r.decoder.role ≡ d.role
  pub same_max : r.decoder.max_payload_size ≡ d.max_payload_size
  pub sound : OutcomeIsSound d r.outcome

module _ (at : Platform) (aligned : Aligns at) (role : Role) (max : ℕ) where
  abbrev d : Decoder
  d = new_decoder role max

  kept : (o : Outcome) (src : List ℕ) → OutcomeIsSound d o → IsSound d (decoded o d src)
  kept o src h = record { well_formed = tt; same_role = refl; same_max = refl; sound = h }

module _ (at : Platform) (aligned : Aligns at) (max : ℕ) (fin rsv1 : Bool) (opcode : OpCode)
    (len : ℕ) (src : List ℕ) (enough : len ≤ length src)
    (passed : header_error opcode fin len max ≡ none) where
  accepted : IsAccepted max opcode fin len
  accepted = (header_error-none_iff opcode fin len max).0 passed

  size : length (take len src) ≡ len
  size = omega (arith, length-take len src)

  take_payload-IsSound :
      (role : Role) (mask : Option MaskKey)
      → IsSound
          (new_decoder role max)
          (take_payload at (new_decoder role max) fin rsv1 opcode mask len src)
  unfolding take_payload
  take_payload-IsSound client mask =
      kept at aligned client max _ (drop len src) (rw size accepted, λ e. cc)
  take_payload-IsSound server none = kept at aligned server max _ src tt
  take_payload-IsSound server (some key) =
      kept at aligned server max _ (drop len src)
        (rw (length-mask_buffer at key (take len src) aligned, size) accepted, λ e. refl)

module _ (at : Platform) (aligned : Aligns at) (role : Role) (max : ℕ) where
  abbrev idle : Decoder
  idle = new_decoder role max

  read_payload-IsSound :
      (fin rsv1 : Bool) (opcode : OpCode) (mask : Option MaskKey) (len : ℕ) (src : List ℕ)
      → header_error opcode fin len max ≡ none
      → IsSound idle (read_payload at idle fin rsv1 opcode mask len src)
  read_payload-IsSound fin rsv1 opcode mask len src passed =
      elim (Bool-cases (ltb (length src) len)) [
        | inl waits ↦
            unfold read_payload in
            rw waits (record {
              well_formed = record {
                fin = fin;
                rsv1 = rsv1;
                opcode = opcode;
                mask = mask;
                len = len;
                packed = refl;
                passed = passed;
              };
              same_role = refl;
              same_max = refl;
              sound = tt;
            })
        | inr whole ↦
            unfold read_payload in
            rw whole (
              take_payload-IsSound at aligned max fin rsv1 opcode len src (ground arith) passed role
                mask)
      ]

  check_header-IsSound :
      (fin rsv1 : Bool) (opcode : OpCode) (mask : Option MaskKey) (len : ℕ) (src : List ℕ)
      → IsSound idle (check_header at idle fin rsv1 opcode mask len src)
  check_header-IsSound fin rsv1 opcode mask len src =
      elim (Option-cases (header_error opcode fin len max)) [
        | inl passed ↦
            unfold check_header in
            rw (passed, check_header) (read_payload-IsSound fin rsv1 opcode mask len src passed)
        | inr (e, bad) ↦
            unfold check_header in rw (bad, check_header) (kept at aligned role max (fail e) src tt)
      ]

  read_header-IsSound :
      (fin rsv1 : Bool) (opcode : OpCode) (has_mask : Bool) (code : ℕ) (src : List ℕ)
      → extra_of code + bit has_mask 4 ≤ length src
      → IsSound idle (read_header at idle fin rsv1 opcode has_mask code src)
  read_header-IsSound fin rsv1 opcode has_mask code src h =
      let (len, rest, now, size, later) = read_length-feed code src (omega arith) in
      let (mask, rest', now', later') = read_mask-feed has_mask rest (omega arith) in
      unfold read_header in
      rw (now, now', read_header) (check_header-IsSound fin rsv1 opcode mask len rest')

  parse_header-IsSound :
      (b0 b1 : ℕ) (rest : List ℕ) → IsSound idle (parse_header at idle b0 b1 rest)
  parse_header-IsSound b0 b1 rest = elim (Bool-cases (bit_and b0 0x30 == 0)) [
    | inr reserved ↦
        unfold parse_header in
        rw (reserved, parse_header) (kept at aligned role max (fail _) (b0 ∷ b1 ∷ rest) tt)
    | inl zeroed ↦ elim (Result-cases (try_from (bit_and b0 0x0f))) [
      | inr (e, bad) ↦
          unfold parse_header in
          rw (zeroed, bad, parse_header) (kept at aligned role max (fail e) (b0 ∷ b1 ∷ rest) tt)
      | inl (opcode, good) ↦ unfold parse_header in rw (zeroed, good, parse_header) (counted opcode)
    ]
  ]
    where
      code : ℕ
      code = bit_and b1 0x7f

      has_mask : Bool
      has_mask = not (bit_and b1 0x80 == 0)

      counted :
          (opcode : OpCode)
          → IsSound idle (
              if ltb (suc (suc (length rest))) (2 + extra_of code + bit has_mask 4)
              then decoded more idle (b0 ∷ b1 ∷ rest)
              else read_header at idle
                  (not (bit_and b0 0x80 == 0))
                  (not (bit_and b0 0x40 == 0))
                  opcode
                  has_mask
                  code
                  rest)
      counted opcode =
          elim (Bool-cases (ltb (suc (suc (length rest))) (2 + extra_of code + bit has_mask 4))) [
            | inl short ↦ rw short (kept at aligned role max more (b0 ∷ b1 ∷ rest) tt)
            | inr whole ↦
                rw whole (read_header-IsSound _ _ opcode has_mask code rest (ground arith))
          ]

  start-IsSound : (src : List ℕ) → IsSound idle (start at idle src)
  unfolding start
  start-IsSound (b0 ∷ b1 ∷ rest) = parse_header-IsSound b0 b1 rest
  start-IsSound (b0 ∷ []) = kept at aligned role max more (b0 ∷ []) tt
  start-IsSound [] = kept at aligned role max more [] tt

  saved-IsSound :
      (s : ReadState) (src : List ℕ)
      → IsSaved max s
      → IsSound (record idle { state = some s }) (decode at (record idle { state = some s }) src)
  saved-IsSound s src w =
      let held : Decoder = record idle { state = some s } in
      let resumed : decode at held src
          ≡ read_payload at idle w.fin w.rsv1 w.opcode w.mask w.len src =
        decode_saved at held s refl src
        ∙ ap (λ t. resume at (record idle { state = some t }) t src) w.packed
        ∙ resume-new_state at idle w.fin w.rsv1 w.opcode w.mask w.len src refl in
      let after = read_payload-IsSound w.fin w.rsv1 w.opcode w.mask w.len src w.passed in
      rw resumed (record {
        well_formed = after.well_formed;
        same_role = after.same_role;
        same_max = after.same_max;
        sound = after.sound;
      })

-- Every call of `decode` on a decoder that is idle or holds a checked header leaves such a decoder
-- with the same role and limit, and never meets undefined behaviour or a panic. A frame that it
-- returns has passed the checks for the payload it carries: a control frame is final, a ping has
-- at most 125 bytes, the payload is shorter than the limit, and at a server it came with a key.
pub decode-IsSound :
    (at : Platform) (d : Decoder) (src : List ℕ)
    → Aligns at
    → IsWellFormed d
    → IsSound d (decode at d src)
decode-IsSound at d src aligned w = elim (Option-cases d.state) [
  | inl none_held ↦
      subst (λ x. IsSound x (decode at x src)) (λ i. record d { state = sym none_held i })
        (rw (decode_idle at (new_decoder d.role d.max_payload_size) refl src)
          (start-IsSound at aligned d.role d.max_payload_size src))
  | inr (s, held) ↦
      subst (λ x. IsSound x (decode at x src)) (λ i. record d { state = sym held i })
        (saved-IsSound at aligned d.role d.max_payload_size s src
          (subst (StateIsSaved d.max_payload_size) held w))
]
