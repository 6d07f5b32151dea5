-- ===== src/Layer/Messages.antt =====
-- Reassembly of the messages that a peer may send, by `FragmentLayer` in src/native/mod.rs.
use yawc.Shared.{
  ℕ, ◌+◌, ◌<◌, ◌≡◌, ◌⊎◌, refl, Bool, true, false, Option, none, some, List, [], ◌∷◌, ◌++◌, length,
  length-append, append_assoc, arith, if◌then◌else◌,
}
use yawc.Error.{Result, ok, err}
use yawc.Frame.{Frame, continuation, text, binary, is_control}
use yawc.Layer.{
  FragmentLayer, FragmentationState, assemble_incoming, begin_message, continue_message, timed_out,
}

-- A frame in front of those that come out later.
abbrev pub deliver : Result (Option Frame) → Result (List Frame) → Result (List Frame)
deliver (err e) rest = err e
deliver (ok none) rest = rest
deliver (ok (some f)) (err e) = err e
deliver (ok (some f)) (ok fs) = ok (f ∷ fs)

abbrev pub is_ok {ℓ} : {A : Type ℓ} → Result A → Bool
is_ok (ok a) = true
is_ok (err e) = false

-- Frames that come one after another, frame number `i` at the time `clock i`, until one fails.
unfoldable pub assemble_all :
    (ℕ → ℕ) → ℕ → FragmentLayer → List Frame → Result (List Frame) × FragmentLayer
assemble_all clock i l [] = (ok [], l)
assemble_all clock i l (f ∷ fs) =
    let now = assemble_incoming (clock i) l f in
    let rest = assemble_all clock (i + 1) now.1 fs in
    (deliver now.0 rest.0, if is_ok now.0 then rest.1 else now.1)

-- The frames behind the first fragment of a message, with control frames among them: the last
-- fragment, the bytes that they carry, and the control frames.
pub data Rest : List Frame → Frame → List ℕ → List Frame → Type 0 where
  last : {f : Frame} → f.opcode ≡ continuation → f.fin ≡ true → Rest (f ∷ []) f f.payload []
  middle :
      {f g : Frame} {fs cs : List Frame} {p : List ℕ}
      → f.opcode ≡ continuation
      → f.fin ≡ false
      → Rest fs g p cs
      → Rest (f ∷ fs) g (f.payload ++ p) cs
  between :
      {f g : Frame} {fs cs : List Frame} {p : List ℕ}
      → is_control f.opcode ≡ true
      → Rest fs g p cs
      → Rest (f ∷ fs) g p (f ∷ cs)

-- The message whose last fragment is `g`.
abbrev pub assembled : FragmentationState → Frame → List ℕ → Frame
assembled st g payload = record g {
  opcode = st.opcode;
  is_compressed = st.is_compressed;
  payload = payload;
}

-- What becomes of the rest of a message that the layer `l` has begun.
pub Rest-assembled :
    {fs cs : List Frame} {g : Frame} {p : List ℕ} (clock : ℕ → ℕ) (i : ℕ) (l : FragmentLayer)
    (st : FragmentationState)
    → Rest fs g p cs
    → l.incoming_fragment ≡ some st
    → st.bytes_read + length p < l.max_read_buffer
    → ((j : ℕ) → timed_out l.fragment_timeout st.started (clock j) ≡ false)
    → ((assemble_all clock i l fs).0 ≡ ok (cs ++ (assembled st g (l.incoming_buffer ++ p) ∷ [])))
      × ((assemble_all clock i l fs).1.incoming_fragment ≡ none)
unfolding assemble_all assemble_incoming continue_message is_control
Rest-assembled clock i l st (last {f} o e) begun fits time = ground (arith, o, e, begun, time i)
Rest-assembled clock i l st (middle {f} {g} {fs} {cs} {p} o e rest) begun fits time =
    let next = record st { bytes_read = st.bytes_read + length f.payload } in
    let l' = record l {
      incoming_buffer = l.incoming_buffer ++ f.payload;
      incoming_fragment = some next;
    } in
    let fits' : st.bytes_read + length f.payload + length p < l.max_read_buffer =
      omega (arith, length-append f.payload p) in
    let later = Rest-assembled clock (i + 1) l' next rest refl fits' time in
    ground (arith, o, e, begun, time i, later, append_assoc l.incoming_buffer f.payload p)
Rest-assembled clock i l st (between {f} {g} {fs} {cs} {p} c rest) begun fits time =
    ground (arith, c, Rest-assembled clock (i + 1) l st rest begun fits time)

-- The state that the first fragment of a message leaves.
abbrev pub begun_by : ℕ → Frame → FragmentationState
begun_by now f = record {
  started = now;
  opcode = f.opcode;
  is_compressed = f.is_compressed;
  bytes_read = length f.payload;
}

-- A message of several fragments, with control frames among them, comes out of an idle layer as
-- the control frames in their order and then one frame: the first fragment's opcode and
-- compression flag, and all the payloads in order. This holds while the payloads together are
-- below the limit and no fragment is late.
pub assemble_all-message :
    {fs cs : List Frame} {g : Frame} {p : List ℕ} (clock : ℕ → ℕ) (l : FragmentLayer) (f : Frame)
    → (f.opcode ≡ text) ⊎ (f.opcode ≡ binary)
    → f.fin ≡ false
    → Rest fs g p cs
    → l.incoming_fragment ≡ none
    → length f.payload + length p < l.max_read_buffer
    → ((j : ℕ) → timed_out l.fragment_timeout (clock 0) (clock j) ≡ false)
    → ((assemble_all clock 0 l (f ∷ fs)).0
        ≡ ok (cs ++ (assembled (begun_by (clock 0) f) g (f.payload ++ p) ∷ [])))
      × ((assemble_all clock 0 l (f ∷ fs)).1.incoming_fragment ≡ none)
unfolding assemble_all assemble_incoming begin_message
assemble_all-message clock l f op e rest idle fits time =
    let st = begun_by (clock 0) f in
    let l' = record l { incoming_buffer = f.payload; incoming_fragment = some st } in
    let later = Rest-assembled clock 1 l' st rest refl fits time in
    ground (arith, op, e, idle, later)
