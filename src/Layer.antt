-- ===== src/Layer.antt =====
-- src/native/mod.rs, `FragmentLayer`: splitting outgoing frames and assembling incoming messages.
-- `Instant::now()` is the argument `now`, in the unit of the timeout; `usize` is 64 bits wide, and
-- the sum of two lengths of byte strings in memory fits in it.
pub mod Messages
pub mod Bounds
pub mod RoundTrip
use yawc.Shared.{
  ℕ, ◌+◌, ◌-◌, ◌^◌, Bool, true, false, ◌&&◌, not, Option, none, some, List, [], ◌∷◌, ◌++◌, length,
  ltb, leb, if◌then◌else◌,
}
use yawc.Error.{Result, ok, err, invalid_fragment, frame_too_large, fragment_timeout}
use yawc.Frame.{
  Frame, OpCode, continuation, text, binary, close, ping, pong, into_fragments, is_some,
}

pub record FragmentationState : Type 0 where
  pub started : ℕ
  pub opcode : OpCode
  pub is_compressed : Bool
  pub bytes_read : ℕ

pub record FragmentLayer : Type 0 where
  pub outgoing_fragments : List Frame
  pub incoming_fragment : Option FragmentationState
  pub incoming_buffer : List ℕ
  pub fragment_size : Option ℕ
  pub max_read_buffer : ℕ
  pub fragment_timeout : Option ℕ

-- `FragmentLayer::new`.
abbrev pub new_layer : Option ℕ → ℕ → Option ℕ → FragmentLayer
new_layer size max timeout = record {
  outgoing_fragments = [];
  incoming_fragment = none;
  incoming_buffer = [];
  fragment_size = size;
  max_read_buffer = max;
  fragment_timeout = timeout;
}

-- The layer with the new fragments queued, the panic on a manual fragment, or a loop that collects
-- fragments for ever.
pub data Queued : Type 0 where
  queued : FragmentLayer → Queued
  panics endless : Queued

abbrev pub unwrap_or_max : Option ℕ → ℕ
unwrap_or_max none = 2 ^ 64 - 1
unwrap_or_max (some n) = n

-- `fragment_outgoing`.
unfoldable pub fragment_outgoing : FragmentLayer → Frame → Queued
fragment_outgoing l f =
    if not f.fin && is_some l.fragment_size
    then panics
    else elim (into_fragments f (unwrap_or_max l.fragment_size)) [
      | none ↦ endless
      | some fs ↦ queued (record l { outgoing_fragments = l.outgoing_fragments ++ fs })
    ]

-- `pop_outgoing_fragment`.
unfoldable pub pop_outgoing_fragment : FragmentLayer → Option Frame × FragmentLayer
pop_outgoing_fragment l = elim l.outgoing_fragments [
  | [] ↦ (none, l)
  | f ∷ fs ↦ (some f, record l { outgoing_fragments = fs })
]

-- `has_outgoing_fragments`.
unfoldable pub has_outgoing_fragments : FragmentLayer → Bool
has_outgoing_fragments l = elim l.outgoing_fragments [ [] ↦ false | f ∷ fs ↦ true ]

-- `remaining_read_capacity`.
unfoldable pub remaining_read_capacity : FragmentLayer → ℕ
remaining_read_capacity l = elim l.incoming_fragment [
  | none ↦ l.max_read_buffer
  | some st ↦ l.max_read_buffer - st.bytes_read
]

-- `fragment.started.elapsed() > timeout`, which does not go below 0.
unfoldable pub timed_out : Option ℕ → ℕ → ℕ → Bool
timed_out none started now = false
timed_out (some timeout) started now = ltb timeout (now - started)

-- A text or binary frame.
unfoldable pub begin_message : ℕ → FragmentLayer → Frame → Result (Option Frame) × FragmentLayer
begin_message now l f =
    if is_some l.incoming_fragment
    then (err invalid_fragment, l)
    else if not f.fin
    then (
      ok none,
      record l {
        incoming_buffer = f.payload;
        incoming_fragment = some (record {
          started = now;
          opcode = f.opcode;
          is_compressed = f.is_compressed;
          bytes_read = length f.payload;
        });
      },
    )
    else (ok (some f), l)

-- A continuation of the message `st`, which was taken out of the layer.
unfoldable pub continue_message :
    ℕ → FragmentLayer → FragmentationState → Frame → Result (Option Frame) × FragmentLayer
continue_message now l st f =
    let bytes_read = st.bytes_read + length f.payload in
    let taken = record l { incoming_fragment = none } in
    let buffer = l.incoming_buffer ++ f.payload in
    if leb l.max_read_buffer bytes_read
    then (err frame_too_large, taken)
    else if timed_out l.fragment_timeout st.started now
    then (err fragment_timeout, taken)
    else if f.fin
    then (
      ok (
          some
            (record f { opcode = st.opcode; is_compressed = st.is_compressed; payload = buffer })),
      record taken { incoming_buffer = [] },
    )
    else (
      ok none,
      record l {
        incoming_buffer = buffer;
        incoming_fragment = some (record st { bytes_read = bytes_read });
      },
    )

-- `assemble_incoming`.
unfoldable pub assemble_incoming : ℕ → FragmentLayer → Frame → Result (Option Frame) × FragmentLayer
unfolding begin_message continue_message
assemble_incoming now l f = elim f.opcode [
  | text ↦ begin_message now l f
  | binary ↦ begin_message now l f
  | continuation ↦ elim l.incoming_fragment [
    | none ↦ (err invalid_fragment, l)
    | some st ↦ continue_message now l st f
  ]
  | close ↦ (ok (some f), l)
  | ping ↦ (ok (some f), l)
  | pong ↦ (ok (some f), l)
]
