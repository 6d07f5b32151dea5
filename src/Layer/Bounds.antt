-- ===== src/Layer/Bounds.antt =====
-- The memory that an incoming message takes, for `FragmentLayer` in src/native/mod.rs.
use yawc.Shared.{ℕ, ◌<◌, ◌≡◌, false, Option, none, some, length, length-append, arith}
use yawc.Error.{Result, ok}
use yawc.Frame.{Frame, continuation, is_control}
use yawc.Layer.{FragmentLayer, assemble_incoming, begin_message, continue_message}

-- The count of a message under way is the length of its buffer, below the limit.
abbrev pub IsCounted : FragmentLayer → Type 0
IsCounted l = elim l.incoming_fragment [
  | none ↦ Unit
  | some st ↦ (st.bytes_read ≡ length l.incoming_buffer) × (st.bytes_read < l.max_read_buffer)
]

-- What an assembled message may weigh.
abbrev pub Fits : ℕ → Result (Option Frame) → Type 0
Fits max (ok (some f)) = length f.payload < max
Fits max _ = Unit

-- A fragment with a payload below the capacity that is left, which the layer below enforces,
-- keeps the count of the message under way equal to the bytes that are buffered and below the
-- limit, on every branch, errors included; and a message that a continuation completes is below
-- the limit.
pub assemble_incoming-IsCounted :
    (now : ℕ) (l : FragmentLayer) (f : Frame)
    → IsCounted l
    → (is_control f.opcode ≡ false → f.fin ≡ false → length f.payload < l.max_read_buffer)
    → IsCounted (assemble_incoming now l f).1
      × (f.opcode ≡ continuation → Fits l.max_read_buffer (assemble_incoming now l f).0)
unfolding assemble_incoming begin_message continue_message is_control
assemble_incoming-IsCounted now l f c h = (
  ground (arith, length-append l.incoming_buffer f.payload, h),
  λ o. ground (arith, length-append l.incoming_buffer f.payload, h, o),
)
