-- ===== src/Halves/Messages.antt =====
-- Compression across the fragments of a message, for the read half of src/native/split.rs.
use yawc.Shared.{
  if◌then◌else◌, ap₂, ◌≡◌, refl, Bool, true, false, ◌||◌, Option, none, some, List, [], ◌∷◌, arith,
}
use yawc.Frame.{Frame, continuation, text, binary, is_control, same_op}
use yawc.Halves.{ReadHalf, receive, next_compressed}

-- RFC 7692, section 6.1, beside the fragment rules of RFC 6455: between messages, or within one
-- whose first frame had RSV1 as given. Only that frame has RSV1, and control frames may stand
-- anywhere.
pub data Follows : Option Bool → Frame → Option Bool → Type 0 where
  control :
      {m : Option Bool} {f : Frame}
      → is_control f.opcode ≡ true
      → f.is_compressed ≡ false
      → Follows m f m
  whole_text : {f : Frame} → f.opcode ≡ text → f.fin ≡ true → Follows none f none
  whole_binary : {f : Frame} → f.opcode ≡ binary → f.fin ≡ true → Follows none f none
  first_text : {f : Frame} → f.opcode ≡ text → f.fin ≡ false → Follows none f (some f.is_compressed)
  first_binary :
      {f : Frame} → f.opcode ≡ binary → f.fin ≡ false → Follows none f (some f.is_compressed)
  middle :
      {b : Bool} {f : Frame}
      → f.opcode ≡ continuation
      → f.fin ≡ false
      → f.is_compressed ≡ false
      → Follows (some b) f (some b)
  last :
      {b : Bool} {f : Frame}
      → f.opcode ≡ continuation
      → f.fin ≡ true
      → f.is_compressed ≡ false
      → Follows (some b) f none

-- Within a compressed message.
abbrev pub within : Option Bool → Bool
within none = false
within (some b) = b

-- What the application must see as compressed: control frames never, the frames of a message as
-- its first frame says.
abbrev pub expected : Option Bool → Frame → Bool
expected m f = if is_control f.opcode then false else f.is_compressed || within m

receive-flag :
    {m m' : Option Bool} {f : Frame} (r : ReadHalf)
    → Follows m f m'
    → r.compressed_stream ≡ within m
    → ((receive r f).0.is_compressed ≡ expected m f)
      × ((receive r f).1.compressed_stream ≡ within m')
unfolding receive next_compressed is_control same_op
receive-flag r (control c p) h = ground (arith, c, p, h)
receive-flag r (whole_text o p) h = ground (arith, o, p, h)
receive-flag r (whole_binary o p) h = ground (arith, o, p, h)
receive-flag r (first_text o p) h = ground (arith, o, p, h)
receive-flag r (first_binary o p) h = ground (arith, o, p, h)
receive-flag r (middle o p q) h = ground (arith, o, p, q, h)
receive-flag r (last o p q) h = ground (arith, o, p, q, h)

-- A sequence of frames that a peer may send, from one state of the rules to another.
pub data Conversation : Option Bool → List Frame → Option Bool → Type 0 where
  over : {m : Option Bool} → Conversation m [] m
  onward :
      {m m' m'' : Option Bool} {f : Frame} {fs : List Frame}
      → Follows m f m'
      → Conversation m' fs m''
      → Conversation m (f ∷ fs) m''

-- The flags that the application must see along it.
abbrev pub expected_flags :
    {m m' : Option Bool} {fs : List Frame} → Conversation m fs m' → List Bool
expected_flags over = []
expected_flags (onward {m} {m'} {m''} {f} {fs} step rest) = expected m f ∷ expected_flags rest

-- The flags that the read half reports for frames that come one after another, and its state then.
abbrev pub received_flags : ReadHalf → List Frame → List Bool
received_flags r [] = []
received_flags r (f ∷ fs) = (receive r f).0.is_compressed ∷ received_flags (receive r f).1 fs

abbrev pub after : ReadHalf → List Frame → ReadHalf
after r [] = r
after r (f ∷ fs) = after (receive r f).1 fs

-- The read half reports every frame of a message as compressed exactly when the first frame of the
-- message had RSV1, and control frames between them as not compressed, along every sequence of
-- frames that keeps the rules; afterwards its flag says whether it is within a compressed message.
pub received_flags-expected :
    {m m' : Option Bool} {fs : List Frame} (r : ReadHalf) (c : Conversation m fs m')
    → r.compressed_stream ≡ within m
    → (received_flags r fs ≡ expected_flags c) × ((after r fs).compressed_stream ≡ within m')
received_flags-expected r over h = (refl, h)
received_flags-expected r (onward step rest) h =
    let (flag, next) = receive-flag r step h in
    let (flags, final) = received_flags-expected (receive r _).1 rest next in
    (ap₂ (λ (b : Bool) (bs : List Bool). b ∷ bs) flag flags, final)
