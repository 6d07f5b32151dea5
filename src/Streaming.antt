-- ===== src/Streaming.antt =====
-- src/native/streaming.rs: a connection frame by frame. What it is built on is a record `Env`: the
-- `Framed` of tokio-util, the DEFLATE streams and the texts that the error type derives. The wake
-- proxy only decides which task is woken, so a call through it is the call itself.
pub mod Replies
pub mod Flushing
pub mod Closed
pub mod Ends
pub mod Limits
pub mod Sending
pub mod Compressing
use yawc.Shared.{
  ℕ, ◌+◌, ◌*◌, ◌≤◌, min, max, ◌≡◌, Bool, true, false, ◌&&◌, ◌||◌, not, Option, none, some, List, [],
  ◌∷◌, ◌++◌, length, ltb, leb, if◌then◌else◌,
}
use yawc.Error.{
  WebSocketError, Result, ok, err, ◌>>=◌, Poll, ready, pending, connection_closed, frame_too_large,
  invalid_utf8, invalid_op_code, reserved_bits_not_zero, control_frame_fragmented,
  ping_frame_too_large, invalid_fragment, invalid_close_frame, invalid_close_code, fragment_timeout,
  invalid_continuation_frame, compression_not_supported,
}
use yawc.Close
use yawc.Close.{CloseCode}
use yawc.Frame.{
  Frame, OpCode, continuation, text, binary, close, ping, pong, is_control, same_op, pong_frame,
  close_raw, close_frame, close_code, close_reason,
}
use yawc.Halves
use yawc.Halves.{ReadHalf, WriteHalf, FrameSink, poll_frame}

-- `Framed<S, Codec>` of tokio-util with its buffers, the compressor `C`, the decompressor `D`,
-- `to_string` of an error and `std::str::from_utf8`. Reading and resizing a buffer send nothing.
pub record Env (S C D : Type 0) : Type 0 where
  pub sink : FrameSink S
  pub poll_next : S → Poll (Option (Result Frame)) × S
  pub read_buffer_len : S → ℕ
  pub write_buffer_len : S → ℕ
  pub backpressure_boundary : S → ℕ
  pub set_read_capacity : ℕ → S → S
  pub set_write_capacity : ℕ → S → S
  pub poll_next-sent : (s : S) → sink.sent (poll_next s).1 ≡ sink.sent s
  pub set_read_capacity-sent : (n : ℕ) (s : S) → sink.sent (set_read_capacity n s) ≡ sink.sent s
  pub set_write_capacity-sent : (n : ℕ) (s : S) → sink.sent (set_write_capacity n s) ≡ sink.sent s
  pub compress : C → List ℕ → Bool → Result (List ℕ) × C
  pub decompress : D → List ℕ → Bool → ℕ → Result (List ℕ) × D
  pub describe : WebSocketError → List ℕ
  pub is_utf8 : List ℕ → Bool

-- The fields of `Streaming` but the wake proxy.
pub record Streaming (S C D : Type 0) : Type 0 where
  pub stream : S
  pub read_half : ReadHalf
  pub write_half : WriteHalf
  pub obligated_sends : List Frame
  pub flush_sends : Bool
  pub deflate : Option C
  pub inflate : Option D
  pub max_payload_read : ℕ
  pub compression_threshold : ℕ
  pub read_buffer_capacity : ℕ
  pub write_buffer_capacity : ℕ
  pub write_buffer_grown : Bool

abbrev pub null {ℓ} : {A : Type ℓ} → List A → Bool
null [] = true
null (x ∷ xs) = false

-- The close code for an error.
unfoldable pub code_for : WebSocketError → CloseCode
code_for frame_too_large = Close.size
code_for invalid_utf8 = Close.invalid
code_for (invalid_op_code b) = Close.unsupported
code_for reserved_bits_not_zero = Close.protocol
code_for control_frame_fragmented = Close.protocol
code_for ping_frame_too_large = Close.protocol
code_for invalid_fragment = Close.protocol
code_for invalid_close_frame = Close.protocol
code_for invalid_close_code = Close.protocol
code_for fragment_timeout = Close.protocol
code_for invalid_continuation_frame = Close.protocol
code_for compression_not_supported = Close.protocol
code_for _ = Close.error

-- The checks of `on_close`. With two bytes there is a code, so its `expect` holds.
unfoldable pub check_close : (List ℕ → Bool) → Frame → Result (Unit {0})
check_close is_utf8 f = elim f.payload [
  | [] ↦ ok tt
  | a ∷ [] ↦ err invalid_close_frame
  | a ∷ b ∷ reason ↦ elim (close_reason is_utf8 f) [
    | err e ↦ err e
    | ok r ↦
        (if Close.is_allowed (Close.from_u16 (a * 256 + b)) then ok tt else err invalid_close_code)
  ]
]

-- The limit on what one frame may inflate to.
unfoldable pub max_output_size : ℕ → Frame → ℕ → ℕ
max_output_size max_payload_read f max_read_buffer =
    if not f.fin || same_op f.opcode continuation
    then min max_payload_read max_read_buffer
    else max_payload_read

-- `payload.len() >= max_output_size`.
unfoldable pub check_size : ℕ → Frame → Result Frame
check_size limit f = if leb limit (length f.payload) then err frame_too_large else ok f

module _ {S C D : Type 0} (env : Env S C D) where
  unfoldable pub release_read_buffer : Streaming S C D → ℕ → Streaming S C D
  release_read_buffer st frame_len =
      if ltb st.read_buffer_capacity frame_len
        && leb (env.read_buffer_len st.stream) st.read_buffer_capacity
      then record st { stream = env.set_read_capacity st.read_buffer_capacity st.stream }
      else st

  unfoldable pub release_write_buffer : Streaming S C D → Streaming S C D
  release_write_buffer st =
      if st.write_buffer_grown && leb (env.write_buffer_len st.stream) 0
      then record st {
        stream = env.set_write_capacity st.write_buffer_capacity st.stream;
        write_buffer_grown = false;
      }
      else st

  -- `on_ping` and `emit_close`.
  unfoldable pub on_ping : Streaming S C D → Frame → Streaming S C D
  on_ping st f = record st { obligated_sends = st.obligated_sends ++ (pong_frame f.payload ∷ []) }

  unfoldable pub emit_close : Streaming S C D → Frame → Streaming S C D
  emit_close st f = record st {
    obligated_sends = st.obligated_sends ++ (f ∷ []);
    read_half = record st.read_half { is_closed = true };
  }

  unfoldable pub on_close : Streaming S C D → Frame → Result (Unit {0}) × Streaming S C D
  unfolding check_close emit_close
  on_close st f = elim (check_close env.is_utf8 f) [
    | err e ↦ (err e, st)
    | ok u ↦ (ok tt, emit_close st (close_raw f.payload))
  ]

  -- A data frame: inflated if it is compressed, and then held against the limit.
  unfoldable pub on_data : Streaming S C D → Frame → ℕ → Result Frame × Streaming S C D
  unfolding check_size
  on_data st f limit =
      if f.is_compressed
      then elim st.inflate [
        | none ↦ (err compression_not_supported, st)
        | some d ↦
            let (inflated, d') = env.decompress d f.payload f.fin limit in
            let st' = record st { inflate = some d' } in
            elim inflated [
              | err e ↦ (err e, st')
              | ok p ↦ (check_size limit (record f { payload = p; is_compressed = false }), st')
            ]
      ]
      else (check_size limit f, st)

  -- `on_frame`.
  unfoldable pub on_frame : Streaming S C D → Frame → ℕ → Result Frame × Streaming S C D
  unfolding on_ping on_close on_data max_output_size
  on_frame st f max_read_buffer =
      let message = on_data st f (max_output_size st.max_payload_read f max_read_buffer) in
      elim f.opcode [
        | ping ↦ (ok f, on_ping st f)
        | close ↦
            let (checked, st') = on_close st f in
            elim checked [ err e ↦ (err e, st') | ok u ↦ (ok f, st') ]
        | pong ↦ (ok f, st)
        | text ↦ message
        | binary ↦ message
        | continuation ↦ message
      ]

  -- `while !self.obligated_sends.is_empty()`, on the frames that are left.
  unfoldable pub drain : List Frame → Streaming S C D → Poll (Result (Unit {0})) × Streaming S C D
  drain [] st = (ready (ok tt), record st { obligated_sends = [] })
  drain (f ∷ fs) st =
      let (now, s) = Halves.poll_ready env.sink st.write_half st.stream in
      let (started, (w, s')) = Halves.start_send env.sink st.write_half f s in
      let sent = record st { stream = s'; write_half = w; obligated_sends = fs } in
      let rest = drain fs (record sent { flush_sends = true }) in
      elim now [
        | pending ↦ (pending, record st { stream = s; obligated_sends = f ∷ fs })
        | ready (err e) ↦ (ready (err e), record st { stream = s; obligated_sends = f ∷ fs })
        | ready (ok u) ↦ elim started [ err e ↦ (ready (err e), sent) | ok v ↦ rest ]
      ]

  -- The flush after it.
  unfoldable pub flush_after : Streaming S C D → Poll (Result (Unit {0})) × Streaming S C D
  flush_after st =
      let (flushed, s) = Halves.poll_flush env.sink st.stream in
      if not st.flush_sends then (ready (ok tt), st) else elim flushed [
        | pending ↦ (pending, record st { stream = s })
        | ready (err e) ↦ (ready (err e), record st { stream = s })
        | ready (ok u) ↦ (ready (ok tt), record st { stream = s; flush_sends = false })
      ]

  -- `poll_flush_obligated`; with nothing to send or flush, both parts do nothing.
  unfoldable pub poll_flush_obligated : Streaming S C D → Poll (Result (Unit {0})) × Streaming S C D
  unfolding drain flush_after
  poll_flush_obligated st =
      let (drained, st') = drain st.obligated_sends st in
      elim drained [
        | pending ↦ (pending, st')
        | ready (err e) ↦ (ready (err e), st')
        | ready (ok u) ↦ flush_after st'
      ]

  -- `ready!(self.poll_flush_obligated(..))?`, and then `result`.
  unfoldable pub flush_then :
      Poll (Result Frame) → Streaming S C D → Poll (Result Frame) × Streaming S C D
  unfolding poll_flush_obligated
  flush_then result st =
      let (flushed, st') = poll_flush_obligated st in
      elim flushed [
        | pending ↦ (pending, st')
        | ready (err e) ↦ (ready (err e), st')
        | ready (ok u) ↦ (result, st')
      ]

  -- An error of the stream or of `on_frame`.
  unfoldable pub on_error : WebSocketError → Streaming S C D → Poll (Result Frame) × Streaming S C D
  unfolding flush_then emit_close code_for
  on_error connection_closed st = flush_then (ready (err connection_closed)) st
  on_error e st = (ready (err e), emit_close st (close_frame (code_for e) (env.describe e)))

  -- The frame goes to the caller, an error to `on_error`.
  unfoldable pub conclude : Result Frame → Streaming S C D → Poll (Result Frame) × Streaming S C D
  unfolding on_error
  conclude (ok f) st = (ready (ok f), st)
  conclude (err e) st = on_error e st

  -- A frame that was read.
  unfoldable pub accept : Streaming S C D → Frame → ℕ → Poll (Result Frame) × Streaming S C D
  unfolding on_frame conclude release_read_buffer
  accept st f max_read_buffer =
      let (got, st') = on_frame (release_read_buffer st (length f.payload)) f max_read_buffer in
      conclude got st'

  -- What the read half returned.
  unfoldable pub on_polled :
      Poll (Result Frame) → Streaming S C D → ℕ → Poll (Result Frame) × Streaming S C D
  unfolding accept on_error flush_then
  on_polled pending st max_read_buffer = flush_then pending st
  on_polled (ready (err e)) st max_read_buffer = on_error e st
  on_polled (ready (ok f)) st max_read_buffer = accept st f max_read_buffer

  -- `poll_next_frame_with_limit`.
  unfoldable pub poll_next_frame_with_limit :
      Streaming S C D → ℕ → Poll (Result Frame) × Streaming S C D
  unfolding on_polled
  poll_next_frame_with_limit st max_read_buffer =
      let (polled, (r, s)) = poll_frame env.poll_next st.read_half st.stream in
      on_polled polled (record st { stream = s; read_half = r }) max_read_buffer

  -- `poll_next_frame`.
  unfoldable pub poll_next_frame : Streaming S C D → Poll (Result Frame) × Streaming S C D
  unfolding poll_next_frame_with_limit
  poll_next_frame st = poll_next_frame_with_limit st st.max_payload_read

  -- `Sink::poll_ready`: below the backpressure boundary, with no reply due, the transport is not
  -- polled.
  unfoldable pub poll_ready : Streaming S C D → Poll (Result (Unit {0})) × Streaming S C D
  unfolding poll_flush_obligated
  poll_ready st =
      let (flushed, st') = poll_flush_obligated st in
      let (now, s) = Halves.poll_ready env.sink st.write_half st.stream in
      let (later, s') = Halves.poll_ready env.sink st'.write_half st'.stream in
      if null st.obligated_sends
        && not st.flush_sends
        && ltb (env.write_buffer_len st.stream) (env.backpressure_boundary st.stream)
      then (now, record st { stream = s })
      else elim flushed [
        | pending ↦ (pending, st')
        | ready (err e) ↦ (ready (err e), st')
        | ready (ok u) ↦ (later, record st' { stream = s' })
      ]

  -- Whether a frame is compressed: no control frame, and no small message in one frame.
  unfoldable pub should_compress : ℕ → Frame → Bool
  should_compress threshold f =
      let small_message =
        not (same_op f.opcode continuation) && (f.fin && ltb (length f.payload) threshold) in
      not (is_control f.opcode) && not small_message

  -- The frame as it goes to the write half, and the compressor then.
  unfoldable pub prepare : Streaming S C D → Frame → Result Frame × Streaming S C D
  unfolding should_compress
  prepare st f =
      if should_compress st.compression_threshold f
      then elim st.deflate [
        | none ↦ (ok f, st)
        | some c ↦
            let (output, c') = env.compress c f.payload f.fin in
            let st' = record st { deflate = some c' } in
            elim output [
              | err e ↦ (err e, st')
              | ok p ↦
                  (ok (record f { is_compressed = not st.write_half.streaming; payload = p }), st')
            ]
      ]
      else (ok f, st)

  -- The write half takes the frame, and growth of its buffer is noted.
  unfoldable pub hand_over : Streaming S C D → Frame → Result (Unit {0}) × Streaming S C D
  hand_over st f =
      let (started, (w, s)) = Halves.start_send env.sink st.write_half f st.stream in
      let usual = max st.write_buffer_capacity (env.backpressure_boundary s) in
      let grown = if ltb usual (env.write_buffer_len s) then true else st.write_buffer_grown in
      elim started [
        | err e ↦ (err e, record st { stream = s; write_half = w })
        | ok u ↦ (ok tt, record st { stream = s; write_half = w; write_buffer_grown = grown })
      ]

  -- `Sink::start_send`.
  unfoldable pub start_send : Streaming S C D → Frame → Result (Unit {0}) × Streaming S C D
  unfolding prepare hand_over
  start_send st f =
      let (prepared, st') = prepare st f in
      elim prepared [ err e ↦ (err e, st') | ok g ↦ hand_over st' g ]

  -- `Sink::poll_flush`.
  unfoldable pub poll_flush : Streaming S C D → Poll (Result (Unit {0})) × Streaming S C D
  unfolding release_write_buffer
  poll_flush st =
      let (flushed, s) = Halves.poll_flush env.sink st.stream in
      let st' = record st { stream = s } in
      elim flushed [
        | pending ↦ (pending, st')
        | ready (err e) ↦ (ready (err e), st')
        | ready (ok u) ↦ (ready (ok tt), release_write_buffer st')
      ]

  -- `Sink::poll_close`.
  unfoldable pub poll_close : Streaming S C D → Option (Poll (Result (Unit {0})) × Streaming S C D)
  poll_close st = elim (Halves.poll_close env.sink st.write_half st.stream) [
    | none ↦ none
    | some (result, (w, s)) ↦ some (result, record st { stream = s; write_half = w })
  ]
