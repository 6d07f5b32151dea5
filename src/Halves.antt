-- ===== src/Halves.antt =====
-- src/native/split.rs: the read half and the write half of a connection. The stream below them is
-- any stream of frames, so its operations are fields of `FrameSink` and an argument `poll_next`;
-- what a call returns stands beside the state that it leaves.
pub mod Messages
pub mod Closing
use yawc.Shared.{
  ℕ, zero, suc, if◌then◌else◌, ◌≡◌, Bool, true, false, ◌&&◌, ◌||◌, not, Option, none, some, List,
  [], ◌∷◌, ◌++◌,
}
use yawc.Error.{WebSocketError, connection_closed, Result, ok, err, Poll, ready, pending}
use yawc.Close
use yawc.Frame.{Frame, OpCode, continuation, text, binary, close, is_control, same_op, close_frame}

pub record ReadHalf : Type 0 where
  pub compressed_stream : Bool
  pub is_closed : Bool

-- `ReadHalf::new`.
abbrev pub new_read_half : ReadHalf
new_read_half = record { compressed_stream = false; is_closed = false }

-- The flag of the connection that a frame leaves behind.
unfoldable pub next_compressed : Bool → OpCode → Bool → Bool → Bool
next_compressed stream opcode fin compressed =
    let began =
      if (same_op opcode text || same_op opcode binary) && (not fin && compressed)
      then true
      else stream in
    if same_op opcode continuation && fin then false else began

-- `Ok(mut frame)`: the mask is dropped, and the frame is compressed by its own flag or, if it is no
-- control frame, by that of the message around it.
unfoldable pub receive : ReadHalf → Frame → Frame × ReadHalf
unfolding next_compressed
receive r f =
    let compressed = f.is_compressed || (not (is_control f.opcode) && r.compressed_stream) in
    (
      record f { mask = none; is_compressed = compressed },
      record {
        compressed_stream = next_compressed r.compressed_stream f.opcode f.fin compressed;
        is_closed = if same_op f.opcode close then true else r.is_closed;
      },
    )

-- What the stream had ready: a frame, an error, or its end.
unfoldable pub on_item : ReadHalf → Option (Result Frame) → Result Frame × ReadHalf
on_item r none = (err connection_closed, record r { is_closed = true })
on_item r (some (err e)) = (err e, r)
on_item r (some (ok f)) = (ok (receive r f).0, (receive r f).1)

-- `ReadHalf::poll_frame`.
unfoldable pub poll_frame :
    {S : Type 0}
    → (S → Poll (Option (Result Frame)) × S)
    → ReadHalf
    → S
    → Poll (Result Frame) × (ReadHalf × S)
poll_frame poll_next r s =
    if r.is_closed
    then (ready (err connection_closed), (r, s))
    else let (got, s') = poll_next s in
      elim got [
        | pending ↦ (pending, (r, s'))
        | ready item ↦ (ready (on_item r item).0, ((on_item r item).1, s'))
      ]

-- `Sink<Frame>`, with the frames that it has accepted so far. A call of `poll_ready`, `poll_flush`
-- or `poll_close` accepts none, and `start_send` accepts its frame unless it returns an error.
pub record FrameSink (S : Type 0) : Type 0 where
  pub poll_ready : S → Poll (Result (Unit {0})) × S
  pub start_send : S → Frame → Result (Unit {0}) × S
  pub poll_flush : S → Poll (Result (Unit {0})) × S
  pub poll_close : S → Poll (Result (Unit {0})) × S
  pub sent : S → List Frame
  pub poll_ready-sent : (s : S) → sent (poll_ready s).1 ≡ sent s
  pub poll_flush-sent : (s : S) → sent (poll_flush s).1 ≡ sent s
  pub poll_close-sent : (s : S) → sent (poll_close s).1 ≡ sent s
  pub start_send-ok :
      (s : S) (f : Frame)
      → (start_send s f).0 ≡ ok tt
      → sent (start_send s f).1 ≡ sent s ++ (f ∷ [])

pub data CloseState : Type 0 where
  sending : Frame → CloseState
  flushing closing done : CloseState

pub record WriteHalf : Type 0 where
  pub streaming : Bool
  pub close_state : Option CloseState

-- `WriteHalf::new`.
abbrev pub new_write_half : WriteHalf
new_write_half = record { streaming = false; close_state = none }

abbrev pub is_done : Option CloseState → Bool
is_done (some done) = true
is_done _ = false

abbrev pub is_pending {ℓ} : {A : Type ℓ} → Poll A → Bool
is_pending pending = true
is_pending (ready a) = false

-- What a send changes in the half before the sink sees the frame.
unfoldable pub noted : WriteHalf → Frame → WriteHalf
noted w f = record {
  streaming = if is_control f.opcode then w.streaming else not f.fin;
  close_state = if same_op f.opcode close then some flushing else w.close_state;
}

-- One round of the loop in `poll_close`: it goes round again, or it breaks with a result.
pub data Round (S : Type 0) : Type 0 where
  again : WriteHalf → S → Round S
  leave : Poll (Result (Unit {0})) → WriteHalf → S → Round S

-- A half whose closing has come to `c`.
abbrev pub at_state : WriteHalf → CloseState → WriteHalf
at_state w c = record w { close_state = some c }

module _ {S : Type 0} (sink : FrameSink S) where
  -- `WriteHalf::poll_ready`.
  unfoldable pub poll_ready : WriteHalf → S → Poll (Result (Unit {0})) × S
  poll_ready w s =
      if is_done w.close_state then (ready (err connection_closed), s) else sink.poll_ready s

  -- `WriteHalf::start_send`.
  unfoldable pub start_send : WriteHalf → Frame → S → Result (Unit {0}) × (WriteHalf × S)
  unfolding noted
  start_send w f s = ((sink.start_send s f).0, (noted w f, (sink.start_send s f).1))

  -- `WriteHalf::poll_flush`.
  unfoldable pub poll_flush : S → Poll (Result (Unit {0})) × S
  poll_flush s = sink.poll_flush s

  -- The frame goes to the sink once that is not pending; `?` leaves with the state taken.
  unfoldable pub send_close : WriteHalf → Frame → S → Round S
  send_close w f s =
      if is_pending (sink.poll_ready s).0
      then leave pending (at_state w (sending f)) (sink.poll_ready s).1
      else let (started, s') = sink.start_send (sink.poll_ready s).1 f in
        elim started [
          | ok u ↦ again (at_state w flushing) s'
          | err e ↦ leave (ready (err e)) (record w { close_state = none }) s'
        ]

  unfoldable pub close_round : WriteHalf → S → Round S
  unfolding send_close
  close_round w s = elim w.close_state [
    | none ↦ again (at_state w (sending (close_frame Close.normal []))) s
    | some (sending f) ↦ send_close w f s
    | some flushing ↦
        (if is_pending (sink.poll_flush s).0
          then leave pending (at_state w flushing) (sink.poll_flush s).1
          else again (at_state w closing) (sink.poll_flush s).1)
    | some closing ↦
        (if is_pending (sink.poll_close s).0
          then leave pending (at_state w closing) (sink.poll_close s).1
          else again (at_state w done) (sink.poll_close s).1)
    | some done ↦ leave (ready (ok tt)) (record w { close_state = none }) s
  ]

  -- The loop, on fuel.
  unfoldable pub close_loop :
      ℕ → WriteHalf → S → Option (Poll (Result (Unit {0})) × (WriteHalf × S))
  unfolding close_round
  close_loop zero w s = none
  close_loop (suc fuel) w s = elim (close_round w s) [
    | leave result w' s' ↦ some (result, (w', s'))
    | again w' s' ↦ close_loop fuel w' s'
  ]

  -- `WriteHalf::poll_close`. A round moves on to the next of the five states or breaks, so five
  -- rounds are enough.
  unfoldable pub poll_close : WriteHalf → S → Option (Poll (Result (Unit {0})) × (WriteHalf × S))
  unfolding close_loop
  poll_close w s = close_loop 5 w s
