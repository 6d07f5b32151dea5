-- ===== src/Socket.antt =====
-- src/native/mod.rs, `WebSocket`: whole messages on top of a `Streaming` connection. The clock that
-- the fragment layer reads is an argument.
pub mod Reading
pub mod Progress
pub mod Sending
use yawc.Shared.{
  ℕ, zero, suc, ◌+◌, Bool, true, false, ◌&&◌, not, Option, none, some, List, [], ◌∷◌, if◌then◌else◌,
}
use yawc.Error.{WebSocketError, Result, ok, err, Poll, ready, pending, invalid_utf8}
use yawc.Frame.{Frame, OpCode, text, same_op, is_some}
use yawc.Layer.{
  FragmentLayer, Queued, queued, panics, endless, fragment_outgoing, assemble_incoming,
  remaining_read_capacity,
}
use yawc.Streaming
use yawc.Streaming.{Env, Streaming, poll_next_frame_with_limit}

pub record WebSocket (S C D : Type 0) : Type 0 where
  pub streaming : Streaming S C D
  pub check_utf8 : Bool
  pub fragment_layer : FragmentLayer

-- One round of the loop in `poll_next_frame`: it goes round again, or it breaks with a result.
pub data Turn (S C D : Type 0) : Type 0 where
  again : WebSocket S C D → Turn S C D
  leave : Poll (Result Frame) → WebSocket S C D → Turn S C D

-- What `start_send` does: a result, the panic on a manual fragment, or an endless loop.
pub data Started (S C D : Type 0) : Type 0 where
  started : Result (Unit {0}) → WebSocket S C D → Started S C D
  panicked loops : Started S C D

module _ {S C D : Type 0} (env : Env S C D) where
  -- The UTF-8 check on an assembled text message.
  unfoldable pub check_text : Bool → Frame → Result (Option Frame)
  check_text check_utf8 f =
      if same_op f.opcode text && (check_utf8 && not (env.is_utf8 f.payload))
      then err invalid_utf8
      else ok (some f)

  -- `on_frame`.
  unfoldable pub on_frame : ℕ → WebSocket S C D → Frame → Result (Option Frame) × WebSocket S C D
  unfolding check_text
  on_frame now ws f =
      let (assembled, layer) = assemble_incoming now ws.fragment_layer f in
      let ws' = record ws { fragment_layer = layer } in
      elim assembled [
        | err e ↦ (err e, ws')
        | ok none ↦ (ok none, ws')
        | ok (some g) ↦ (check_text ws.check_utf8 g, ws')
      ]

  -- `match self.on_frame(frame)?`.
  unfoldable pub turn_of : Result (Option Frame) → WebSocket S C D → Turn S C D
  turn_of (err e) ws = leave (ready (err e)) ws
  turn_of (ok none) ws = again ws
  turn_of (ok (some f)) ws = leave (ready (ok f)) ws

  unfoldable pub turn_on : ℕ → Poll (Result Frame) → WebSocket S C D → Turn S C D
  unfolding on_frame turn_of
  turn_on now pending ws = leave pending ws
  turn_on now (ready (err e)) ws = leave (ready (err e)) ws
  turn_on now (ready (ok f)) ws = turn_of (on_frame now ws f).0 (on_frame now ws f).1

  unfoldable pub read_turn : ℕ → WebSocket S C D → Turn S C D
  unfolding turn_on
  read_turn now ws =
      let limit = remaining_read_capacity ws.fragment_layer in
      let (polled, st) = poll_next_frame_with_limit env ws.streaming limit in
      turn_on now polled (record ws { streaming = st })

  -- `poll_next_frame`, on fuel: it goes on for as long as the connection has fragments ready, one
  -- a round. Round `i` reads the clock at `clock i`.
  unfoldable pub poll_next_frame :
      ℕ → (ℕ → ℕ) → ℕ → WebSocket S C D → Option (Poll (Result Frame) × WebSocket S C D)
  unfolding read_turn
  poll_next_frame zero clock i ws = none
  poll_next_frame (suc fuel) clock i ws = elim (read_turn (clock i) ws) [
    | leave result ws' ↦ some (result, ws')
    | again ws' ↦ poll_next_frame fuel clock (i + 1) ws'
  ]

  -- `Sink::start_send`: without a fragment size the frame goes straight through.
  unfoldable pub start_send : WebSocket S C D → Frame → Started S C D
  start_send ws f =
      let (direct, st) = Streaming.start_send env ws.streaming f in
      if not (is_some ws.fragment_layer.fragment_size)
      then started direct (record ws { streaming = st })
      else elim (fragment_outgoing ws.fragment_layer f) [
        | queued layer ↦ started (ok tt) (record ws { fragment_layer = layer })
        | panics ↦ panicked
        | endless ↦ loops
      ]

  -- The loop of `poll_flush_fragments`, on the fragments that are left.
  unfoldable pub flush_fragments :
      List Frame → WebSocket S C D → Poll (Result (Unit {0})) × WebSocket S C D
  flush_fragments [] ws = (ready (ok tt), ws)
  flush_fragments (f ∷ fs) ws =
      let (now, st) = Streaming.poll_ready env ws.streaming in
      let (begun, st') = Streaming.start_send env st f in
      let layer = record ws.fragment_layer { outgoing_fragments = fs } in
      let sent = record ws { streaming = st'; fragment_layer = layer } in
      let rest = flush_fragments fs sent in
      elim now [
        | pending ↦ (pending, record ws { streaming = st })
        | ready (err e) ↦ (ready (err e), record ws { streaming = st })
        | ready (ok u) ↦ elim begun [ err e ↦ (ready (err e), sent) | ok v ↦ rest ]
      ]

  -- `poll_flush_fragments`.
  unfoldable pub poll_flush_fragments : WebSocket S C D → Poll (Result (Unit {0})) × WebSocket S C D
  unfolding flush_fragments
  poll_flush_fragments ws = flush_fragments ws.fragment_layer.outgoing_fragments ws

  -- `Sink::poll_ready`.
  unfoldable pub poll_ready : WebSocket S C D → Poll (Result (Unit {0})) × WebSocket S C D
  unfolding poll_flush_fragments
  poll_ready ws =
      let (flushed, ws') = poll_flush_fragments ws in
      let (now, st) = Streaming.poll_ready env ws'.streaming in
      elim flushed [
        | pending ↦ (pending, ws')
        | ready (err e) ↦ (ready (err e), ws')
        | ready (ok u) ↦ (now, record ws' { streaming = st })
      ]

  -- `Sink::poll_flush`.
  unfoldable pub poll_flush : WebSocket S C D → Poll (Result (Unit {0})) × WebSocket S C D
  unfolding poll_flush_fragments
  poll_flush ws =
      let (flushed, ws') = poll_flush_fragments ws in
      let (now, st) = Streaming.poll_flush env ws'.streaming in
      elim flushed [
        | pending ↦ (pending, ws')
        | ready (err e) ↦ (ready (err e), ws')
        | ready (ok u) ↦ (now, record ws' { streaming = st })
      ]

  -- `Sink::poll_close`.
  unfoldable pub poll_close : WebSocket S C D → Option (Poll (Result (Unit {0})) × WebSocket S C D)
  poll_close ws = elim (Streaming.poll_close env ws.streaming) [
    | none ↦ none
    | some (result, st) ↦ some (result, record ws { streaming = st })
  ]
