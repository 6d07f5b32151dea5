-- ===== src/Tests/Connections.antt =====
-- src/native/streaming.rs and `WebSocket` of src/native/mod.rs over a stream that is a list of items.
use yawc.Shared.{
  Bool, ◌<◌, ◌≡◌, ◌≢◌, refl, true, false, Option, none, some, List, [], ◌∷◌, length, arith,
}
use yawc.Error.{Result, ok, ready}
use yawc.Frame.{
  Frame, text_frame, ping_frame, continuation_frame, with_fin, is_control, same_op, is_some,
}
use yawc.Halves
use yawc.Halves.{
  FrameSink, ReadHalf, new_read_half, new_write_half, WriteHalf, poll_close, poll_ready,
}
use yawc.Halves.Messages.{first_text, control, last, Conversation, over, onward}
use yawc.Layer.{new_layer}
use yawc.Streaming
use yawc.Streaming.{Env, Streaming, poll_next_frame_with_limit, poll_flush_obligated}
use yawc.Streaming.Replies.{Answers, poll_next_frame_with_limit-Answers}
use yawc.Streaming.Flushing.{Keeps, poll_flush_obligated-Keeps}
use yawc.Streaming.Limits.{NoFrame, poll_next_frame_with_limit-Returns}
use yawc.Streaming.Compressing.{outgoing, outgoing-Conversation}
use yawc.Streaming.Limits as Limits
use yawc.Streaming.Closed.{stays, reads, Ends, closed_for_good}
use yawc.Streaming.Ends.{poll_next_frame_with_limit-Ends}
use yawc.Socket.{WebSocket, poll_next_frame, poll_flush_fragments}
use yawc.Socket.Sending.{in_order, poll_flush_fragments-in_order}
use yawc.Socket.Reading.{IsSafe, poll_next_frame-IsSafe}
use yawc.Socket.Progress.{poll_next_frame_returns}
use yawc.Tests.Masks.{hello}
use yawc.Tests.Wires.{Wire, take_item, plain_env, wire, on_wire, closed_wire, socket}
use yawc.Tests.Messages.{first}

-- A connection that owes two replies.
abbrev owing : Streaming Wire (Unit {0}) (Unit {0})
owing = record (on_wire wire) { obligated_sends = ping_frame [] ∷ ping_frame hello ∷ [] }

poll_flush_obligated-Keeps_example :
    Keeps plain_env
      (ping_frame [] ∷ ping_frame hello ∷ [])
      (poll_flush_obligated plain_env owing).0
      (poll_flush_obligated plain_env owing).1
poll_flush_obligated-Keeps_example = poll_flush_obligated-Keeps plain_env owing

poll_next_frame_with_limit-Answers_example :
    Answers plain_env []
      (poll_next_frame_with_limit plain_env (on_wire wire) 1024).0
      (poll_next_frame_with_limit plain_env (on_wire wire) 1024).1
poll_next_frame_with_limit-Answers_example =
    poll_next_frame_with_limit-Answers plain_env (on_wire wire) 1024

poll_next_frame_with_limit-Returns_example :
    Limits.Returns 1024 512 (poll_next_frame_with_limit plain_env (on_wire wire) 512).0
poll_next_frame_with_limit-Returns_example =
    poll_next_frame_with_limit-Returns plain_env (on_wire wire) 512

closed_for_good_example :
    NoFrame
      (poll_next_frame_with_limit plain_env
        (poll_next_frame_with_limit plain_env closed_wire 512).1
        1024).0
closed_for_good_example = closed_for_good plain_env 1024 (reads 512 stays) refl

poll_next_frame_with_limit-Ends_example :
    Ends plain_env
      (poll_next_frame_with_limit plain_env (on_wire wire) 1024).0
      (poll_next_frame_with_limit plain_env (on_wire wire) 1024).1
poll_next_frame_with_limit-Ends_example =
    poll_next_frame_with_limit-Ends plain_env (on_wire wire) 1024 (some (ok (ping_frame hello)))
      (λ d p fin n e. ground (arith, e)) refl (λ e. ground (arith, e))

poll_next_frame-IsSafe_example :
    IsSafe plain_env true (poll_next_frame plain_env 3 (λ i. i) 0 socket)
poll_next_frame-IsSafe_example = poll_next_frame-IsSafe plain_env 3 (λ i. i) 0 socket tt

wire_runs_dry :
    (w : Wire) (item : Option (Result Frame))
    → (take_item w).0 ≡ ready item
    → length (take_item w).1.items < length w.items
wire_runs_dry w item e = ground (arith, e)

poll_next_frame_returns_example : poll_next_frame plain_env 3 (λ i. i) 0 socket ≢ none
poll_next_frame_returns_example =
    poll_next_frame_returns plain_env (λ w. length w.items) 3 (λ i. i) 0 socket
      (wire_runs_dry, λ n w. refl) (omega arith)

abbrev halves_waiting : WebSocket Wire (Unit {0}) (Unit {0})
halves_waiting = record socket {
  fragment_layer = record (new_layer (some 5) 1024 none) {
    outgoing_fragments = with_fin (text_frame hello) false ∷ continuation_frame hello ∷ [];
  };
}

poll_flush_fragments-in_order_example :
    in_order plain_env (poll_flush_fragments plain_env halves_waiting).1
    ≡ with_fin (text_frame hello) false ∷ continuation_frame hello ∷ []
unfolding poll_flush_fragments Streaming.poll_ready Streaming.start_send Halves.poll_ready
    is_control same_op Halves.start_send
poll_flush_fragments-in_order_example =
    poll_flush_fragments-in_order plain_env halves_waiting refl refl

-- A message in two fragments with a ping between them, sent over a connection that compresses.
abbrev deflating : Streaming Wire (Unit {0}) (Unit {0})
deflating = record (on_wire wire) { deflate = some tt }

abbrev fragments : List Frame
fragments = with_fin (text_frame hello) false ∷ ping_frame [] ∷ continuation_frame hello ∷ []

abbrev on_the_wire : List Frame
on_the_wire = first ∷ ping_frame [] ∷ continuation_frame hello ∷ []

fragments_follow : Conversation none fragments none
unfolding is_control
fragments_follow =
    onward (first_text refl refl) (onward (control refl refl) (onward (last refl refl refl) over))

went_out : outgoing plain_env deflating fragments ≡ some on_the_wire
unfolding outgoing is_control same_op Halves.start_send
went_out = refl

outgoing-Conversation_example :
    (n : Option Bool) × Conversation none on_the_wire n × (is_some n ≡ false)
outgoing-Conversation_example =
    outgoing-Conversation plain_env deflating none fragments_follow (refl, (refl, (refl, tt))) refl
      refl went_out
