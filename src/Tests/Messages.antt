-- ===== src/Tests/Messages.antt =====
-- src/native/split.rs and `FragmentLayer` of src/native/mod.rs over a stream that is a list of items.
use yawc.Shared.{◌≡◌, refl, inl, true, false, none, some, List, [], ◌∷◌, ◌++◌, arith}
use yawc.Error.{ok, ready}
use yawc.Frame.{
  Frame, text, continuation, text_frame, ping_frame, continuation_frame, with_fin, into_fragments,
  is_control,
}
use yawc.Halves.{new_read_half, new_write_half, poll_close, poll_ready}
use yawc.Halves.Messages.{
  first_text, control, last, Conversation, over, onward, within, expected_flags, received_flags,
  after, received_flags-expected,
}
use yawc.Halves.Closing.{Returns, opened, closes, goodbye, poll_close-Closes, poll_ready-reached}
use yawc.Layer.{new_layer, assemble_incoming, timed_out}
use yawc.Layer.Messages as Messages
use yawc.Layer.Messages.{assemble_all, assembled, begun_by, assemble_all-message}
use yawc.Layer.RoundTrip.{assemble_all-into_fragments}
use yawc.Layer.Bounds.{IsCounted, Fits, assemble_incoming-IsCounted}
use yawc.Tests.Masks.{hello}
use yawc.Tests.Wires.{Wire, wire_sink, wire}

-- A compressed text message in two fragments with a ping between them.
abbrev pub first : Frame
first = record (text_frame hello) { fin = false; is_compressed = true }

abbrev conversation : Conversation none (first ∷ ping_frame [] ∷ continuation_frame hello ∷ []) none
unfolding is_control
conversation =
    onward (first_text refl refl) (onward (control refl refl) (onward (last refl refl refl) over))

received_flags-expected_example :
    (received_flags new_read_half (first ∷ ping_frame [] ∷ continuation_frame hello ∷ [])
      ≡ expected_flags conversation)
    × ((after new_read_half
          (first ∷ ping_frame [] ∷ continuation_frame hello ∷ [])).compressed_stream
        ≡ within none)
received_flags-expected_example = received_flags-expected new_read_half conversation refl

poll_close-Closes_example : Returns wire_sink [] (poll_close wire_sink new_write_half wire)
poll_close-Closes_example = poll_close-Closes wire_sink [] new_write_half wire refl

-- The half after a close that went through, on which `poll_ready` still asks the stream.
abbrev said_goodbye : Wire
said_goodbye = record wire { out = goodbye ∷ [] }

closed_half :
    poll_close wire_sink new_write_half wire ≡ some (ready (ok tt), (new_write_half, said_goodbye))
unfolding poll_close
closed_half = refl

poll_ready-reached_example :
    poll_ready wire_sink new_write_half said_goodbye ≡ wire_sink.poll_ready said_goodbye
poll_ready-reached_example =
    poll_ready-reached wire_sink said_goodbye
      (closes wire said_goodbye (ready (ok tt)) closed_half opened)

assemble_all-message_example :
    ((assemble_all
        (λ i. i)
        0
        (new_layer none 1024 none)
        (with_fin (text_frame hello) false ∷ ping_frame [] ∷ continuation_frame hello ∷ [])).0
      ≡ ok (
          ping_frame []
          ∷ assembled
              (begun_by 0 (with_fin (text_frame hello) false))
              (continuation_frame hello)
              (hello ++ hello)
          ∷ []))
    × ((assemble_all
          (λ i. i)
          0
          (new_layer none 1024 none)
          (with_fin (text_frame hello) false
            ∷ ping_frame []
            ∷ continuation_frame hello
            ∷ [])).1.incoming_fragment
        ≡ none)
unfolding is_control timed_out
assemble_all-message_example =
    assemble_all-message (λ i. i) (new_layer none 1024 none) (with_fin (text_frame hello) false)
      (inl refl) refl (Messages.between refl (Messages.last refl refl)) refl (omega arith)
      (λ j. refl)

assemble_all-into_fragments_example :
    (fs : List Frame) × (into_fragments (text_frame hello) 2 ≡ some fs)
    × ((assemble_all (λ i. i) 0 (new_layer none 1024 none) fs).0 ≡ ok (text_frame hello ∷ []))
unfolding timed_out
assemble_all-into_fragments_example =
    assemble_all-into_fragments 2 (λ i. i) (new_layer none 1024 none) (text_frame hello)
      (omega arith) (inl refl) refl refl refl (omega arith) (λ j. refl)

assemble_incoming-IsCounted_example :
    IsCounted (assemble_incoming 7 (new_layer none 1024 none) (with_fin (text_frame hello) false)).1
    × (text ≡ continuation
        → Fits 1024
            (assemble_incoming 7 (new_layer none 1024 none) (with_fin (text_frame hello) false)).0)
assemble_incoming-IsCounted_example =
    assemble_incoming-IsCounted 7 (new_layer none 1024 none) (with_fin (text_frame hello) false) tt
      (λ c e. omega arith)
