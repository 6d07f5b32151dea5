-- ===== src/Tests/Wires.antt =====
-- A stream that is a list of items, and connections over it.
use yawc.Shared.{◌≡◌, refl, true, false, Option, none, some, List, [], ◌∷◌, ◌++◌, arith}
use yawc.Error.{Result, ok, Poll, ready, pending}
use yawc.Frame.{Frame, ping_frame, close_raw}
use yawc.Halves.{FrameSink, new_read_half, new_write_half}
use yawc.Layer.{new_layer}
use yawc.Streaming.{Env, Streaming}
use yawc.Socket.{WebSocket}
use yawc.Tests.Masks.{hello}

-- A stream that has these items ready and is pending then, and keeps what it was sent.
pub record Wire : Type 0 where
  pub items : List (Option (Result Frame))
  pub out : List Frame

abbrev pub take_item : Wire → Poll (Option (Result Frame)) × Wire
take_item w = elim w.items [
  | [] ↦ (pending, w)
  | item ∷ rest ↦ (ready item, record w { items = rest })
]

pub take_item-out : (w : Wire) → (take_item w).1.out ≡ w.out
take_item-out w = ground arith

abbrev pub wire_sink : FrameSink Wire
wire_sink = record {
  poll_ready = λ w. (ready (ok tt), w);
  start_send = λ w f. (ok tt, record w { out = w.out ++ (f ∷ []) });
  poll_flush = λ w. (ready (ok tt), w);
  poll_close = λ w. (ready (ok tt), w);
  sent = λ w. w.out;
  poll_ready-sent = λ w. refl;
  poll_flush-sent = λ w. refl;
  poll_close-sent = λ w. refl;
  start_send-ok = λ w f e. refl;
}

abbrev pub plain_env : Env Wire (Unit {0}) (Unit {0})
plain_env = record {
  sink = wire_sink;
  poll_next = take_item;
  read_buffer_len = λ w. 0;
  write_buffer_len = λ w. 0;
  backpressure_boundary = λ w. 8192;
  set_read_capacity = λ n w. w;
  set_write_capacity = λ n w. w;
  poll_next-sent = take_item-out;
  set_read_capacity-sent = λ n w. refl;
  set_write_capacity-sent = λ n w. refl;
  compress = λ c payload fin. (ok payload, c);
  decompress = λ d payload fin limit. (ok payload, d);
  describe = λ e. [];
  is_utf8 = λ payload. true;
}

-- A connection on which a ping and then a close frame are ready.
abbrev pub wire : Wire
wire = record { items = some (ok (ping_frame hello)) ∷ some (ok (close_raw [])) ∷ []; out = [] }

abbrev pub on_wire : Wire → Streaming Wire (Unit {0}) (Unit {0})
on_wire w = record {
  stream = w;
  read_half = new_read_half;
  write_half = new_write_half;
  obligated_sends = [];
  flush_sends = false;
  deflate = none;
  inflate = none;
  max_payload_read = 1024;
  compression_threshold = 64;
  read_buffer_capacity = 8192;
  write_buffer_capacity = 8192;
  write_buffer_grown = false;
}

abbrev pub closed_wire : Streaming Wire (Unit {0}) (Unit {0})
closed_wire = record (on_wire wire) { read_half = record new_read_half { is_closed = true } }

abbrev pub socket : WebSocket Wire (Unit {0}) (Unit {0})
socket = record {
  streaming = on_wire wire;
  check_utf8 = true;
  fragment_layer = new_layer none 1024 (some 5);
}
