-- ===== src/Socket/Sending.antt =====
-- The send side of `WebSocket` in src/native/mod.rs: fragments go out in order, behind the replies.
use yawc.Shared.{◌≡◌, refl, ap, false, none, List, [], ◌∷◌, ◌++◌, append_assoc, arith}
use yawc.Frame.{Frame}
use yawc.Streaming
use yawc.Streaming.{Env, Streaming}
use yawc.Streaming.Replies.{promised, is_error}
use yawc.Streaming.Sending.{poll_ready-rest, poll_ready-promised, start_send-promised}
use yawc.Socket.{WebSocket, flush_fragments, poll_flush_fragments}

module _ {S C D : Type 0} (env : Env S C D) where
  -- All that was sent, then the replies that are due, then the fragments that wait.
  abbrev pub in_order : WebSocket S C D → List Frame
  in_order ws = promised env ws.streaming ++ ws.fragment_layer.outgoing_fragments

  flush_fragments-in_order :
      (fs : List Frame) (ws : WebSocket S C D)
      → ws.streaming.deflate ≡ none
      → ws.fragment_layer.outgoing_fragments ≡ fs
      → is_error (flush_fragments env fs ws).0 ≡ false
      → in_order (flush_fragments env fs ws).1 ≡ promised env ws.streaming ++ fs
  unfolding flush_fragments
  flush_fragments-in_order [] ws plain e h = ap (λ l. promised env ws.streaming ++ l) e
  flush_fragments-in_order (f ∷ fs) ws plain e h =
      let (now, st) = Streaming.poll_ready env ws.streaming in
      let (begun, st') = Streaming.start_send env st f in
      let layer = record ws.fragment_layer { outgoing_fragments = fs } in
      let sent = record ws { streaming = st'; fragment_layer = layer } in
      let (empty, same) = poll_ready-rest env ws.streaming in
      ground (
        arith,
        plain,
        e,
        h,
        empty,
        same,
        poll_ready-promised env ws.streaming,
        start_send-promised env st f,
        flush_fragments-in_order fs sent,
        append_assoc (promised env ws.streaming) (f ∷ []) fs,
      )

  -- Flushing the fragments that wait keeps everything in its order: what was sent, then the replies
  -- that are due, then the fragments, is the same list of frames before and after, however far the
  -- flush comes, on a connection without compression and unless the call returns an error.
  pub poll_flush_fragments-in_order :
      (ws : WebSocket S C D)
      → ws.streaming.deflate ≡ none
      → is_error (poll_flush_fragments env ws).0 ≡ false
      → in_order (poll_flush_fragments env ws).1 ≡ in_order ws
  unfolding poll_flush_fragments
  poll_flush_fragments-in_order ws plain h =
      flush_fragments-in_order ws.fragment_layer.outgoing_fragments ws plain refl h
