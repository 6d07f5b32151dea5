-- ===== src/Socket/Progress.antt =====
-- The loop of `WebSocket::poll_next_frame` in src/native/mod.rs ends when the stream runs dry.
use yawc.Shared.{ℕ, zero, suc, ◌+◌, ◌<◌, ◌≡◌, ◌≢◌, refl, ap, Option, none, some, length, arith}
use yawc.Error.{Result, ok, err, Poll, ready, pending}
use yawc.Frame.{Frame}
use yawc.Layer.{remaining_read_capacity}
use yawc.Halves.{ReadHalf, poll_frame}
use yawc.Streaming.{
  Env, Streaming, on_frame, on_ping, on_close, on_data, emit_close, conclude, accept, on_polled,
  release_read_buffer, poll_next_frame_with_limit,
}
use yawc.Streaming.Limits.{NoFrame, on_error-NoFrame, flush_then-NoFrame}
use yawc.Socket.{
  WebSocket, Turn, again, leave, on_frame as on_message, turn_of, turn_on, read_turn,
  poll_next_frame,
}

module _ {S C D : Type 0} (env : Env S C D) (left : S → ℕ) where
  -- A stream with `left s` items at most before it is pending: each item that it gives is one
  -- less, and resizing a buffer takes none.
  abbrev pub RunsDry : Type 0
  RunsDry =
      ((s : S) (item : Option (Result Frame))
        → (env.poll_next s).0 ≡ ready item
        → left (env.poll_next s).1 < left s)
      × ((n : ℕ) (s : S) → left (env.set_read_capacity n s) ≡ left s)

  -- A frame takes an item of the stream.
  abbrev Takes : ℕ → Poll (Result Frame) → Streaming S C D → Type 0
  Takes n (ready (ok f)) st = left st.stream < n
  Takes n _ st = Unit

  NoFrame-Takes :
      (n : ℕ) (p : Poll (Result Frame)) (st : Streaming S C D) → NoFrame p → Takes n p st
  NoFrame-Takes n (ready (ok f)) st h = absurd h
  NoFrame-Takes n (ready (err e)) st h = tt
  NoFrame-Takes n pending st h = tt

  on_frame-stream :
      (st : Streaming S C D) (f : Frame) (limit : ℕ)
      → (on_frame env st f limit).1.stream ≡ st.stream
  unfolding on_frame on_close on_data emit_close on_ping
  on_frame-stream st f limit = ground arith

  conclude-Takes :
      (n : ℕ) (got : Result Frame) (st : Streaming S C D)
      → left st.stream < n
      → Takes n (conclude env got st).0 (conclude env got st).1
  unfolding conclude
  conclude-Takes n (ok g) st h = h
  conclude-Takes n (err e) st h = NoFrame-Takes n _ _ (on_error-NoFrame env e st)

  release_read_buffer-left :
      (st : Streaming S C D) (n : ℕ)
      → RunsDry
      → left (release_read_buffer env st n).stream ≡ left st.stream
  unfolding release_read_buffer
  release_read_buffer-left st n (dry, same) = ground (arith, same st.read_buffer_capacity st.stream)

  accept-Takes :
      (n : ℕ) (st : Streaming S C D) (f : Frame) (limit : ℕ)
      → RunsDry
      → left st.stream < n
      → Takes n (accept env st f limit).0 (accept env st f limit).1
  unfolding accept
  accept-Takes n st f limit dry h =
      let st' = release_read_buffer env st (length f.payload) in
      conclude-Takes n (on_frame env st' f limit).0 (on_frame env st' f limit).1 (
        omega (
          arith,
          h,
          ap left (on_frame-stream st' f limit),
          release_read_buffer-left st (length f.payload) dry,
        ))

  abbrev Took : ℕ → Poll (Result Frame) → S → Type 0
  Took n (ready (ok f)) s = left s < n
  Took n _ s = Unit

  poll_frame-Took :
      (r : ReadHalf) (s : S)
      → RunsDry
      → Took (left s) (poll_frame env.poll_next r s).0 (poll_frame env.poll_next r s).1.1
  unfolding poll_frame
  poll_frame-Took r s (dry, same) = go (env.poll_next s).0 refl
    where
      go :
          (polled : Poll (Option (Result Frame)))
          → (env.poll_next s).0 ≡ polled
          → Took (left s) (poll_frame env.poll_next r s).0 (poll_frame env.poll_next r s).1.1
      go pending e = ground (arith, e)
      go (ready item) e = ground (arith, e, dry s item e)

  on_polled-Takes :
      (n : ℕ) (polled : Poll (Result Frame)) (st : Streaming S C D) (limit : ℕ)
      → RunsDry
      → Took n polled st.stream
      → Takes n (on_polled env polled st limit).0 (on_polled env polled st limit).1
  unfolding on_polled
  on_polled-Takes n pending st limit dry h = NoFrame-Takes n _ _ (flush_then-NoFrame env st)
  on_polled-Takes n (ready (err e)) st limit dry h = NoFrame-Takes n _ _ (on_error-NoFrame env e st)
  on_polled-Takes n (ready (ok f)) st limit dry h = accept-Takes n st f limit dry h

  -- A round that goes on took an item.
  abbrev GoesOn : ℕ → Turn S C D → Type 0
  GoesOn n (again ws) = left ws.streaming.stream < n
  GoesOn n (leave p ws) = Unit

  turn_on-GoesOn :
      (n now : ℕ) (p : Poll (Result Frame)) (ws : WebSocket S C D)
      → Takes n p ws.streaming
      → GoesOn n (turn_on env now p ws)
  unfolding turn_on turn_of on_message
  turn_on-GoesOn n now pending ws h = tt
  turn_on-GoesOn n now (ready (err e)) ws h = tt
  turn_on-GoesOn n now (ready (ok f)) ws h = ground (arith, h)

  read_turn-GoesOn :
      (now : ℕ) (ws : WebSocket S C D)
      → RunsDry
      → GoesOn (left ws.streaming.stream) (read_turn env now ws)
  unfolding read_turn poll_next_frame_with_limit
  read_turn-GoesOn now ws dry =
      let st = ws.streaming in
      let limit = remaining_read_capacity ws.fragment_layer in
      let (polled, (r, s)) = poll_frame env.poll_next st.read_half st.stream in
      let st' = record st { stream = s; read_half = r } in
      turn_on-GoesOn (left st.stream) now (on_polled env polled st' limit).0
        (record ws { streaming = (on_polled env polled st' limit).1 })
        (on_polled-Takes (left st.stream) polled st' limit dry
          (poll_frame-Took st.read_half st.stream dry))

  -- The loop of `poll_next_frame` returns within one round more than the stream has items before
  -- it is pending, from every state of the connection.
  pub poll_next_frame_returns :
      (fuel : ℕ) (clock : ℕ → ℕ) (i : ℕ) (ws : WebSocket S C D)
      → RunsDry
      → left ws.streaming.stream < fuel
      → poll_next_frame env fuel clock i ws ≢ none
  unfolding poll_next_frame
  poll_next_frame_returns zero clock i ws dry h = absurd (omega (arith, h))
  poll_next_frame_returns (suc fuel) clock i ws dry h =
      go (λ ws' k. poll_next_frame_returns fuel clock (i + 1) ws' dry k)
        (read_turn env (clock i) ws) (read_turn-GoesOn (clock i) ws dry)
    where
      go :
          ((ws' : WebSocket S C D)
            → left ws'.streaming.stream < fuel
            → poll_next_frame env fuel clock (i + 1) ws' ≢ none)
          → (turn : Turn S C D) → GoesOn (left ws.streaming.stream) turn
          → (elim turn [
            | leave result ws' ↦ some (result, ws')
            | again ws' ↦ poll_next_frame env fuel clock (i + 1) ws'
          ])
            ≢ none
      go next (leave result ws') k e = ground (arith, e)
      go next (again ws') k e = next ws' (omega (arith, k, h)) e
