-- ===== src/Streaming/Replies.antt =====
-- The replies that src/native/streaming.rs owes the peer.
use yawc.Shared.{
  ℕ, ◌≡◌, ◌⊎◌, refl, ◌∙◌, ap, subst, Bool, true, false, List, [], ◌∷◌, ◌++◌, append-nil,
  append_assoc, arith, length,
}
use yawc.Error.{WebSocketError, connection_closed, Result, ok, err, Poll, ready, pending}
use yawc.Frame.{Frame, ping, close, pong_frame, close_raw}
use yawc.Halves
use yawc.Halves.{ReadHalf, poll_frame, receive, on_item, noted}
use yawc.Streaming.{
  Env, Streaming, drain, flush_after, poll_flush_obligated, flush_then, on_frame, on_ping, on_close,
  on_data, emit_close, on_error, accept, release_read_buffer, poll_next_frame_with_limit, conclude,
  on_polled, check_size, max_output_size,
}

-- The frame that the peer must get for one that it sent.
abbrev pub replies : Frame → List Frame
replies f = elim f.opcode [
  | ping ↦ pong_frame f.payload ∷ []
  | close ↦ close_raw f.payload ∷ []
  | _ ↦ []
]

abbrev pub is_error {ℓ} : {A : Type ℓ} → Poll (Result A) → Bool
is_error (ready (err e)) = true
is_error _ = false

module _ {S C D : Type 0} (env : Env S C D) where
  -- What was sent, and behind it what is still to be sent.
  abbrev pub promised : Streaming S C D → List Frame
  promised st = env.sink.sent st.stream ++ st.obligated_sends

  drain-promised :
      (fs : List Frame) (st : Streaming S C D)
      → is_error (drain env fs st).0 ≡ false
      → promised (drain env fs st).1 ≡ env.sink.sent st.stream ++ fs
  unfolding drain Halves.poll_ready Halves.start_send
  drain-promised [] st h = refl
  drain-promised (f ∷ fs) st h =
      let s = (Halves.poll_ready env.sink st.write_half st.stream).1 in
      let (w, s') = (Halves.start_send env.sink st.write_half f s).1 in
      let next = record st {
        stream = s';
        write_half = w;
        obligated_sends = fs;
        flush_sends = true;
      } in
      ground (
        arith,
        env.sink.poll_ready-sent st.stream,
        env.sink.start_send-ok s f,
        drain-promised fs next,
        append_assoc (env.sink.sent st.stream) (f ∷ []) fs,
      )

  pub flush_after-promised : (st : Streaming S C D) → promised (flush_after env st).1 ≡ promised st
  unfolding flush_after Halves.poll_flush
  flush_after-promised st = ground (arith, env.sink.poll_flush-sent st.stream)

  pub poll_flush_obligated-promised :
      (st : Streaming S C D)
      → is_error (poll_flush_obligated env st).0 ≡ false
      → promised (poll_flush_obligated env st).1 ≡ promised st
  unfolding poll_flush_obligated
  poll_flush_obligated-promised st h = ground (
    arith,
    drain-promised st.obligated_sends st,
    flush_after-promised (drain env st.obligated_sends st).1,
  )

  flush_then-promised :
      (result : Poll (Result Frame)) (st : Streaming S C D)
      → is_error (flush_then env result st).0 ≡ false
      → (promised (flush_then env result st).1 ≡ promised st)
        × ((flush_then env result st).0 ≡ result ⊎ (flush_then env result st).0 ≡ pending)
  unfolding flush_then
  flush_then-promised result st h = ground (arith, poll_flush_obligated-promised st)

  -- What a call leaves: nothing new while it is pending, and the reply to a frame that it returns.
  abbrev pub Answers : List Frame → Poll (Result Frame) → Streaming S C D → Type 0
  Answers before pending st = promised st ≡ before
  Answers before (ready (ok f)) st = promised st ≡ before ++ replies f
  Answers before (ready (err e)) st = Unit

  -- A data frame comes out with its opcode and touches neither the stream nor the replies.
  on_data-keeps :
      (st : Streaming S C D) (f g : Frame) (limit : ℕ)
      → (on_data env st f limit).0 ≡ ok g
      → (g.opcode ≡ f.opcode) × (promised (on_data env st f limit).1 ≡ promised st)
  unfolding on_data check_size
  on_data-keeps st f g limit h = ground (arith, h)

  on_frame-answers :
      (st : Streaming S C D) (f g : Frame) (limit : ℕ)
      → (on_frame env st f limit).0 ≡ ok g
      → promised (on_frame env st f limit).1 ≡ promised st ++ replies g
  unfolding on_frame on_ping on_close emit_close
  on_frame-answers st f g limit h = ground (
    arith,
    h,
    on_data-keeps st f g (max_output_size st.max_payload_read f limit),
    append_assoc (env.sink.sent st.stream) st.obligated_sends (pong_frame f.payload ∷ []),
    append_assoc (env.sink.sent st.stream) st.obligated_sends (close_raw f.payload ∷ []),
    append-nil (promised st),
  )

  release_read_buffer-promised :
      (st : Streaming S C D) (n : ℕ) → promised (release_read_buffer env st n) ≡ promised st
  unfolding release_read_buffer
  release_read_buffer-promised st n =
      ground (arith, env.set_read_capacity-sent st.read_buffer_capacity st.stream)

  on_error-Answers :
      (e : WebSocketError) (st : Streaming S C D)
      → Answers (promised st) (on_error env e st).0 (on_error env e st).1
  unfolding on_error emit_close
  on_error-Answers e st = ground (arith, flush_then-promised (ready (err connection_closed)) st)

  on_frame-refused :
      (st : Streaming S C D) (f : Frame) (e : WebSocketError) (limit : ℕ)
      → (on_frame env st f limit).0 ≡ err e
      → promised (on_frame env st f limit).1 ≡ promised st
  unfolding on_frame on_close on_data
  on_frame-refused st f e limit h = ground (arith, h)

  conclude-Answers :
      (before : List Frame) (got : Result Frame) (st : Streaming S C D)
      → ((g : Frame) → got ≡ ok g → promised st ≡ before ++ replies g)
      → ((e : WebSocketError) → got ≡ err e → promised st ≡ before)
      → Answers before (conclude env got st).0 (conclude env got st).1
  unfolding conclude
  conclude-Answers before (ok g) st good bad = good g refl
  conclude-Answers before (err e) st good bad =
      subst (λ b. Answers b (on_error env e st).0 (on_error env e st).1) (bad e refl)
        (on_error-Answers e st)

  accept-Answers :
      (st : Streaming S C D) (f : Frame) (limit : ℕ)
      → Answers (promised st) (accept env st f limit).0 (accept env st f limit).1
  unfolding accept
  accept-Answers st f limit =
      let st' = release_read_buffer env st (length f.payload) in
      let (got, st'') = on_frame env st' f limit in
      let kept = release_read_buffer-promised st (length f.payload) in
      conclude-Answers (promised st) got st''
        (λ g h. on_frame-answers st' f g limit h ∙ ap (λ b. b ++ replies g) kept)
        (λ e h. on_frame-refused st' f e limit h ∙ kept)

  on_polled-Answers :
      (polled : Poll (Result Frame)) (st : Streaming S C D) (limit : ℕ)
      → Answers (promised st) (on_polled env polled st limit).0 (on_polled env polled st limit).1
  unfolding on_polled
  on_polled-Answers pending st limit = ground (arith, flush_then-promised pending st)
  on_polled-Answers (ready (err e)) st limit = on_error-Answers e st
  on_polled-Answers (ready (ok f)) st limit = accept-Answers st f limit

  poll_frame-sent :
      (r : ReadHalf) (s : S) → env.sink.sent (poll_frame env.poll_next r s).1.1 ≡ env.sink.sent s
  unfolding poll_frame
  poll_frame-sent r s = ground (arith, env.poll_next-sent s)

  -- Polling for the next frame owes the peer a pong with the payload of a ping that is returned, the
  -- echo of a close frame that is returned, and nothing for another frame; the echo is owed whatever
  -- state the write half is in, so also where this side has sent a close frame before. A call that
  -- is pending may send what is due and adds nothing. What was sent and what is due, in this order,
  -- is what it was before with the reply behind it. Of a call that returns an error this says
  -- nothing.
  pub poll_next_frame_with_limit-Answers :
      (st : Streaming S C D) (limit : ℕ)
      → Answers
          (promised st)
          (poll_next_frame_with_limit env st limit).0
          (poll_next_frame_with_limit env st limit).1
  unfolding poll_next_frame_with_limit
  poll_next_frame_with_limit-Answers st limit =
      let (polled, (r, s)) = poll_frame env.poll_next st.read_half st.stream in
      let now = on_polled env polled (record st { stream = s; read_half = r }) limit in
      subst (λ b. Answers (b ++ st.obligated_sends) now.0 now.1)
        (poll_frame-sent st.read_half st.stream)
        (on_polled-Answers polled (record st { stream = s; read_half = r }) limit)
