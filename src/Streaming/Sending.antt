-- ===== src/Streaming/Sending.antt =====
-- The send side of src/native/streaming.rs: replies that are due go out before the next frame.
use yawc.Shared.{◌≡◌, refl, true, false, none, List, [], ◌∷◌, ◌++◌, append-nil, arith}
use yawc.Error.{ok, ready}
use yawc.Frame.{Frame}
use yawc.Halves
use yawc.Streaming.{
  Env, Streaming, drain, flush_after, poll_flush_obligated, poll_ready, start_send, prepare,
  hand_over,
}
use yawc.Streaming.Replies.{promised, is_error, poll_flush_obligated-promised}

module _ {S C D : Type 0} (env : Env S C D) where
  drain-rest :
      (fs : List Frame) (st : Streaming S C D)
      → ((drain env fs st).0 ≡ ready (ok tt) → (drain env fs st).1.obligated_sends ≡ [])
        × ((drain env fs st).1.deflate ≡ st.deflate)
  unfolding drain
  drain-rest [] st = (λ h. refl, refl)
  drain-rest (f ∷ fs) st =
      let s = (Halves.poll_ready env.sink st.write_half st.stream).1 in
      let (w, s') = (Halves.start_send env.sink st.write_half f s).1 in
      let (empty, same) =
        drain-rest fs
          (record st { stream = s'; write_half = w; obligated_sends = fs; flush_sends = true }) in
      (λ h. ground (arith, h, empty), ground (arith, same))

  -- Readiness means that no reply is due any more.
  pub poll_ready-rest :
      (st : Streaming S C D)
      → ((poll_ready env st).0 ≡ ready (ok tt) → (poll_ready env st).1.obligated_sends ≡ [])
        × ((poll_ready env st).1.deflate ≡ st.deflate)
  unfolding poll_ready poll_flush_obligated flush_after
  poll_ready-rest st =
      let (empty, same) = drain-rest st.obligated_sends st in
      (λ h. ground (arith, h, empty), ground (arith, same))

  Halves_poll_ready-sent :
      (w : Halves.WriteHalf) (s : S)
      → env.sink.sent (Halves.poll_ready env.sink w s).1 ≡ env.sink.sent s
  unfolding Halves.poll_ready
  Halves_poll_ready-sent w s = ground (arith, env.sink.poll_ready-sent s)

  pub poll_ready-promised :
      (st : Streaming S C D)
      → is_error (poll_ready env st).0 ≡ false
      → promised env (poll_ready env st).1 ≡ promised env st
  unfolding poll_ready
  poll_ready-promised st h =
      let st' = (poll_flush_obligated env st).1 in
      ground (
        arith,
        h,
        poll_flush_obligated-promised env st,
        Halves_poll_ready-sent st.write_half st.stream,
        Halves_poll_ready-sent st'.write_half st'.stream,
      )

  -- Without a compressor a frame goes out as it is.
  pub start_send-promised :
      (st : Streaming S C D) (f : Frame)
      → st.deflate ≡ none
      → st.obligated_sends ≡ []
      → (start_send env st f).0 ≡ ok tt
      → (promised env (start_send env st f).1 ≡ promised env st ++ (f ∷ []))
        × ((start_send env st f).1.deflate ≡ none)
  unfolding start_send prepare hand_over Halves.start_send
  start_send-promised st f plain empty h = ground (
    arith,
    plain,
    empty,
    h,
    env.sink.start_send-ok st.stream f,
    append-nil (env.sink.sent st.stream),
    append-nil (env.sink.sent st.stream ++ (f ∷ [])),
  )
