-- ===== src/Streaming/Ends.antt =====
-- What ends the reading of a connection in src/native/streaming.rs.
use yawc.Shared.{
  ℕ, ◌≡◌, ◌≢◌, refl, ap, ◌⊎◌, inl, inr, subst, sym, Bool, true, Option, none, some, List, length,
  arith, Option-cases, Bool-cases, if◌then◌else◌,
}
use yawc.Error.{WebSocketError, connection_closed, Result, ok, err, Poll, ready, pending}
use yawc.Frame.{close_reason, Frame, OpCode, continuation, text, binary, ping, pong, close, same_op}
use yawc.Halves.{poll_frame, on_item, receive}
use yawc.Streaming.{
  max_output_size, Env, Streaming, on_frame, on_close, on_data, check_size, check_close, emit_close,
  on_error, conclude, accept, on_polled, release_read_buffer, poll_next_frame_with_limit,
}
use yawc.Streaming.Closed.{IsClosed, Ends, flush_then-read_half, closed-poll}
use yawc.Streaming.Limits.{NoFrame, on_error-NoFrame}

closing : (op : OpCode) (b : Bool) → ((if same_op op close then true else b) ≡ true) ⊎ (op ≢ close)
unfolding same_op
closing close b = inl refl
closing continuation b = inr (λ h. ground (arith, h))
closing text b = inr (λ h. ground (arith, h))
closing binary b = inr (λ h. ground (arith, h))
closing ping b = inr (λ h. ground (arith, h))
closing pong b = inr (λ h. ground (arith, h))

module _ {S C D : Type 0} (env : Env S C D) where
  on_error-closes :
      (e : WebSocketError) (st : Streaming S C D)
      → (e ≡ connection_closed → IsClosed env st)
      → IsClosed env (on_error env e st).1
  unfolding on_error emit_close
  on_error-closes e st h =
      ground (arith, h, flush_then-read_half env (ready (err connection_closed)) st)

  pub error-Ends :
      (e : WebSocketError) (st : Streaming S C D)
      → (e ≡ connection_closed → IsClosed env st)
      → Ends env (on_error env e st).0 (on_error env e st).1
  error-Ends e st h =
      shut (on_error env e st).0 (on_error env e st).1 (on_error-NoFrame env e st)
        (on_error-closes e st h)
    where
      shut :
          (p : Poll (Result Frame)) (st' : Streaming S C D)
          → NoFrame p
          → IsClosed env st'
          → Ends env p st'
      shut (ready (ok f)) st' n c = absurd n
      shut (ready (err e')) st' n c = c
      shut pending st' n c = c

  -- The decompressor reports errors of its own only.
  abbrev pub IsQuiet : Type 0
  IsQuiet =
      (d : D) (p : List ℕ) (fin : Bool) (n : ℕ)
      → (env.decompress d p fin n).0 ≢ err connection_closed

  on_data-open :
      (st : Streaming S C D) (f : Frame) (limit : ℕ)
      → IsQuiet
      → (on_data env st f limit).0 ≢ err connection_closed
  unfolding on_data check_size
  on_data-open st f limit quiet h = elim (Option-cases st.inflate) [
    | inl e ↦ ground (arith, e, h)
    | inr (d, e) ↦ ground (arith, e, h, quiet d f.payload f.fin limit)
  ]

  on_frame-open :
      (st : Streaming S C D) (f : Frame) (limit : ℕ)
      → IsQuiet
      → (on_frame env st f limit).0 ≢ err connection_closed
  unfolding on_frame on_close check_close close_reason
  on_frame-open st f limit quiet h =
      ground (arith, h, on_data-open st f (max_output_size st.max_payload_read f limit) quiet)

  -- A close frame comes out only as the frame that came in, and an accepted one closes.
  on_frame-closes :
      (st : Streaming S C D) (f g : Frame) (limit : ℕ)
      → (on_frame env st f limit).0 ≡ ok g
      → IsClosed env st ⊎ (f.opcode ≢ close)
      → g.opcode ≡ close
      → IsClosed env (on_frame env st f limit).1
  unfolding on_frame on_close on_data check_size emit_close
  on_frame-closes st f g limit h c o = ground (arith, h, c, o)

  release_read_buffer-read_half :
      (st : Streaming S C D) (n : ℕ) → (release_read_buffer env st n).read_half ≡ st.read_half
  unfolding release_read_buffer
  release_read_buffer-read_half st n = ground arith

  conclude-Ends :
      (got : Result Frame) (st : Streaming S C D)
      → got ≢ err connection_closed
      → ((g : Frame) → got ≡ ok g → g.opcode ≡ close → IsClosed env st)
      → Ends env (conclude env got st).0 (conclude env got st).1
  unfolding conclude
  conclude-Ends (ok g) st n h = h g refl
  conclude-Ends (err e) st n h = error-Ends e st (λ c. absurd (n (ap err c)))

  accept-Ends :
      (st : Streaming S C D) (f : Frame) (limit : ℕ)
      → IsQuiet
      → IsClosed env st ⊎ (f.opcode ≢ close)
      → Ends env (accept env st f limit).0 (accept env st f limit).1
  unfolding accept
  accept-Ends st f limit quiet c =
      let st' = release_read_buffer env st (length f.payload) in
      let (got, st'') = on_frame env st' f limit in
      conclude-Ends got st'' (on_frame-open st' f limit quiet) (λ g h o.
        on_frame-closes st' f g limit h
          (ground (arith, c, release_read_buffer-read_half st (length f.payload))) o)

  -- What the read half makes of an item, and what follows from it.
  on_item-Ends :
      (st : Streaming S C D) (item : Option (Result Frame)) (limit : ℕ)
      → IsQuiet
      → item ≢ some (err connection_closed)
      → (let (got, r) = on_item st.read_half item in
          let now = on_polled env (ready got) (record st { read_half = r }) limit in
          Ends env now.0 now.1)
  unfolding on_item receive on_polled
  on_item-Ends st none limit quiet n = error-Ends connection_closed _ (λ c. refl)
  on_item-Ends st (some (err e)) limit quiet n =
      error-Ends e _ (λ c. absurd (n (ap (λ x. some (err x)) c)))
  on_item-Ends st (some (ok f)) limit quiet n =
      accept-Ends (record st { read_half = (receive st.read_half f).1 }) (receive st.read_half f).0
        limit quiet (closing f.opcode st.read_half.is_closed)

  -- When the stream has an item, a call closes the read half unless it returns a frame that is no
  -- close frame: so after the end of the stream, a close frame, a protocol error or an error of
  -- the stream, nothing more is read. The stream and the decompressor are taken to report errors
  -- other than `ConnectionClosed`.
  pub poll_next_frame_with_limit-Ends :
      (st : Streaming S C D) (limit : ℕ) (item : Option (Result Frame))
      → IsQuiet
      → (env.poll_next st.stream).0 ≡ ready item
      → item ≢ some (err connection_closed)
      → Ends env
          (poll_next_frame_with_limit env st limit).0
          (poll_next_frame_with_limit env st limit).1
  unfolding poll_next_frame_with_limit poll_frame on_polled on_error
  poll_next_frame_with_limit-Ends st limit item quiet e n =
      elim (Bool-cases st.read_half.is_closed) [
        | inl shut ↦
            subst (λ (r : Poll (Result Frame) × Streaming S C D). Ends env r.0 r.1)
              (sym (closed-poll env st limit shut)) (error-Ends connection_closed st (λ c. shut))
        | inr live ↦
            rw (live, e)
              (on_item-Ends (record st { stream = (env.poll_next st.stream).1 }) item limit quiet n)
      ]
