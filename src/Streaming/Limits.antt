-- ===== src/Streaming/Limits.antt =====
-- The frames that src/native/streaming.rs hands on: inflated, and within the limits.
use yawc.Shared.{ℕ, ◌<◌, ◌≡◌, refl, subst, false, length, arith}
use yawc.Error.{WebSocketError, Result, ok, err, Poll, ready, pending}
use yawc.Frame.{Frame, continuation, is_control, same_op}
use yawc.Halves.{poll_frame}
use yawc.Streaming.{
  Env, Streaming, on_frame, on_close, on_data, check_size, max_output_size, on_error, conclude,
  accept, on_polled, flush_then, release_read_buffer, poll_next_frame_with_limit,
}

-- A data frame is not compressed and its payload is below the first limit; that of a fragment, which
-- is not final or continues a message, is below the second too.
abbrev pub IsWithin : ℕ → ℕ → Frame → Type 0
IsWithin max_payload_read max_read_buffer f =
    is_control f.opcode ≡ false
    → (f.is_compressed ≡ false)
      × (length f.payload < max_payload_read)
      × (f.fin ≡ false → length f.payload < max_read_buffer)
      × (f.opcode ≡ continuation → length f.payload < max_read_buffer)

-- No frame is returned.
abbrev pub NoFrame : Poll (Result Frame) → Type 0
NoFrame (ready (ok f)) = ⊥
NoFrame _ = Unit

-- What a call may return under its limits.
abbrev pub Returns : ℕ → ℕ → Poll (Result Frame) → Type 0
Returns a b (ready (ok f)) = IsWithin a b f
Returns a b _ = Unit

NoFrame-Returns : (a b : ℕ) (p : Poll (Result Frame)) → NoFrame p → Returns a b p
NoFrame-Returns a b (ready (ok f)) h = absurd h
NoFrame-Returns a b (ready (err e)) h = tt
NoFrame-Returns a b pending h = tt

module _ {S C D : Type 0} (env : Env S C D) where
  on_data-within :
      (st : Streaming S C D) (f g : Frame) (limit : ℕ)
      → (on_data env st f limit).0 ≡ ok g
      → (g.opcode ≡ f.opcode)
        × (g.fin ≡ f.fin)
        × (g.is_compressed ≡ false)
        × (length g.payload < limit)
  unfolding on_data check_size
  on_data-within st f g limit h = ground (arith, h)

  on_frame-limit :
      (st : Streaming S C D) (f g : Frame) (limit : ℕ)
      → (on_frame env st f limit).0 ≡ ok g
      → is_control g.opcode ≡ false
      → (g.is_compressed ≡ false) × (length g.payload < max_output_size st.max_payload_read g limit)
  unfolding on_frame on_close is_control max_output_size same_op
  on_frame-limit st f g limit h c =
      ground (arith, h, c, on_data-within st f g (max_output_size st.max_payload_read f limit))

  below_limit :
      (a b : ℕ) (g : Frame)
      → length g.payload < max_output_size a g b
      → (length g.payload < a)
        × (g.fin ≡ false → length g.payload < b)
        × (g.opcode ≡ continuation → length g.payload < b)
  unfolding max_output_size same_op
  below_limit a b g h = (ground (arith, h), λ e. ground (arith, h, e), λ e. ground (arith, h, e))

  on_frame-IsWithin :
      (st : Streaming S C D) (f g : Frame) (limit : ℕ)
      → (on_frame env st f limit).0 ≡ ok g
      → IsWithin st.max_payload_read limit g
  on_frame-IsWithin st f g limit h c =
      let (plain, small) = on_frame-limit st f g limit h c in
      let (whole, part, rest) = below_limit st.max_payload_read limit g small in
      (plain, whole, part, rest)

  pub on_error-NoFrame : (e : WebSocketError) (st : Streaming S C D) → NoFrame (on_error env e st).0
  unfolding on_error flush_then
  on_error-NoFrame e st = ground arith

  pub flush_then-NoFrame : (st : Streaming S C D) → NoFrame (flush_then env pending st).0
  unfolding flush_then
  flush_then-NoFrame st = ground arith

  conclude-Returns :
      (a b : ℕ) (got : Result Frame) (st : Streaming S C D)
      → ((g : Frame) → got ≡ ok g → IsWithin a b g)
      → Returns a b (conclude env got st).0
  unfolding conclude
  conclude-Returns a b (ok g) st h = h g refl
  conclude-Returns a b (err e) st h = NoFrame-Returns a b _ (on_error-NoFrame e st)

  release_read_buffer-max :
      (st : Streaming S C D) (n : ℕ)
      → (release_read_buffer env st n).max_payload_read ≡ st.max_payload_read
  unfolding release_read_buffer
  release_read_buffer-max st n = ground arith

  on_polled-Returns :
      (polled : Poll (Result Frame)) (st : Streaming S C D) (limit : ℕ)
      → Returns st.max_payload_read limit (on_polled env polled st limit).0
  unfolding on_polled accept
  on_polled-Returns pending st limit = NoFrame-Returns _ _ _ (flush_then-NoFrame st)
  on_polled-Returns (ready (err e)) st limit = NoFrame-Returns _ _ _ (on_error-NoFrame e st)
  on_polled-Returns (ready (ok f)) st limit =
      let st' = release_read_buffer env st (length f.payload) in
      conclude-Returns st.max_payload_read limit (on_frame env st' f limit).0
        (on_frame env st' f limit).1
        (λ g h.
          subst (λ a. IsWithin a limit g) (release_read_buffer-max st (length f.payload))
            (on_frame-IsWithin st' f g limit h))

  -- Every text, binary or continuation frame that a poll returns is decompressed, and its payload
  -- is below `max_payload_read`; that of a fragment, which is not final or continues a message, is
  -- also below the limit that the caller gave.
  pub poll_next_frame_with_limit-Returns :
      (st : Streaming S C D) (limit : ℕ)
      → Returns st.max_payload_read limit (poll_next_frame_with_limit env st limit).0
  unfolding poll_next_frame_with_limit
  poll_next_frame_with_limit-Returns st limit =
      let (polled, (r, s)) = poll_frame env.poll_next st.read_half st.stream in
      on_polled-Returns polled (record st { stream = s; read_half = r }) limit
