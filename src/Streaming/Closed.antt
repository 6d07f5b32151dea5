-- ===== src/Streaming/Closed.antt =====
-- The end of reading in src/native/streaming.rs: what closes the read half, and that it stays so.
use yawc.Shared.{ℕ, ◌≡◌, refl, ap, ◌∙◌, true, some, List, [], ◌∷◌, arith}
use yawc.Error.{connection_closed, Result, ok, err, Poll, ready}
use yawc.Frame.{Frame, close}
use yawc.Halves
use yawc.Halves.{ReadHalf, poll_frame, on_item, receive}
use yawc.Streaming.{
  Env, Streaming, drain, flush_after, poll_flush_obligated, flush_then, on_error, on_polled,
  release_write_buffer, poll_next_frame_with_limit, poll_ready, start_send, prepare, hand_over,
  poll_flush, poll_close,
}
use yawc.Streaming.Limits.{NoFrame}

module _ {S C D : Type 0} (env : Env S C D) where
  abbrev pub IsClosed : Streaming S C D → Type 0
  IsClosed st = st.read_half.is_closed ≡ true

  drain-read_half :
      (fs : List Frame) (st : Streaming S C D) → (drain env fs st).1.read_half ≡ st.read_half
  unfolding drain
  drain-read_half [] st = refl
  drain-read_half (f ∷ fs) st =
      let s = (Halves.poll_ready env.sink st.write_half st.stream).1 in
      let (w, s') = (Halves.start_send env.sink st.write_half f s).1 in
      ground (
        arith,
        drain-read_half fs
            (record st { stream = s'; write_half = w; obligated_sends = fs; flush_sends = true }),
      )

  poll_flush_obligated-read_half :
      (st : Streaming S C D) → (poll_flush_obligated env st).1.read_half ≡ st.read_half
  unfolding poll_flush_obligated flush_after
  poll_flush_obligated-read_half st = ground (arith, drain-read_half st.obligated_sends st)

  pub flush_then-read_half :
      (result : Poll (Result Frame)) (st : Streaming S C D)
      → (flush_then env result st).1.read_half ≡ st.read_half
  unfolding flush_then
  flush_then-read_half result st = ground (arith, poll_flush_obligated-read_half st)

  -- Nothing but reading changes the read half.
  poll_ready-read_half : (st : Streaming S C D) → (poll_ready env st).1.read_half ≡ st.read_half
  unfolding poll_ready
  poll_ready-read_half st = ground (arith, poll_flush_obligated-read_half st)

  start_send-read_half :
      (st : Streaming S C D) (f : Frame) → (start_send env st f).1.read_half ≡ st.read_half
  unfolding start_send prepare hand_over
  start_send-read_half st f = ground arith

  poll_flush-read_half : (st : Streaming S C D) → (poll_flush env st).1.read_half ≡ st.read_half
  unfolding poll_flush release_write_buffer
  poll_flush-read_half st = ground arith

  poll_close-read_half :
      (st st' : Streaming S C D) (result : Poll (Result (Unit {0})))
      → poll_close env st ≡ some (result, st')
      → st'.read_half ≡ st.read_half
  unfolding poll_close
  poll_close-read_half st st' result e = ground (arith, e)

  -- A poll of a closed connection reports that it is closed, after it has flushed what is due.
  pub closed-poll :
      (st : Streaming S C D) (limit : ℕ)
      → IsClosed st
      → (poll_next_frame_with_limit env st limit
          ≡ flush_then env (ready (err connection_closed)) st)
  unfolding poll_next_frame_with_limit on_polled on_error poll_frame
  closed-poll st limit h = rw h

  -- What a connection may become by its public operations, and by its polls with any limit.
  pub data Becomes : Streaming S C D → Streaming S C D → Type 0 where
    stays : {st : Streaming S C D} → Becomes st st
    reads :
        {st st' : Streaming S C D} (limit : ℕ)
        → Becomes st st'
        → Becomes st (poll_next_frame_with_limit env st' limit).1
    readies : {st st' : Streaming S C D} → Becomes st st' → Becomes st (poll_ready env st').1
    sends :
        {st st' : Streaming S C D} (f : Frame)
        → Becomes st st'
        → Becomes st (start_send env st' f).1
    flushes : {st st' : Streaming S C D} → Becomes st st' → Becomes st (poll_flush env st').1
    closes :
        {st st' st'' : Streaming S C D} (result : Poll (Result (Unit {0})))
        → poll_close env st' ≡ some (result, st'')
        → Becomes st st'
        → Becomes st st''

  stays-IsClosed : {st st' : Streaming S C D} → Becomes st st' → IsClosed st → IsClosed st'
  stays-IsClosed stays h = h
  stays-IsClosed (reads {st} {st'} limit b) h =
      let c = stays-IsClosed b h in
      ap (λ r. r.1.read_half.is_closed) (closed-poll st' limit c)
      ∙ ap (λ (r : ReadHalf). r.is_closed)
          (flush_then-read_half (ready (err connection_closed)) st')
      ∙ c
  stays-IsClosed (readies {st} {st'} b) h =
      ap (λ (r : ReadHalf). r.is_closed) (poll_ready-read_half st') ∙ stays-IsClosed b h
  stays-IsClosed (sends {st} {st'} f b) h =
      ap (λ (r : ReadHalf). r.is_closed) (start_send-read_half st' f) ∙ stays-IsClosed b h
  stays-IsClosed (flushes {st} {st'} b) h =
      ap (λ (r : ReadHalf). r.is_closed) (poll_flush-read_half st') ∙ stays-IsClosed b h
  stays-IsClosed (closes {st} {st'} {st''} result e b) h =
      ap (λ (r : ReadHalf). r.is_closed) (poll_close-read_half st' st'' result e)
      ∙ stays-IsClosed b h

  -- Once the read half is closed no poll returns a frame again, whatever operations come between
  -- and with whatever limit.
  pub closed_for_good :
      {st st' : Streaming S C D} (limit : ℕ)
      → Becomes st st'
      → IsClosed st
      → NoFrame (poll_next_frame_with_limit env st' limit).0
  unfolding flush_then
  closed_for_good {st} {st'} limit b h =
      rw (closed-poll st' limit (stays-IsClosed b h)) (ground arith)

  -- What a call leaves when the stream had an item for it: closed, unless it returned a frame that
  -- is no close frame.
  abbrev pub Ends : Poll (Result Frame) → Streaming S C D → Type 0
  Ends (ready (ok f)) st = f.opcode ≡ close → IsClosed st
  Ends _ st = IsClosed st
