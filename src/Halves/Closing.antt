-- ===== src/Halves/Closing.antt =====
-- The closing handshake of the write half of src/native/split.rs.
use yawc.Shared.{
  ℕ, zero, suc, ◌≤◌, ◌≡◌, refl, sym, ap, ◌∙◌, subst, by_test, false, Option, none, some, List, [],
  ◌∷◌, ◌++◌, arith,
}
use yawc.Error.{WebSocketError, Result, ok, err, Poll, ready, pending}
use yawc.Close
use yawc.Frame.{Frame, close_frame}
use yawc.Halves.{
  FrameSink, WriteHalf, CloseState, sending, flushing, closing, done, Round, again, leave, is_done,
  close_round, send_close, close_loop, poll_close, poll_ready, start_send, noted, new_write_half,
  at_state, is_pending,
}

-- The frame that `poll_close` sends when the user sent none.
abbrev pub goodbye : Frame
goodbye = close_frame Close.normal []

-- How many rounds a half is from breaking out of the loop.
abbrev rounds : Option CloseState → ℕ
rounds none = 5
rounds (some (sending f)) = 4
rounds (some flushing) = 3
rounds (some closing) = 2
rounds (some done) = 1

module _ {S : Type 0} (sink : FrameSink S) (before : List Frame) where
  -- `before` was sent when closing began: nothing more is sent until the close frame of the half
  -- has been accepted, and then that frame alone.
  abbrev pub SendsOnce : Option CloseState → S → Type 0
  SendsOnce none s = sink.sent s ≡ before
  SendsOnce (some (sending f)) s = (f ≡ goodbye) × (sink.sent s ≡ before)
  SendsOnce (some _) s = sink.sent s ≡ before ++ (goodbye ∷ [])

  -- The stream, with nothing sent but `before`, was handed the close frame once and refused it.
  abbrev pub Refuses : WebSocketError → S → Type 0
  Refuses e s = (t : S) × (sink.sent t ≡ before) × (sink.start_send t goodbye ≡ (err e, s))

  -- What a call of `poll_close` leaves: still waiting with a close state that is not done, closed
  -- with the close frame sent, or failed as the stream refused that frame.
  abbrev pub Closes : Poll (Result (Unit {0})) → WriteHalf → S → Type 0
  Closes pending w s = (is_done w.close_state ≡ false) × SendsOnce w.close_state s
  Closes (ready (ok u)) w s = (w.close_state ≡ none) × (sink.sent s ≡ before ++ (goodbye ∷ []))
  Closes (ready (err e)) w s = (w.close_state ≡ none) × Refuses e s

  abbrev GoesOn : ℕ → Round S → Type 0
  GoesOn n (again w s) = (rounds w.close_state ≤ n) × SendsOnce w.close_state s
  GoesOn n (leave result w s) = Closes result w s

  -- What follows the call of `start_send`.
  started-goes :
      (n : ℕ) (w : WriteHalf) (t : S) (r : Result (Unit {0}))
      → 4 ≤ suc n
      → r ≡ (sink.start_send t goodbye).0
      → sink.sent t ≡ before
      → GoesOn n (elim r [
        | ok u ↦ again (at_state w flushing) (sink.start_send t goodbye).1
        | err e ↦
            leave (ready (err e)) (record w { close_state = none }) (sink.start_send t goodbye).1
      ])
  started-goes n w t (ok u) h e p =
      (omega arith, sink.start_send-ok t goodbye (sym e) ∙ ap (λ b. b ++ (goodbye ∷ [])) p)
  started-goes n w t (err x) h e p =
      (refl, (t, p, ap (λ r. (r, (sink.start_send t goodbye).1)) (sym e)))

  send_close-goes :
      (n : ℕ) (w : WriteHalf) (f : Frame) (s : S)
      → 4 ≤ suc n
      → f ≡ goodbye
      → sink.sent s ≡ before
      → GoesOn n (send_close sink w f s)
  unfolding send_close
  send_close-goes n w f s h e p =
      subst (λ g. GoesOn n (send_close sink w g s)) (sym e)
        (by_test (GoesOn n) (is_pending (sink.poll_ready s).0) _ _
          (λ _. (refl, (refl, sink.poll_ready-sent s ∙ p)))
          (λ _. started-goes n w (sink.poll_ready s).1 _ h refl (sink.poll_ready-sent s ∙ p)))

  close_round-goes :
      (n : ℕ) (w : WriteHalf) (s : S)
      → rounds w.close_state ≤ suc n
      → SendsOnce w.close_state s
      → GoesOn n (close_round sink w s)
  unfolding close_round
  close_round-goes n w s h p = go w.close_state h p
    where
      go :
          (c : Option CloseState)
          → rounds c ≤ suc n
          → SendsOnce c s
          → GoesOn n (close_round sink (record w { close_state = c }) s)
      go none h p = (omega arith, (refl, p))
      go (some (sending f)) h p = send_close-goes n (at_state w (sending f)) f s h p.0 p.1
      go (some flushing) h p =
          by_test (GoesOn n) (is_pending (sink.poll_flush s).0) _ _
            (λ _. (refl, sink.poll_flush-sent s ∙ p))
            (λ _. (omega arith, sink.poll_flush-sent s ∙ p))
      go (some closing) h p =
          by_test (GoesOn n) (is_pending (sink.poll_close s).0) _ _
            (λ _. (refl, sink.poll_close-sent s ∙ p))
            (λ _. (omega arith, sink.poll_close-sent s ∙ p))
      go (some done) h p = (refl, p)

  -- A loop that returns, with what it returns.
  abbrev pub Returns : Option (Poll (Result (Unit {0})) × (WriteHalf × S)) → Type 0
  Returns r =
      (result : Poll (Result (Unit {0}))) × (w' : WriteHalf) × (s' : S) × (r
        ≡ some (result, (w', s')))
      × Closes result w' s'

  close_loop-closes :
      (n : ℕ) (w : WriteHalf) (s : S)
      → rounds w.close_state ≤ n
      → SendsOnce w.close_state s
      → Returns (close_loop sink n w s)
  unfolding close_loop
  close_loop-closes zero w s h p = absurd (no_rounds w.close_state h)
    where
      no_rounds : (c : Option CloseState) → rounds c ≤ 0 → ⊥
      no_rounds c h = ground arith
  close_loop-closes (suc n) w s h p =
      go (close_loop-closes n) (close_round sink w s) (close_round-goes n w s h p)
    where
      go :
          ((w' : WriteHalf) (s' : S)
            → rounds w'.close_state ≤ n
            → SendsOnce w'.close_state s'
            → Returns (close_loop sink n w' s'))
          → (round : Round S) → GoesOn n round
          → Returns (elim round [
            | leave result w' s' ↦ some (result, (w', s'))
            | again w' s' ↦ close_loop sink n w' s'
          ])
      go next (leave result w' s') c = (result, w', s', refl, c)
      go next (again w' s') (k, q) = next w' s' k q

  -- `poll_close` always returns. From a half that has not begun to close, or one that an earlier
  -- call left waiting, it leaves the half waiting, closed or failed: waiting with the close frame
  -- sent at most once, closed with it sent exactly once behind what was sent before, or failed
  -- because the stream refused it, which was then handed over once with nothing else sent.
  pub poll_close-Closes :
      (w : WriteHalf) (s : S) → SendsOnce w.close_state s → Returns (poll_close sink w s)
  unfolding poll_close
  poll_close-Closes w s p = close_loop-closes 5 w s (at_most w.close_state) p
    where
      at_most : (c : Option CloseState) → rounds c ≤ 5
      at_most c = ground arith

module _ {S : Type 0} (sink : FrameSink S) where
  -- The halves that a user can come to, through every public operation.
  pub data Reaches : WriteHalf → Type 0 where
    opened : Reaches new_write_half
    sends : {w : WriteHalf} (f : Frame) (s : S) → Reaches w → Reaches (start_send sink w f s).1.0
    closes :
        {w w' : WriteHalf} (s s' : S) (result : Poll (Result (Unit {0})))
        → poll_close sink w s ≡ some (result, (w', s'))
        → Reaches w
        → Reaches w'

  abbrev NotDone : Round S → Type 0
  NotDone (again w s) = Unit
  NotDone (leave result w s) = is_done w.close_state ≡ false

  close_round-NotDone : (w : WriteHalf) (s : S) → NotDone (close_round sink w s)
  unfolding close_round send_close
  close_round-NotDone w s = ground arith

  close_loop_not_done :
      (n : ℕ) (w : WriteHalf) (s : S) {result : Poll (Result (Unit {0}))} {w' : WriteHalf} {s' : S}
      → close_loop sink n w s ≡ some (result, (w', s'))
      → is_done w'.close_state ≡ false
  unfolding close_loop
  close_loop_not_done zero w s e = ground arith
  close_loop_not_done (suc n) w s {result} {w'} {s'} e =
      go (λ v t q. close_loop_not_done n v t q) (close_round sink w s) (close_round-NotDone w s) e
    where
      go :
          ((v : WriteHalf) (t : S)
            → close_loop sink n v t ≡ some (result, (w', s'))
            → is_done w'.close_state ≡ false)
          → (round : Round S) → NotDone round
          → (elim round [ leave r v t ↦ some (r, (v, t)) | again v t ↦ close_loop sink n v t ])
            ≡ some (result, (w', s'))
          → is_done w'.close_state ≡ false
      go next (leave r v t) c e' = ground (arith, c, e')
      go next (again v t) c e' = next v t e'

  reached_not_done : {w : WriteHalf} → Reaches w → is_done w.close_state ≡ false
  unfolding start_send noted poll_close
  reached_not_done opened = refl
  reached_not_done (sends {w} f s r) = ground (arith, reached_not_done r)
  reached_not_done (closes {w} {w'} s s' result e r) = close_loop_not_done 5 w s e

  -- The guard of `poll_ready` never fires: in a half that the operations lead to, `Done` is not
  -- there between calls, as `poll_close` takes it when it returns, so `poll_ready` asks the sink
  -- also after the connection was closed.
  pub poll_ready-reached :
      {w : WriteHalf} (s : S) → Reaches w → poll_ready sink w s ≡ sink.poll_ready s
  unfolding poll_ready
  poll_ready-reached s r = rw (reached_not_done r)
