-- ===== src/Streaming/Flushing.antt =====
-- What `poll_flush_obligated` in src/native/streaming.rs does with the replies that are due, also where
-- the stream fails.
use yawc.Shared.{
  true, ◌≡◌, ◌⊎◌, inl, inr, refl, ◌∙◌, ap, subst, List, [], ◌∷◌, ◌++◌, append_assoc, arith,
}
use yawc.Error.{WebSocketError, Result, ok, err, Poll, ready, pending}
use yawc.Frame.{Frame}
use yawc.Halves
use yawc.Streaming.{Env, Streaming, drain, flush_after, poll_flush_obligated}
use yawc.Streaming.Replies.{promised, flush_after-promised}

module _ {S C D : Type 0} (env : Env S C D) where
  -- The stream `s` refused the frame `lost` with the error of the call; the frames before it were
  -- sent and those behind it are still due, so that `before` lacks nothing else.
  pub record Refused (before : List Frame) (result : Poll (Result (Unit {0})))
      (st : Streaming S C D) : Type 0 where
    pub at : S
    pub lost : Frame
    pub reason : WebSocketError
    pub reported : result ≡ ready (err reason)
    pub refused : env.sink.start_send at lost ≡ (err reason, st.stream)
    pub order : env.sink.sent at ++ (lost ∷ st.obligated_sends) ≡ before

  -- What was sent and is still due is what it was, or the stream refused a frame.
  abbrev pub Keeps : List Frame → Poll (Result (Unit {0})) → Streaming S C D → Type 0
  Keeps before result st = (promised env st ≡ before) ⊎ Refused before result st

  poll_ready-sent :
      (w : Halves.WriteHalf) (s : S)
      → env.sink.sent (Halves.poll_ready env.sink w s).1 ≡ env.sink.sent s
  unfolding Halves.poll_ready
  poll_ready-sent w s = ground (arith, env.sink.poll_ready-sent s)

  -- A round of the loop: the stream is not ready, refuses the frame or takes it.
  round-Keeps :
      (before : List Frame) (now : Poll (Result (Unit {0}))) (started : Result (Unit {0}))
      (waiting sent : Streaming S C D) (rest : Poll (Result (Unit {0})) × Streaming S C D)
      → promised env waiting ≡ before
      → ((e : WebSocketError) → started ≡ err e → Refused before (ready (err e)) sent)
      → (started ≡ ok tt → Keeps before rest.0 rest.1)
      → (let r : Poll (Result (Unit {0})) × Streaming S C D = elim now [
        | pending ↦ (pending, waiting)
        | ready (err e) ↦ (ready (err e), waiting)
        | ready (ok u) ↦ elim started [ err e ↦ (ready (err e), sent) | ok v ↦ rest ]
      ] in
          Keeps before r.0 r.1)
  round-Keeps before pending started waiting sent rest w l t = inl w
  round-Keeps before (ready (err e)) started waiting sent rest w l t = inl w
  round-Keeps before (ready (ok u)) (err e) waiting sent rest w l t = inr (l e refl)
  round-Keeps before (ready (ok u)) (ok v) waiting sent rest w l t = t refl

  drain-Keeps :
      (fs : List Frame) (st : Streaming S C D)
      → Keeps (env.sink.sent st.stream ++ fs) (drain env fs st).0 (drain env fs st).1
  unfolding drain Halves.start_send
  drain-Keeps [] st = inl refl
  drain-Keeps (f ∷ fs) st =
      let (now, s) = Halves.poll_ready env.sink st.write_half st.stream in
      let (started, (w, s')) = Halves.start_send env.sink st.write_half f s in
      let sent = record st { stream = s'; write_half = w; obligated_sends = fs } in
      let next = record sent { flush_sends = true } in
      let before = env.sink.sent st.stream ++ (f ∷ fs) in
      let same : env.sink.sent s ++ (f ∷ fs) ≡ before =
        ap (λ b. b ++ (f ∷ fs)) (poll_ready-sent st.write_half st.stream) in
      round-Keeps before now started (record st { stream = s; obligated_sends = f ∷ fs }) sent
        (drain env fs next) same
        (λ e h. record {
          at = s;
          lost = f;
          reason = e;
          reported = refl;
          refused = ap (λ r. (r, s')) h;
          order = same;
        })
        (λ h.
          subst (λ b. Keeps b (drain env fs next).0 (drain env fs next).1)
            (ap (λ b. b ++ fs) (env.sink.start_send-ok s f h)
              ∙ append_assoc (env.sink.sent s) (f ∷ []) fs
              ∙ same)
            (drain-Keeps fs next))

  -- The flush behind the loop, which sends nothing.
  behind :
      {before : List Frame} (drained : Poll (Result (Unit {0}))) (st : Streaming S C D)
      → Keeps before drained st
      → (let r : Poll (Result (Unit {0})) × Streaming S C D = elim drained [
        | pending ↦ (pending, st)
        | ready (err e) ↦ (ready (err e), st)
        | ready (ok u) ↦ flush_after env st
      ] in
          Keeps before r.0 r.1)
  behind pending st k = k
  behind (ready (err e)) st k = k
  behind (ready (ok u)) st (inl h) = inl (flush_after-promised env st ∙ h)
  behind (ready (ok u)) st (inr r) = absurd (ground (arith, r.reported))

  -- Flushing neither loses, doubles nor reorders a reply that is due, however far it comes before the
  -- transport blocks or fails: what was sent and is still due, in this order, is what it was. The one
  -- exception is the frame that the stream itself refuses: the call then ends with that error at
  -- once, that frame alone is gone, those before it were sent and those behind it are still due.
  pub poll_flush_obligated-Keeps :
      (st : Streaming S C D)
      → Keeps (promised env st) (poll_flush_obligated env st).0 (poll_flush_obligated env st).1
  unfolding poll_flush_obligated
  poll_flush_obligated-Keeps st =
      let (drained, st') = drain env st.obligated_sends st in
      behind drained st' (drain-Keeps st.obligated_sends st)
