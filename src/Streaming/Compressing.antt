-- ===== src/Streaming/Compressing.antt =====
-- RSV1 on the send side of src/native/streaming.rs: only the first frame of a message has it.
use yawc.Shared.{
  ◌≡◌, refl, subst, sym, inl, inr, Option-cases, ◌∙◌, ap, Bool, false, Option, none, some, List, [],
  ◌∷◌, arith,
}
use yawc.Error.{ok, err, Result-cases}
use yawc.Frame.{Frame, is_control, same_op, is_some}
use yawc.Halves.{WriteHalf, noted}
use yawc.Halves.Messages.{
  Follows, control, whole_text, whole_binary, first_text, first_binary, middle, last, Conversation,
  over, onward,
}
use yawc.Halves
use yawc.Streaming.{Env, Streaming, prepare, should_compress, start_send, hand_over}

-- Where the frame `g` leads from `n`, beside what the user's frame leads to.
abbrev pub Leads : Option Bool → Frame → Bool → WriteHalf → Type 0
Leads n g within w =
    (n' : Option Bool) × Follows n g n' × (is_some n' ≡ within) × (w.streaming ≡ within)

module _ {S C D : Type 0} (env : Env S C D) where
  prepare-Leads :
      {m m' : Option Bool} {f g : Frame} (st : Streaming S C D) (n : Option Bool)
      → Follows m f m'
      → f.is_compressed ≡ false
      → is_some n ≡ is_some m
      → st.write_half.streaming ≡ is_some n
      → (prepare env st f).0 ≡ ok g
      → Leads n g (is_some m') (noted (prepare env st f).1.write_half g)
  unfolding prepare should_compress noted is_control same_op
  prepare-Leads {g = g} st n (control c p) plain e s h =
      (n, control (ground (arith, c, h)) (ground (arith, c, p, h)), e, ground (arith, c, s, e, h))
  prepare-Leads {g = g} st none (whole_text o p) plain e s h = (
    none,
    whole_text (ground (arith, o, p, plain, s, h)) (ground (arith, o, p, plain, s, h)),
    refl,
    ground (arith, o, p, plain, s, h),
  )
  prepare-Leads {g = g} st (some b) (whole_text o p) plain e s h = absurd (ground (arith, e))
  prepare-Leads {g = g} st none (whole_binary o p) plain e s h = (
    none,
    whole_binary (ground (arith, o, p, plain, s, h)) (ground (arith, o, p, plain, s, h)),
    refl,
    ground (arith, o, p, plain, s, h),
  )
  prepare-Leads {g = g} st (some b) (whole_binary o p) plain e s h = absurd (ground (arith, e))
  prepare-Leads {g = g} st none (first_text o p) plain e s h = (
    some g.is_compressed,
    first_text (ground (arith, o, p, plain, s, h)) (ground (arith, o, p, plain, s, h)),
    refl,
    ground (arith, o, p, plain, s, h),
  )
  prepare-Leads {g = g} st (some b) (first_text o p) plain e s h = absurd (ground (arith, e))
  prepare-Leads {g = g} st none (first_binary o p) plain e s h = (
    some g.is_compressed,
    first_binary (ground (arith, o, p, plain, s, h)) (ground (arith, o, p, plain, s, h)),
    refl,
    ground (arith, o, p, plain, s, h),
  )
  prepare-Leads {g = g} st (some b) (first_binary o p) plain e s h = absurd (ground (arith, e))
  prepare-Leads {g = g} st (some b) (middle o p q) plain e s h = (
    some b,
    middle (ground (arith, o, p, q, plain, s, h)) (ground (arith, o, p, q, plain, s, h))
        (ground (arith, o, p, q, plain, s, h)),
    refl,
    ground (arith, o, p, q, plain, s, h),
  )
  prepare-Leads {g = g} st none (middle o p q) plain e s h = absurd (ground (arith, e))
  prepare-Leads {g = g} st (some b) (last o p q) plain e s h = (
    none,
    last (ground (arith, o, p, q, plain, s, h)) (ground (arith, o, p, q, plain, s, h))
        (ground (arith, o, p, q, plain, s, h)),
    refl,
    ground (arith, o, p, q, plain, s, h),
  )
  prepare-Leads {g = g} st none (last o p q) plain e s h = absurd (ground (arith, e))

  start_send-write_half :
      (st : Streaming S C D) (f g : Frame)
      → (prepare env st f).0 ≡ ok g
      → (start_send env st f).1.write_half ≡ noted (prepare env st f).1.write_half g
  unfolding start_send hand_over Halves.start_send
  start_send-write_half st f g h = ground (arith, h)

  -- The frames that go to the stream when these are sent one after another; none when compression
  -- fails.
  unfoldable pub outgoing : Streaming S C D → List Frame → Option (List Frame)
  unfolding start_send prepare
  outgoing st [] = some []
  outgoing st (f ∷ fs) =
      let rest = outgoing (start_send env st f).1 fs in
      elim (prepare env st f).0 [
        | err e ↦ none
        | ok g ↦ elim rest [ none ↦ none | some gs ↦ some (g ∷ gs) ]
      ]

  abbrev pub ArePlain : List Frame → Type 0
  ArePlain [] = Unit
  ArePlain (f ∷ fs) = (f.is_compressed ≡ false) × ArePlain fs

  -- Frames that the application sends by the fragment rules go out by them, with RSV1 on no frame
  -- but the first of a message, whichever of them are compressed: so the read half of the other
  -- side marks each message as its first frame says.
  pub outgoing-Conversation :
      {m m' : Option Bool} {fs gs : List Frame} (st : Streaming S C D) (n : Option Bool)
      → Conversation m fs m'
      → ArePlain fs
      → is_some n ≡ is_some m
      → st.write_half.streaming ≡ is_some n
      → outgoing st fs ≡ some gs
      → (n' : Option Bool) × Conversation n gs n' × (is_some n' ≡ is_some m')
  unfolding outgoing
  outgoing-Conversation {gs = gs} st n over plain e s h =
      let same : [] ≡ gs = ground (arith, h) in (n, subst (λ l. Conversation n l n) same over, e)
  outgoing-Conversation {gs = gs} st n (onward {f = f} {fs = fs} step rest) (p, ps) e s h =
      elim (Result-cases (prepare env st f).0) [
        | inr (er, x) ↦ absurd (ground (arith, h, x))
        | inl (g, x) ↦ elim (Option-cases (outgoing (start_send env st f).1 fs)) [
          | inl y ↦ absurd (ground (arith, h, x, y))
          | inr (gs', y) ↦
              let (k, first, ek, sk) = prepare-Leads st n step p e s x in
              let half = ap (λ (w : WriteHalf). w.streaming) (start_send-write_half st f g x) in
              let (n', more, en) =
                outgoing-Conversation (start_send env st f).1 k rest ps ek (half ∙ sk ∙ sym ek) y in
              let same : g ∷ gs' ≡ gs = ground (arith, h, x, y) in
              (n', subst (λ l. Conversation n l n') same (onward first more), en)
        ]
      ]
