-- ===== src/Socket/Reading.antt =====
-- The messages that src/native/mod.rs hands to the application.
use yawc.Shared.{
  ℕ, zero, suc, ◌+◌, ◌<◌, ◌≡◌, refl, subst, Bool, true, false, Option, none, some, length, arith,
}
use yawc.Error.{Result, ok, err, Poll, ready, pending}
use yawc.Frame.{Frame, text, same_op, is_control}
use yawc.Layer.{FragmentLayer, assemble_incoming, remaining_read_capacity}
use yawc.Layer.Bounds.{IsCounted, assemble_incoming-IsCounted}
use yawc.Streaming.{Env, poll_next_frame_with_limit}
use yawc.Streaming.Limits.{Returns, IsWithin, poll_next_frame_with_limit-Returns}
use yawc.Socket.{
  WebSocket, Turn, again, leave, check_text, on_frame, turn_of, turn_on, read_turn, poll_next_frame,
}

module _ {S C D : Type 0} (env : Env S C D) where
  -- A text message is UTF-8 where that is checked.
  abbrev pub IsText : Bool → Frame → Type 0
  IsText check_utf8 f = f.opcode ≡ text → check_utf8 ≡ true → env.is_utf8 f.payload ≡ true

  abbrev pub Delivers : Bool → Poll (Result Frame) → Type 0
  Delivers check_utf8 (ready (ok f)) = IsText check_utf8 f
  Delivers check_utf8 _ = Unit

  -- What a round leaves: the message under way is counted, and what it returns is text if it must.
  abbrev IsRead : Bool → Turn S C D → Type 0
  IsRead b (again ws) = IsCounted ws.fragment_layer × (ws.check_utf8 ≡ b)
  IsRead b (leave p ws) = IsCounted ws.fragment_layer × (ws.check_utf8 ≡ b) × Delivers b p

  -- The limit of a fragment is within the capacity of the layer.
  within-capacity :
      (l : FragmentLayer) (a : ℕ) (f : Frame)
      → IsWithin a (remaining_read_capacity l) f
      → is_control f.opcode ≡ false
      → f.fin ≡ false
      → length f.payload < l.max_read_buffer
  unfolding remaining_read_capacity
  within-capacity l a f h c e = let (plain, small, part, rest) = h c in ground (arith, part e)

  turn_of-IsRead :
      (now : ℕ) (ws : WebSocket S C D) (f : Frame)
      → IsCounted (assemble_incoming now ws.fragment_layer f).1
      → IsRead ws.check_utf8 (turn_of env (on_frame env now ws f).0 (on_frame env now ws f).1)
  unfolding turn_of on_frame check_text same_op
  turn_of-IsRead now ws f c = ground (arith, c)

  turn_on-IsRead :
      (now : ℕ) (p : Poll (Result Frame)) (ws : WebSocket S C D) (a : ℕ)
      → IsCounted ws.fragment_layer
      → Returns a (remaining_read_capacity ws.fragment_layer) p
      → IsRead ws.check_utf8 (turn_on env now p ws)
  unfolding turn_on
  turn_on-IsRead now pending ws a c h = (c, refl, tt)
  turn_on-IsRead now (ready (err e)) ws a c h = (c, refl, tt)
  turn_on-IsRead now (ready (ok f)) ws a c h =
      turn_of-IsRead now ws f
        (assemble_incoming-IsCounted now ws.fragment_layer f c
          (within-capacity ws.fragment_layer a f h)).0

  read_turn-IsRead :
      (now : ℕ) (ws : WebSocket S C D)
      → IsCounted ws.fragment_layer
      → IsRead ws.check_utf8 (read_turn env now ws)
  unfolding read_turn
  read_turn-IsRead now ws c =
      let limit = remaining_read_capacity ws.fragment_layer in
      let (polled, st) = poll_next_frame_with_limit env ws.streaming limit in
      turn_on-IsRead now polled (record ws { streaming = st }) ws.streaming.max_payload_read c
        (poll_next_frame_with_limit-Returns env ws.streaming limit)

  -- What a call of `poll_next_frame` leaves, where it returns.
  abbrev pub IsSafe : Bool → Option (Poll (Result Frame) × WebSocket S C D) → Type 0
  IsSafe b none = Unit
  IsSafe b (some (p, ws)) = IsCounted ws.fragment_layer × (ws.check_utf8 ≡ b) × Delivers b p

  -- Reading keeps the message under way within the read buffer limit and counted correctly, after
  -- any number of rounds and whatever the peer sends, and a text message that it returns is UTF-8
  -- if that is checked.
  pub poll_next_frame-IsSafe :
      (fuel : ℕ) (clock : ℕ → ℕ) (i : ℕ) (ws : WebSocket S C D)
      → IsCounted ws.fragment_layer
      → IsSafe ws.check_utf8 (poll_next_frame env fuel clock i ws)
  unfolding poll_next_frame
  poll_next_frame-IsSafe zero clock i ws c = tt
  poll_next_frame-IsSafe (suc fuel) clock i ws c =
      go (λ ws' c'. poll_next_frame-IsSafe fuel clock (i + 1) ws' c') (read_turn env (clock i) ws)
        (read_turn-IsRead (clock i) ws c)
    where
      go :
          ((ws' : WebSocket S C D)
            → IsCounted ws'.fragment_layer
            → IsSafe ws'.check_utf8 (poll_next_frame env fuel clock (i + 1) ws'))
          → (turn : Turn S C D) → IsRead ws.check_utf8 turn
          → IsSafe ws.check_utf8 (elim turn [
            | leave result ws' ↦ some (result, ws')
            | again ws' ↦ poll_next_frame env fuel clock (i + 1) ws'
          ])
      go next (leave result ws') h = h
      go next (again ws') (c', b) =
          subst (λ u. IsSafe u (poll_next_frame env fuel clock (i + 1) ws')) b (next ws' c')
