-- ===== src/Pool.antt =====
-- src/compression/pool.rs: `DeflatePool`, and src/compression.rs: `Decompressor`, which borrows its
-- state from one. The pool that connections share is passed to a call and returned beside its result.
-- `zlib` says whether that feature is built.
pub mod Capacity
pub mod Sharing
pub mod Refinement
use yawc.Shared.{
  ℕ, ◌-◌, Bool, true, false, ◌&&◌, Option, none, some, List, [], ◌∷◌, ◌++◌, length, ltb, ◌==◌,
  if◌then◌else◌,
}
use yawc.Error.{Result, ok, err}
use yawc.Negotiation.{HalfConfig, clamp, unwrap_or}
use yawc.Inflate.{Zlib, Inflate, new_inflate, reset, inflate}

-- What the pool reads of a `Deflate`: its level, beside the rest of its state.
pub record Deflate (C : Type 0) : Type 0 where
  pub level : ℕ
  pub state : C

-- The queues of a pool, by the index of a window size.
pub record SharedPool (C D : Type 0) : Type 0 where
  pub capacity : ℕ
  pub deflate : ℕ → List (Deflate C)
  pub inflate : ℕ → List (Inflate D)

-- A pool of capacity 0 has no queues.
abbrev pub DeflatePool : Type 0 → Type 0 → Type 0
DeflatePool C D = Option (SharedPool C D)

unfoldable pub new_pool : {C D : Type 0} → ℕ → DeflatePool C D
new_pool capacity =
    if ltb 0 capacity
    then some (record { capacity = capacity; deflate = λ k. []; inflate = λ k. [] })
    else none

unfoldable pub slot : Bool → Option ℕ → ℕ
unfolding clamp
slot zlib window_bits = if zlib then clamp 9 15 (unwrap_or window_bits 15) - 9 else 0

-- `ArrayQueue::push` and `pop` on one queue, and a change of one queue.
unfoldable pub push : {A : Type 0} → ℕ → A → List A → List A
push capacity a queue = if ltb (length queue) capacity then queue ++ (a ∷ []) else queue

unfoldable pub pop : {A : Type 0} → List A → Option A × List A
pop [] = (none, [])
pop (a ∷ queue) = (some a, queue)

unfoldable pub change : {A : Type 0} → ℕ → List A → (ℕ → List A) → ℕ → List A
change k queue queues j = if j == k then queue else queues j

-- `(deflate.level == level).then_some(deflate)`
unfoldable pub of_level : {C : Type 0} → ℕ → Option (Deflate C) → Option (Deflate C)
of_level level none = none
of_level level (some deflate) = if deflate.level == level then some deflate else none

module _ {C D : Type 0} (zlib : Bool) where
  unfoldable pub take_deflate :
      ℕ → Option ℕ → DeflatePool C D → Option (Deflate C) × DeflatePool C D
  unfolding slot pop change of_level
  take_deflate level window_bits none = (none, none)
  take_deflate level window_bits (some shared) =
      let k = slot zlib window_bits in
      let (found, queue) = pop (shared.deflate k) in
      (of_level level found, some (record shared { deflate = change k queue shared.deflate }))

  unfoldable pub put_deflate : Option ℕ → Deflate C → DeflatePool C D → DeflatePool C D
  unfolding slot push change
  put_deflate window_bits deflate none = none
  put_deflate window_bits deflate (some shared) =
      let k = slot zlib window_bits in
      some (record shared {
        deflate = change k (push shared.capacity deflate (shared.deflate k)) shared.deflate;
      })

  unfoldable pub take_inflate : Option ℕ → DeflatePool C D → Option (Inflate D) × DeflatePool C D
  unfolding slot pop change
  take_inflate window_bits none = (none, none)
  take_inflate window_bits (some shared) =
      let k = slot zlib window_bits in
      let (found, queue) = pop (shared.inflate k) in
      (found, some (record shared { inflate = change k queue shared.inflate }))

  unfoldable pub put_inflate : Option ℕ → Inflate D → DeflatePool C D → DeflatePool C D
  unfolding slot push change
  put_inflate window_bits i none = none
  put_inflate window_bits i (some shared) =
      let k = slot zlib window_bits in
      some (record shared {
        inflate = change k (push shared.capacity i (shared.inflate k)) shared.inflate;
      })

pub record Decompressor (D : Type 0) : Type 0 where
  pub inflate : Option (Inflate D)
  pub config : HalfConfig

unfoldable pub new_decompressor : {D : Type 0} → HalfConfig → Decompressor D
new_decompressor config = record { inflate = none; config = config }

-- New state for a window: only the zlib backends take its size.
unfoldable pub build : {D : Type 0} → Bool → Zlib D → Option ℕ → Inflate D
unfolding new_inflate
build feature flate2 window_bits = new_inflate flate2 (if feature then window_bits else none)

-- A failed call drops what is in the buffer.
unfoldable pub drop_output : {D : Type 0} → Result (List ℕ) → Inflate D → Inflate D
drop_output (ok out) i = i
drop_output (err reason) i = record i { output = [] }

module _ {C D : Type 0} (feature : Bool) (flate2 : Zlib D) where
  -- `get_or_insert_with`: the state, and the pool that it may be taken from.
  unfoldable pub get_inflate :
      Decompressor D → Option (DeflatePool C D) → Inflate D × Option (DeflatePool C D)
  unfolding build take_inflate
  get_inflate d pool = elim d.inflate [
    | some i ↦ (i, pool)
    | none ↦ elim pool [
      | none ↦ (build feature flate2 d.config.window_bits, none)
      | some shared ↦
          let (pooled, left) = take_inflate feature d.config.window_bits shared in
          (unwrap_or pooled (build feature flate2 d.config.window_bits), some left)
    ]
  ]

  -- The end of a message without context takeover: state that did not fail goes to the pool.
  unfoldable pub hand_back :
      Result (List ℕ)
      → Decompressor D
      → Inflate D
      → Option (DeflatePool C D)
      → Decompressor D × Option (DeflatePool C D)
  unfolding reset put_inflate
  hand_back (ok out) d i (some pool) = (
    record d { inflate = none },
    some (put_inflate feature d.config.window_bits (reset flate2 i) pool),
  )
  hand_back result d i pool = (record d { inflate = some (reset flate2 i) }, pool)

  -- What `Decompressor::decompress` leaves of the state that it used.
  unfoldable pub settle :
      Bool
      → Decompressor D
      → Result (List ℕ)
      → Inflate D
      → Option (DeflatePool C D)
      → Decompressor D × Option (DeflatePool C D)
  unfolding drop_output hand_back
  settle is_end d result i pool =
      if is_end && d.config.no_context_takeover
      then hand_back result d (drop_output result i) pool
      else (record d { inflate = some (drop_output result i) }, pool)

  -- `Decompressor::decompress`
  unfoldable pub decompress :
      (ℕ → ℕ)
      → List ℕ
      → Bool
      → ℕ
      → Decompressor D
      → Option (DeflatePool C D)
      → Option (Result (List ℕ) × (Decompressor D × Option (DeflatePool C D)))
  unfolding get_inflate inflate settle
  decompress room input is_end limit d pool =
      let (i, left) = get_inflate d pool in
      elim (inflate flate2 room input is_end limit i) [
        | none ↦ none
        | some (result, j) ↦ some (result, settle is_end d result j left)
      ]
