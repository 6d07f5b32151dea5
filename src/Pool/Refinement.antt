-- ===== src/Pool/Refinement.antt =====
-- `Decompressor::decompress` of src/compression.rs with a pool and without one.
use yawc.Shared.{
  ℕ, ◌≡◌, refl, sym, subst, ◌∙◌, inl, inr, Bool, Bool-cases, ◌&&◌, Option, none, some, List,
}
use yawc.Error.{Result, ok, err}
use yawc.Negotiation.{HalfConfig}
use yawc.Inflate.{Zlib, Inflate, reset, inflate, Run}
use yawc.Inflate.Bounds.{IsLawful, IsBounded, inflate-IsBounded}
use yawc.Inflate.Origin.{Origin, Keeps, inflate-Keeps}
use yawc.Pool.{
  DeflatePool, Decompressor, build, drop_output, get_inflate, hand_back, settle, decompress,
}
use yawc.Pool.Sharing.{
  IsConfig, IsIdle, IsLike, IsFresh, build-IsIdle, reset-build, reset-IsNew, take_inflate-IsFresh,
  take_inflate-build, put_inflate-IsFresh,
}

abbrev Outcome : Type 0 → Type 0 → Type 0
Outcome C D = Result (List ℕ) × (Decompressor D × Option (DeflatePool C D))

abbrev with_state : {D : Type 0} → HalfConfig → Option (Inflate D) → Decompressor D
with_state config state = record { inflate = state; config = config }

module _ {D : Type 0} (feature : Bool) {flate2 : Zlib D} (law : Origin flate2) where
  -- A decompressor with a pool beside one without.
  abbrev pub AreAlike : Decompressor D → Decompressor D → Type 0
  AreAlike d e = (d.config ≡ e.config) × IsLike feature law d.config.window_bits d.inflate e.inflate

  -- Both calls return, with the same result, and leave such a pair and a pool of new state.
  abbrev pub AgreeOn : {C : Type 0} → Option (Outcome C D) → Option (Outcome C D) → Type 0
  AgreeOn (some (r, (d, pool))) (some (q, (e, _))) =
      (r ≡ q) × AreAlike d e × IsFresh feature law pool
  AgreeOn _ _ = ⊥

  module _ {C : Type 0} (config : HalfConfig) (pool : Option (DeflatePool C D)) where
    -- New state, or state of the pool.
    got_new :
        IsConfig config.window_bits
        → IsFresh feature law pool
        → ((get_inflate feature flate2 (with_state config none) pool).0
            ≡ build feature flate2 config.window_bits)
          × IsFresh feature law (get_inflate feature flate2 (with_state config none) pool).1
    unfolding get_inflate
    got_new window fresh = from pool fresh
      where
        from :
            (pool : Option (DeflatePool C D))
            → IsFresh feature law pool
            → ((get_inflate feature flate2 (with_state config none) pool).0
                ≡ build feature flate2 config.window_bits)
              × IsFresh feature law (get_inflate feature flate2 (with_state config none) pool).1
        from none fresh = (refl, tt)
        from (some shared) fresh = (
          take_inflate-build feature law config.window_bits shared window fresh,
          take_inflate-IsFresh feature law config.window_bits shared fresh,
        )

    -- The state that the two calls work on.
    got :
        (x y : Option (Inflate D))
        → IsLike feature law config.window_bits x y
        → IsConfig config.window_bits
        → IsFresh feature law pool
        → ((get_inflate feature flate2 (with_state config x) pool).0
            ≡ (get_inflate {C = C} feature flate2 (with_state config y) none).0)
          × IsIdle feature law config.window_bits
              (get_inflate feature flate2 (with_state config x) pool).0
          × IsFresh feature law (get_inflate feature flate2 (with_state config x) pool).1
    unfolding get_inflate
    got none none like window fresh =
        let (e, f) = got_new window fresh in
        (
          e,
          subst (IsIdle feature law config.window_bits) (sym e)
              (build-IsIdle feature law config.window_bits),
          f,
        )
    got none (some j) like window fresh =
        let (e, f) = got_new window fresh in
        (
          e ∙ sym like,
          subst (IsIdle feature law config.window_bits) (sym e)
              (build-IsIdle feature law config.window_bits),
          f,
        )
    got (some i) none like window fresh = elim like [ ]
    got (some i) (some j) like window fresh = (like.0, like.1, fresh)

    reset-IsIdle :
        (j : Inflate D)
        → IsIdle feature law config.window_bits j
        → IsIdle feature law config.window_bits (reset flate2 j)
    reset-IsIdle j idle =
        subst (IsIdle feature law config.window_bits)
          (sym (reset-build feature law config.window_bits j idle))
          (build-IsIdle feature law config.window_bits)

    -- What they leave of the state.
    handed :
        (r : Result (List ℕ)) (j : Inflate D) (x y : Option (Inflate D))
        → IsConfig config.window_bits
        → IsIdle feature law config.window_bits j
        → IsFresh feature law pool
        → AgreeOn
            (some (r, hand_back feature flate2 r (with_state config x) j pool))
            (some (r, hand_back {C = C} feature flate2 r (with_state config y) j none))
    unfolding hand_back
    handed r j x y window idle fresh = by_pool r pool fresh
      where
        by_pool :
            (r : Result (List ℕ)) (pool : Option (DeflatePool C D))
            → IsFresh feature law pool
            → AgreeOn
                (some (r, hand_back feature flate2 r (with_state config x) j pool))
                (some (r, hand_back {C = C} feature flate2 r (with_state config y) j none))
        by_pool (err reason) pool fresh = (refl, (refl, (refl, reset-IsIdle j idle)), fresh)
        by_pool (ok out) none fresh = (refl, (refl, (refl, reset-IsIdle j idle)), tt)
        by_pool (ok out) (some shared) fresh = (
          refl,
          (refl, reset-build feature law config.window_bits j idle),
          put_inflate-IsFresh feature law config.window_bits (reset flate2 j) shared
              (reset-IsNew feature law config.window_bits j window idle) fresh,
        )

    settled :
        (is_end : Bool) (r : Result (List ℕ)) (j : Inflate D) (x y : Option (Inflate D))
        → IsConfig config.window_bits
        → IsIdle feature law config.window_bits (drop_output r j)
        → IsFresh feature law pool
        → AgreeOn
            (some (r, settle feature flate2 is_end (with_state config x) r j pool))
            (some (r, settle {C = C} feature flate2 is_end (with_state config y) r j none))
    unfolding settle
    settled is_end r j x y window idle fresh =
        elim (Bool-cases (is_end && config.no_context_takeover)) [
          | inl e ↦ rw (e, AgreeOn, settle) (handed r (drop_output r j) x y window idle fresh)
          | inr e ↦ rw (e, AgreeOn, settle) (refl, (refl, (refl, idle)), fresh)
        ]

  module _ (lawful : IsLawful flate2) {C : Type 0} (config : HalfConfig) where
    no_pool :
        (y : Option (Inflate D))
        → (get_inflate {C = C} feature flate2 (with_state config y) none).1 ≡ none
    unfolding get_inflate
    no_pool none = refl
    no_pool (some j) = refl

    -- What a call does with the run of its state.
    abbrev after :
        Bool → Decompressor D → Run D (List ℕ) → Option (DeflatePool C D) → Option (Outcome C D)
    after is_end d run left = elim run [
      | none ↦ none
      | some (result, j) ↦ some (result, settle feature flate2 is_end d result j left)
    ]

    after-AgreeOn :
        (is_end : Bool) (limit : ℕ) (run : Run D (List ℕ)) (x y : Option (Inflate D))
        (pool : Option (DeflatePool C D))
        → IsConfig config.window_bits
        → IsBounded flate2 lawful limit run
        → Keeps law (build feature flate2 config.window_bits).decompress run
        → IsFresh feature law pool
        → AgreeOn
            (after is_end (with_state config x) run pool)
            (after is_end (with_state config y) run none)
    unfolding drop_output
    after-AgreeOn is_end limit none x y pool window b k fresh = elim b [ ]
    after-AgreeOn is_end limit (some (err reason, j)) x y pool window b k fresh =
        settled config pool is_end (err reason) j x y window (refl, k) fresh
    after-AgreeOn is_end limit (some (ok out, j)) x y pool window b k fresh =
        settled config pool is_end (ok out) j x y window (b.1, k) fresh

    decompress_alike :
        (room : ℕ → ℕ) (input : List ℕ) (is_end : Bool) (limit : ℕ) (x y : Option (Inflate D))
        (pool : Option (DeflatePool C D))
        → IsLike feature law config.window_bits x y
        → IsConfig config.window_bits
        → IsFresh feature law pool
        → AgreeOn
            (decompress feature flate2 room input is_end limit (with_state config x) pool)
            (decompress feature flate2 room input is_end limit (with_state config y) none)
    unfolding decompress
    decompress_alike room input is_end limit x y pool like window fresh =
        let (same, idle, left) = got config pool x y like window fresh in
        let i = (get_inflate feature flate2 (with_state config x) pool).0 in
        let run = inflate flate2 room input is_end limit i in
        let first =
          after is_end (with_state config x) run
            (get_inflate feature flate2 (with_state config x) pool).1 in
        subst
          (λ p. AgreeOn first (
            after is_end (with_state config y)
              (inflate flate2 room input is_end limit
                (get_inflate {C = C} feature flate2 (with_state config y) none).0)
              p))
          (sym (no_pool y))
          (subst
            (λ j.
              AgreeOn first (
                after is_end (with_state config y) (inflate flate2 room input is_end limit j) none))
            same
            (after-AgreeOn is_end limit run x y _ window
              (inflate-IsBounded flate2 lawful limit room input is_end i idle.0)
              (inflate-Keeps law _ room input is_end limit i idle.1) left))

  -- A pool is invisible: a decompressor that borrows its state from one, whatever other connections
  -- did to it, returns on each call the same bytes or error as one that keeps its own state and has
  -- the same room in each round, and leaves the two alike again, with nothing but new state in the
  -- pool. Both calls return.
  pub decompress-AgreeOn :
      (lawful : IsLawful flate2) {C : Type 0} (room : ℕ → ℕ) (input : List ℕ) (is_end : Bool)
      (limit : ℕ) (d e : Decompressor D) (pool : Option (DeflatePool C D))
      → AreAlike d e
      → IsConfig d.config.window_bits
      → IsFresh feature law pool
      → AgreeOn
          (decompress feature flate2 room input is_end limit d pool)
          (decompress feature flate2 room input is_end limit e none)
  decompress-AgreeOn lawful room input is_end limit d e pool alike window fresh =
      subst
        (λ c.
          AgreeOn (decompress feature flate2 room input is_end limit d pool)
            (decompress feature flate2 room input is_end limit (with_state c e.inflate) none))
        alike.0
        (decompress_alike lawful d.config room input is_end limit d.inflate e.inflate pool alike.1
          window fresh)
