-- ===== src/Pool/Sharing.antt =====
-- A decompressor that borrows its state from a pool (src/compression.rs, src/compression/pool.rs)
-- beside one that keeps its own.
use yawc.Shared.{
  ℕ, ◌≤◌, ◌≡◌, refl, sym, subst, ◌∙◌, by_test, inl, inr, Bool, Bool-cases, true, Option, none, some,
  List, [], ◌∷◌, length, ltb, ◌==◌, All, All-append, arith,
}
use yawc.Negotiation.{clamp, unwrap_or}
use yawc.Inflate.{Zlib, Inflate, new_inflate, reset}
use yawc.Inflate.Origin.{Origin}
use yawc.Pool.{DeflatePool, slot, push, pop, change, take_inflate, put_inflate, build}

-- The windows that a configuration holds.
abbrev pub IsConfig : Option ℕ → Type 0
IsConfig none = Unit
IsConfig (some b) = (9 ≤ b) × (b ≤ 15)

module _ {D : Type 0} (feature : Bool) {flate2 : Zlib D} (law : Origin flate2) where
  -- Windows that share a slot share their new state.
  same_slot :
      (v w : Option ℕ)
      → IsConfig v
      → IsConfig w
      → slot feature v ≡ slot feature w
      → build feature flate2 v ≡ build feature flate2 w
  unfolding slot clamp build
  same_slot v w hv hw e = elim (Bool-cases feature) [
    | inr f ↦ ground (arith, f)
    | inl f ↦ with_zlib v w hv hw f e
  ]
    where
      with_zlib :
          (v w : Option ℕ)
          → IsConfig v
          → IsConfig w
          → feature ≡ true
          → slot feature v ≡ slot feature w
          → build feature flate2 v ≡ build feature flate2 w
      with_zlib none none hv hw f e = refl
      with_zlib none (some b) hv hw f e =
          let full : b ≡ 15 = ground arith in ground (arith, f, full, law.default_window)
      with_zlib (some a) none hv hw f e =
          let full : a ≡ 15 = ground arith in ground (arith, f, full, law.default_window)
      with_zlib (some a) (some b) hv hw f e = let same : a ≡ b = ground arith in rw same refl

  -- Every idle decompressor is a new one for each window of its slot.
  abbrev pub IsNew : ℕ → Inflate D → Type 0
  IsNew k i = (w : Option ℕ) → IsConfig w → slot feature w ≡ k → i ≡ build feature flate2 w

  -- State between two calls: nothing in the buffer, and a decompressor for the window.
  abbrev pub IsIdle : Option ℕ → Inflate D → Type 0
  IsIdle w i = (i.output ≡ []) × (law.origin i.decompress ≡ (build feature flate2 w).decompress)

  -- The state with a pool beside the state without: what was handed back is new there.
  abbrev pub IsLike : Option ℕ → Option (Inflate D) → Option (Inflate D) → Type 0
  IsLike w none none = Unit
  IsLike w none (some j) = j ≡ build feature flate2 w
  IsLike w (some i) none = ⊥
  IsLike w (some i) (some j) = (i ≡ j) × IsIdle w i

  pub build-IsIdle : (w : Option ℕ) → IsIdle w (build feature flate2 w)
  unfolding build new_inflate
  build-IsIdle w = (refl, law.origin_fresh _)

  pub reset-build :
      (w : Option ℕ) (i : Inflate D) → IsIdle w i → reset flate2 i ≡ build feature flate2 w
  unfolding reset build new_inflate
  reset-build w i h = cc (h.0, law.reset_origin i.decompress, h.1)

  pub reset-IsNew :
      (w : Option ℕ) (i : Inflate D)
      → IsConfig w
      → IsIdle w i
      → IsNew (slot feature w) (reset flate2 i)
  reset-IsNew w i c h v cv e = reset-build w i h ∙ same_slot w v c cv (sym e)

  pop-All : (k : ℕ) (queue : List (Inflate D)) → All (IsNew k) queue → All (IsNew k) (pop queue).1
  unfolding pop
  pop-All k [] h = tt
  pop-All k (i ∷ queue) h = h.1

  push-All :
      (k capacity : ℕ) (i : Inflate D) (queue : List (Inflate D))
      → IsNew k i
      → All (IsNew k) queue
      → All (IsNew k) (push capacity i queue)
  unfolding push
  push-All k capacity i queue n h =
      by_test (All (IsNew k)) (ltb (length queue) capacity) _ _
        (λ e. All-append (IsNew k) queue (i ∷ []) h (n, tt)) (λ e. h)

  change-All :
      (k : ℕ) (queue : List (Inflate D)) (queues : ℕ → List (Inflate D))
      → All (IsNew k) queue
      → ((j : ℕ) → All (IsNew j) (queues j))
      → (j : ℕ) → All (IsNew j) (change k queue queues j)
  unfolding change
  change-All k queue queues h hs j =
      by_test (All (IsNew j)) (j == k) queue (queues j)
        (λ e. let same : k ≡ j = ground arith in subst (λ n. All (IsNew n) queue) same h)
        (λ e. hs j)

  module _ {C : Type 0} where
    abbrev pub IsFresh : Option (DeflatePool C D) → Type 0
    IsFresh none = Unit
    IsFresh (some none) = Unit
    IsFresh (some (some shared)) = (k : ℕ) → All (IsNew k) (shared.inflate k)

    pub take_inflate-IsFresh :
        (w : Option ℕ) (pool : DeflatePool C D)
        → IsFresh (some pool)
        → IsFresh (some (take_inflate feature w pool).1)
    unfolding take_inflate
    take_inflate-IsFresh w none h = tt
    take_inflate-IsFresh w (some shared) h =
        change-All (slot feature w) _ _ (pop-All (slot feature w) _ (h (slot feature w))) h

    pub put_inflate-IsFresh :
        (w : Option ℕ) (i : Inflate D) (pool : DeflatePool C D)
        → IsNew (slot feature w) i
        → IsFresh (some pool)
        → IsFresh (some (put_inflate feature w i pool))
    unfolding put_inflate
    put_inflate-IsFresh w i none n h = tt
    put_inflate-IsFresh w i (some shared) n h =
        change-All (slot feature w) _ _
          (push-All (slot feature w) shared.capacity i _ n (h (slot feature w))) h

    -- State that is taken from the pool is new.
    pub take_inflate-build :
        (w : Option ℕ) (pool : DeflatePool C D)
        → IsConfig w
        → IsFresh (some pool)
        → unwrap_or (take_inflate feature w pool).0 (build feature flate2 w)
          ≡ build feature flate2 w
    unfolding take_inflate pop
    take_inflate-build w none c h = refl
    take_inflate-build w (some shared) c h =
        head_lem (shared.inflate (slot feature w)) (h (slot feature w))
      where
        head_lem :
            (queue : List (Inflate D))
            → All (IsNew (slot feature w)) queue
            → unwrap_or (pop queue).0 (build feature flate2 w) ≡ build feature flate2 w
        head_lem [] h = refl
        head_lem (i ∷ queue) h = h.0 w c refl
