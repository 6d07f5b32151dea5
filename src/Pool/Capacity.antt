-- ===== src/Pool/Capacity.antt =====
-- The bound on the idle state of a pool (src/compression/pool.rs).
use yawc.Shared.{
  ℕ, ◌≤◌, ◌≡◌, refl, by_test, Bool, Option, none, some, List, [], ◌∷◌, length, length-append, ltb,
  arith,
}
use yawc.Inflate.{Inflate}
use yawc.Pool.{
  Deflate, DeflatePool, new_pool, slot, push, pop, change, take_deflate, put_deflate, take_inflate,
  put_inflate,
}

-- The pools that connections get from a new one by any sequence of calls.
pub data Reaches {C D : Type 0} (zlib : Bool) (capacity : ℕ) : DeflatePool C D → Type 0 where
  created : Reaches zlib capacity (new_pool capacity)
  takes_deflate :
      (pool : DeflatePool C D) (level : ℕ) (window : Option ℕ)
      → Reaches zlib capacity pool
      → Reaches zlib capacity (take_deflate zlib level window pool).1
  puts_deflate :
      (pool : DeflatePool C D) (window : Option ℕ) (deflate : Deflate C)
      → Reaches zlib capacity pool
      → Reaches zlib capacity (put_deflate zlib window deflate pool)
  takes_inflate :
      (pool : DeflatePool C D) (window : Option ℕ)
      → Reaches zlib capacity pool
      → Reaches zlib capacity (take_inflate zlib window pool).1
  puts_inflate :
      (pool : DeflatePool C D) (window : Option ℕ) (i : Inflate D)
      → Reaches zlib capacity pool
      → Reaches zlib capacity (put_inflate zlib window i pool)

-- No queue is longer than the capacity.
abbrev pub IsWithin : {C D : Type 0} → ℕ → DeflatePool C D → Type 0
IsWithin capacity none = Unit
IsWithin capacity (some shared) =
    (shared.capacity ≡ capacity)
    × ((k : ℕ) → length (shared.deflate k) ≤ capacity)
    × ((k : ℕ) → length (shared.inflate k) ≤ capacity)

pushed :
    {A : Type 0} (capacity room : ℕ) (a : A) (queue : List A)
    → room ≡ capacity
    → length queue ≤ capacity
    → length (push room a queue) ≤ capacity
unfolding push
pushed capacity room a queue e h = ground (arith, length-append queue (a ∷ []))

popped :
    {A : Type 0} (capacity : ℕ) (queue : List A)
    → length queue ≤ capacity
    → length (pop queue).1 ≤ capacity
unfolding pop
popped capacity [] h = h
popped capacity (a ∷ queue) h = omega arith

change-length :
    {A : Type 0} (capacity k : ℕ) (queue : List A) (queues : ℕ → List A)
    → length queue ≤ capacity
    → ((j : ℕ) → length (queues j) ≤ capacity)
    → (j : ℕ) → length (change k queue queues j) ≤ capacity
unfolding change
change-length capacity k queue queues h hs j = ground (arith, h, hs j)

-- No sequence of calls makes a pool keep more idle compressors, or more idle decompressors, than its
-- capacity for any window size.
pub Reaches-IsWithin :
    {C D : Type 0} (zlib : Bool) (capacity : ℕ) (pool : DeflatePool C D)
    → Reaches zlib capacity pool
    → IsWithin capacity pool
unfolding new_pool take_deflate put_deflate take_inflate put_inflate
Reaches-IsWithin zlib capacity _ created =
    by_test (IsWithin capacity) (ltb 0 capacity) _ _
      (λ e. (refl, (λ k. omega arith), (λ k. omega arith))) (λ e. tt)
Reaches-IsWithin zlib capacity _ (takes_deflate none level window r) = tt
Reaches-IsWithin zlib capacity _ (takes_deflate (some shared) level window r) =
    let (c, hd, hi) = Reaches-IsWithin zlib capacity (some shared) r in
    let k = slot zlib window in (c, change-length capacity k _ _ (popped capacity _ (hd k)) hd, hi)
Reaches-IsWithin zlib capacity _ (puts_deflate none window deflate r) = tt
Reaches-IsWithin zlib capacity _ (puts_deflate (some shared) window deflate r) =
    let (c, hd, hi) = Reaches-IsWithin zlib capacity (some shared) r in
    let k = slot zlib window in
    (c, change-length capacity k _ _ (pushed capacity shared.capacity deflate _ c (hd k)) hd, hi)
Reaches-IsWithin zlib capacity _ (takes_inflate none window r) = tt
Reaches-IsWithin zlib capacity _ (takes_inflate (some shared) window r) =
    let (c, hd, hi) = Reaches-IsWithin zlib capacity (some shared) r in
    let k = slot zlib window in (c, hd, change-length capacity k _ _ (popped capacity _ (hi k)) hi)
Reaches-IsWithin zlib capacity _ (puts_inflate none window i r) = tt
Reaches-IsWithin zlib capacity _ (puts_inflate (some shared) window i r) =
    let (c, hd, hi) = Reaches-IsWithin zlib capacity (some shared) r in
    let k = slot zlib window in
    (c, hd, change-length capacity k _ _ (pushed capacity shared.capacity i _ c (hi k)) hi)
