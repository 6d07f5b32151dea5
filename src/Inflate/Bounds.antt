-- ===== src/Inflate/Bounds.antt =====
-- The loops of `Inflate` in src/compression.rs end, and what they give is below the limit.
use yawc.Shared.{
  ℕ, zero, suc, ◌+◌, ◌-◌, ◌≤◌, ◌<◌, min, ◌≡◌, ◌≢◌, refl, ap, ◌∙◌, by_test, inl, inr, Bool,
  Bool-cases, Option-cases, true, false, ◌&&◌, Option, none, some, List, [], ◌∷◌, ◌++◌, length,
  length-append, length-drop, drop, leb, ◌==◌, arith,
}
use yawc.Error.{ok, err}
use yawc.Inflate.{
  Status, ok_status, buf_error, stream_end, FlushDecompress, no_flush, sync, Step, Zlib, Inflate,
  inflate_chunk, Run, reset, after_step, write, after_flush, flush, and_then, write_suffix, restart,
  finish, inflate,
}

-- A call of the decompressor writes no more than there is room for.
abbrev pub IsLawful : {D : Type 0} → Zlib D → Type 0
IsLawful {D = D} zlib =
    (input : List ℕ) (room : ℕ) (mode : FlushDecompress) (d : D)
    → length (zlib.decompress input room mode d).produced ≤ room

nonempty : (xs : List ℕ) → xs ≢ [] → 0 < length xs
nonempty [] n = absurd (n refl)
nonempty (x ∷ xs) n = omega arith

module _ {D : Type 0} (zlib : Zlib D) (lawful : IsLawful zlib) (limit : ℕ) where
  -- The loop ended, and the buffer is below the limit unless it failed.
  abbrev IsWritten : Run D Unit → Type 0
  IsWritten none = ⊥
  IsWritten (some (err reason, i)) = Unit
  IsWritten (some (ok _, i)) = length i.output < limit

  -- The loop ended, and its output is below the limit unless it failed.
  abbrev pub IsBounded : Run D (List ℕ) → Type 0
  IsBounded none = ⊥
  IsBounded (some (err reason, i)) = Unit
  IsBounded (some (ok out, i)) = (length out < limit) × (i.output ≡ [])

  by_status :
      (status : Option Status) (failed ended going : Run D Unit)
      → IsWritten failed
      → IsWritten ended
      → IsWritten going
      → IsWritten (elim status [ none ↦ failed | some stream_end ↦ ended | some _ ↦ going ])
  by_status none failed ended going f e g = f
  by_status (some ok_status) failed ended going f e g = g
  by_status (some buf_error) failed ended going f e g = g
  by_status (some stream_end) failed ended going f e g = e

  module _ (again : List ℕ → Inflate D → Run D Unit) (input : List ℕ) (i : Inflate D) where
    -- The rounds that follow a round with progress.
    abbrev Continues : Type 0
    Continues =
        (rest : List ℕ) (j : Inflate D)
        → length j.output < limit
        → length rest + (limit - length j.output) < length input + (limit - length i.output)
        → IsWritten (again rest j)

    progress :
        (step : Step D)
        → Continues
        → length i.output + length step.produced < limit
        → ((step.consumed == 0) && (length step.produced == 0)) ≡ false
        → input ≢ []
        → IsWritten (
            again
              (drop step.consumed input)
              (record i { output = i.output ++ step.produced; decompress = step.next }))
    progress step h l e n =
        let total = length-append i.output step.produced in
        h _ _ (omega (arith, total))
          (ground (arith, total, length-drop step.consumed input, nonempty input n))

    after_step-IsWritten :
        (step : Step D)
        → Continues
        → input ≢ []
        → IsWritten (after_step zlib again limit input i step)
    unfolding after_step
    after_step-IsWritten step h n =
        by_test IsWritten (leb limit (length (i.output ++ step.produced))) _ _ (λ e. tt)
          λ e. by_status step.status _ _ _ tt (ground (arith, e)) (
            by_test IsWritten ((step.consumed == 0) && (length step.produced == 0)) _ _ (λ p. tt)
              λ p. progress step h (ground (arith, e, length-append i.output step.produced)) p n)

  write-IsWritten :
      (room : ℕ → ℕ) (fuel : ℕ) (input : List ℕ) (i : Inflate D)
      → length i.output < limit
      → length input + (limit - length i.output) < fuel
      → IsWritten (write zlib room fuel limit input i)
  unfolding write inflate_chunk
  write-IsWritten room zero input i l h = absurd (omega arith)
  write-IsWritten room (suc fuel) [] i l h = l
  write-IsWritten room (suc fuel) (b ∷ bs) i l h =
      let open_buffer : leb limit (length i.output) ≡ false = ground arith in
      rw (open_buffer, IsWritten, write)
        (after_step-IsWritten (write zlib room fuel limit) (b ∷ bs) i
          (zlib.decompress (b ∷ bs) (min (room fuel) (limit - length i.output)) no_flush
            i.decompress)
          (λ rest j m d. write-IsWritten room fuel rest j m (omega arith)) (λ e. ground arith))

  module _ (again : Inflate D → Run D (List ℕ)) (i : Inflate D) where
    -- The rounds that follow a round of the flush.
    abbrev FlushesOn : FlushDecompress → Step D → Type 0
    FlushesOn mode step =
        (j : Inflate D)
        → length j.output ≡ length i.output + length step.produced
        → (mode ≡ no_flush → 0 < length step.produced)
        → IsBounded (again j)

    after_status :
        (mode : FlushDecompress) (step : Step D)
        → length i.output < limit
        → FlushesOn mode step
        → (found : Status) → step.status ≡ some found
        → IsBounded (after_flush zlib again mode i step)
    unfolding after_flush
    after_status sync step l h found e =
        rw (e, IsBounded, after_flush)
          (h _ (length-append i.output step.produced) (λ m. absurd (ground arith)))
    after_status no_flush step l h found e =
        rw (e, IsBounded, after_flush)
          (by_test IsBounded (length step.produced == 0) _ _ (λ z. (l, refl))
            λ z. h _ (length-append i.output step.produced) (λ m. ground arith))

    after_flush-IsBounded :
        (mode : FlushDecompress) (step : Step D)
        → length i.output < limit
        → FlushesOn mode step
        → IsBounded (after_flush zlib again mode i step)
    unfolding after_flush
    after_flush-IsBounded mode step l h = elim (Option-cases step.status) [
      | inl e ↦ rw (e, IsBounded, after_flush) tt
      | inr (found, e) ↦ after_status mode step l h found e
    ]

  abbrev rank : FlushDecompress → ℕ
  rank sync = 1
  rank no_flush = 0

  smaller :
      (mode : FlushDecompress) (i j : Inflate D) (step : Step D) (fuel : ℕ)
      → length i.output < limit
      → length j.output ≡ length i.output + length step.produced
      → (mode ≡ no_flush → 0 < length step.produced)
      → rank mode + (limit - length i.output) < suc fuel
      → rank no_flush + (limit - length j.output) < fuel
  smaller sync i j step fuel l same grows h = omega (arith, same, h)
  smaller no_flush i j step fuel l same grows h = omega (arith, same, h, grows refl)

  flush-IsBounded :
      (room : ℕ → ℕ) (fuel : ℕ) (mode : FlushDecompress) (i : Inflate D)
      → length i.output ≤ limit
      → rank mode + (limit - length i.output) < fuel
      → IsBounded (flush zlib room fuel limit mode i)
  unfolding flush inflate_chunk
  flush-IsBounded room zero mode i l h = absurd (omega arith)
  flush-IsBounded room (suc fuel) mode i l h = elim (Bool-cases (leb limit (length i.output))) [
    | inl e ↦ rw (e, IsBounded, flush) tt
    | inr e ↦
        let step =
          zlib.decompress [] (min (room fuel) (limit - length i.output)) mode i.decompress in
        let fits = lawful [] (min (room fuel) (limit - length i.output)) mode i.decompress in
        rw (e, IsBounded, flush)
          (after_flush-IsBounded (flush zlib room fuel limit no_flush) i mode step (ground arith)
            λ j same grows.
              flush-IsBounded room fuel no_flush j (omega (arith, fits, same))
                (smaller mode i j step fuel (ground arith) same grows h))
  ]

  and_then-IsWritten :
      (run : Run D Unit) (next : Unit → Inflate D → Run D (List ℕ))
      → IsWritten run
      → ((u : Unit) (i : Inflate D) → length i.output < limit → IsBounded (next u i))
      → IsBounded (and_then zlib run next)
  and_then-IsWritten none next w h = elim w [ ]
  and_then-IsWritten (some (err reason, i)) next w h = tt
  and_then-IsWritten (some (ok u, i)) next w h = h u i w

  and_then-IsBounded :
      (run : Run D (List ℕ)) (next : List ℕ → Inflate D → Run D (List ℕ))
      → IsBounded run
      → ((out : List ℕ) (i : Inflate D)
          → length out < limit
          → i.output ≡ []
          → IsBounded (next out i))
      → IsBounded (and_then zlib run next)
  and_then-IsBounded none next w h = elim w [ ]
  and_then-IsBounded (some (err reason, i)) next w h = tt
  and_then-IsBounded (some (ok out, i)) next w h = h out i w.0 w.1

  write_suffix-IsWritten :
      (room : ℕ → ℕ) (i : Inflate D)
      → length i.output < limit
      → IsWritten (write_suffix zlib room limit i)
  unfolding write_suffix
  write_suffix-IsWritten room i l = elim (Bool-cases i.stream_ended) [
    | inl e ↦ rw (e, IsWritten, write_suffix) l
    | inr e ↦
        rw (e, IsWritten, write_suffix)
          (write-IsWritten room (suc (4 + limit)) (0 ∷ 0 ∷ 255 ∷ 255 ∷ []) i l (omega arith))
  ]

  restart-output : (i : Inflate D) → (restart zlib i).output ≡ i.output
  unfolding restart reset
  restart-output i = elim (Bool-cases i.stream_ended) [
    | inl e ↦ rw (e, restart) refl
    | inr e ↦ rw (e, restart) refl
  ]

  finish-IsBounded :
      (room : ℕ → ℕ) (i : Inflate D)
      → length i.output < limit
      → IsBounded (finish zlib room limit i)
  unfolding finish
  finish-IsBounded room i l = and_then-IsWritten _ _ (write_suffix-IsWritten room i l) λ u j m.
      and_then-IsBounded _ _ (flush-IsBounded room (2 + limit) sync j (omega arith) (omega arith))
        λ out k b e. (b, restart-output k ∙ e)

  -- `Inflate::decompress` returns for every decompressor that keeps to the room it is given, however it
  -- makes progress: no loop runs for ever. What it returns is shorter than the limit, and leaves the
  -- buffer empty for the next call.
  pub inflate-IsBounded :
      (room : ℕ → ℕ) (input : List ℕ) (is_end : Bool) (i : Inflate D)
      → i.output ≡ []
      → IsBounded (inflate zlib room input is_end limit i)
  unfolding inflate
  inflate-IsBounded room input is_end i empty =
      by_test IsBounded (limit == 0) _ _ (λ z. tt)
        λ z.
          let nothing : length i.output ≡ 0 = ap length empty in
          let start : length i.output < limit = ground arith in
          and_then-IsWritten _ _
            (write-IsWritten room (suc (length input + limit)) input i start (omega arith))
            λ u j l. at_end is_end j l
    where
      at_end :
          (is_end : Bool) (j : Inflate D)
          → length j.output < limit
          → IsBounded (elim is_end [
            | true ↦ finish zlib room limit j
            | false ↦ some (ok j.output, record j { output = [] })
          ])
      at_end true j l = finish-IsBounded room j l
      at_end false j l = (l, refl)
