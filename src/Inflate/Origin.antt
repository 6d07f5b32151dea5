-- ===== src/Inflate/Origin.antt =====
-- `Inflate` in src/compression.rs keeps to the window that its decompressor was made with.
use yawc.Shared.{
  ℕ, zero, suc, ◌+◌, ◌-◌, min, ◌≡◌, ap, ◌∙◌, by_test, inl, inr, Bool, Bool-cases, true, false, ◌&&◌,
  Option, Option-cases, none, some, List, [], ◌∷◌, ◌++◌, length, leb, ◌==◌, if◌then◌else◌,
}
use yawc.Error.{ok, err}
use yawc.Inflate.{
  Status, ok_status, buf_error, stream_end, FlushDecompress, no_flush, sync, Step, Zlib, Inflate,
  inflate_chunk, Run, reset, after_step, write, after_flush, flush, and_then, write_suffix, restart,
  finish, inflate,
}

-- Every decompressor comes from a new one, and a reset makes it that one again.
pub record Origin {D : Type 0} (zlib : Zlib D) : Type 0 where
  pub origin : D → D
  pub origin_fresh : (w : Option ℕ) → origin (zlib.fresh w) ≡ zlib.fresh w
  pub origin_next :
      (input : List ℕ) (room : ℕ) (mode : FlushDecompress) (d : D)
      → origin (zlib.decompress input room mode d).next ≡ origin d
  pub reset_origin : (d : D) → zlib.reset d ≡ origin d
  pub origin_idem : (d : D) → origin (origin d) ≡ origin d
  pub default_window : zlib.fresh none ≡ zlib.fresh (some 15)

module _ {D : Type 0} {zlib : Zlib D} (law : Origin zlib) (o : D) where
  -- Whatever the loop leaves has the origin `o`.
  abbrev pub Keeps : {A : Type 0} → Run D A → Type 0
  Keeps none = Unit
  Keeps (some (r, i)) = law.origin i.decompress ≡ o

  by_status-Keeps :
      (status : Option Status) (failed ended going : Run D Unit)
      → Keeps failed
      → Keeps ended
      → Keeps going
      → Keeps (elim status [ none ↦ failed | some stream_end ↦ ended | some _ ↦ going ])
  by_status-Keeps none failed ended going f e g = f
  by_status-Keeps (some ok_status) failed ended going f e g = g
  by_status-Keeps (some buf_error) failed ended going f e g = g
  by_status-Keeps (some stream_end) failed ended going f e g = e

  after_step-Keeps :
      (again : List ℕ → Inflate D → Run D Unit) (limit : ℕ) (input : List ℕ) (i : Inflate D)
      (step : Step D)
      → law.origin step.next ≡ o
      → ((rest : List ℕ) (j : Inflate D) → law.origin j.decompress ≡ o → Keeps (again rest j))
      → Keeps (after_step zlib again limit input i step)
  unfolding after_step
  after_step-Keeps again limit input i step h k =
      by_test Keeps (leb limit (length (i.output ++ step.produced))) _ _ (λ c. h)
        λ c. by_status-Keeps step.status _ _ _ h h (
          by_test Keeps ((step.consumed == 0) && (length step.produced == 0)) _ _ (λ p. h)
            λ p. k _ _ h)

  write-Keeps :
      (room : ℕ → ℕ) (fuel limit : ℕ) (input : List ℕ) (i : Inflate D)
      → law.origin i.decompress ≡ o
      → Keeps (write zlib room fuel limit input i)
  unfolding write inflate_chunk
  write-Keeps room zero limit input i h = tt
  write-Keeps room (suc fuel) limit [] i h = h
  write-Keeps room (suc fuel) limit (b ∷ bs) i h = elim (Bool-cases (leb limit (length i.output))) [
    | inl e ↦ rw (e, Keeps, write) h
    | inr e ↦
        let space = min (room fuel) (limit - length i.output) in
        let step = zlib.decompress (b ∷ bs) space no_flush i.decompress in
        rw (e, Keeps, write)
          (after_step-Keeps (write zlib room fuel limit) limit (b ∷ bs) i step
            (law.origin_next (b ∷ bs) space no_flush i.decompress ∙ h)
            (write-Keeps room fuel limit))
  ]

  after_flush-Keeps :
      (again : Inflate D → Run D (List ℕ)) (mode : FlushDecompress) (i : Inflate D) (step : Step D)
      → law.origin step.next ≡ o
      → ((j : Inflate D) → law.origin j.decompress ≡ o → Keeps (again j))
      → Keeps (after_flush zlib again mode i step)
  unfolding after_flush
  after_flush-Keeps again mode i step h k = elim (Option-cases step.status) [
    | inl e ↦ rw (e, Keeps, after_flush) h
    | inr (found, e) ↦ rw (e, after_flush) (by_mode mode)
  ]
    where
      by_mode :
          (mode : FlushDecompress)
          → Keeps (elim mode [
            | sync ↦ again (record i { output = i.output ++ step.produced; decompress = step.next })
            | no_flush ↦
                if length step.produced == 0
                then some (ok i.output, record i { output = []; decompress = step.next })
                else again (record i { output = i.output ++ step.produced; decompress = step.next })
          ])
      by_mode sync = k _ h
      by_mode no_flush = by_test Keeps (length step.produced == 0) _ _ (λ z. h) λ z. k _ h

  flush-Keeps :
      (room : ℕ → ℕ) (fuel limit : ℕ) (mode : FlushDecompress) (i : Inflate D)
      → law.origin i.decompress ≡ o
      → Keeps (flush zlib room fuel limit mode i)
  unfolding flush inflate_chunk
  flush-Keeps room zero limit mode i h = tt
  flush-Keeps room (suc fuel) limit mode i h = elim (Bool-cases (leb limit (length i.output))) [
    | inl e ↦ rw (e, Keeps, flush) h
    | inr e ↦
        let space = min (room fuel) (limit - length i.output) in
        let step = zlib.decompress [] space mode i.decompress in
        rw (e, Keeps, flush)
          (after_flush-Keeps (flush zlib room fuel limit no_flush) mode i step
            (law.origin_next [] space mode i.decompress ∙ h) (flush-Keeps room fuel limit no_flush))
  ]

  and_then-Keeps :
      {A B : Type 0} (run : Run D A) (next : A → Inflate D → Run D B)
      → Keeps run
      → ((a : A) (i : Inflate D) → law.origin i.decompress ≡ o → Keeps (next a i))
      → Keeps (and_then zlib run next)
  and_then-Keeps none next h k = tt
  and_then-Keeps (some (err reason, i)) next h k = h
  and_then-Keeps (some (ok a, i)) next h k = k a i h

  write_suffix-Keeps :
      (room : ℕ → ℕ) (limit : ℕ) (i : Inflate D)
      → law.origin i.decompress ≡ o
      → Keeps (write_suffix zlib room limit i)
  unfolding write_suffix
  write_suffix-Keeps room limit i h = elim (Bool-cases i.stream_ended) [
    | inl e ↦ rw (e, Keeps, write_suffix) h
    | inr e ↦
        rw (e, write_suffix) (write-Keeps room (suc (4 + limit)) limit (0 ∷ 0 ∷ 255 ∷ 255 ∷ []) i h)
  ]

  pub reset-origin :
      (i : Inflate D) → law.origin i.decompress ≡ o → law.origin (reset zlib i).decompress ≡ o
  unfolding reset
  reset-origin i h =
      ap law.origin (law.reset_origin i.decompress) ∙ (law.origin_idem i.decompress ∙ h)

  restart-origin :
      (i : Inflate D) → law.origin i.decompress ≡ o → law.origin (restart zlib i).decompress ≡ o
  unfolding restart
  restart-origin i h = elim (Bool-cases i.stream_ended) [
    | inl e ↦ rw (e, restart) (reset-origin i h)
    | inr e ↦ rw (e, restart) h
  ]

  finish-Keeps :
      (room : ℕ → ℕ) (limit : ℕ) (i : Inflate D)
      → law.origin i.decompress ≡ o
      → Keeps (finish zlib room limit i)
  unfolding finish
  finish-Keeps room limit i h = and_then-Keeps _ _ (write_suffix-Keeps room limit i h) λ u j hj.
      and_then-Keeps _ _ (flush-Keeps room (2 + limit) limit sync j hj)
        λ out k hk. restart-origin k hk

  pub inflate-Keeps :
      (room : ℕ → ℕ) (input : List ℕ) (is_end : Bool) (limit : ℕ) (i : Inflate D)
      → law.origin i.decompress ≡ o
      → Keeps (inflate zlib room input is_end limit i)
  unfolding inflate
  inflate-Keeps room input is_end limit i h =
      by_test Keeps (limit == 0) _ _ (λ z. h)
        λ z.
          and_then-Keeps _ _ (write-Keeps room (suc (length input + limit)) limit input i h)
            λ u j hj. at_end is_end j hj
    where
      at_end :
          (is_end : Bool) (j : Inflate D)
          → law.origin j.decompress ≡ o
          → Keeps (elim is_end [
            | true ↦ finish zlib room limit j
            | false ↦ some (ok j.output, record j { output = [] })
          ])
      at_end true j hj = finish-Keeps room limit j hj
      at_end false j hj = hj
