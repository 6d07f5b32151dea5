-- ===== src/Inflate.antt =====
-- src/compression.rs: `Inflate`, over the decompressor of the flate2 crate. A loop that does not end
-- on its fuel gives `none`.
pub mod Bounds
pub mod Origin
use yawc.Shared.{
  ℕ, zero, suc, ◌+◌, ◌-◌, min, Bool, true, false, ◌&&◌, Option, none, some, List, [], ◌∷◌, ◌++◌,
  length, drop, leb, ◌==◌, if◌then◌else◌,
}
use yawc.Error.{WebSocketError, frame_too_large, io_error, Result, ok, err}

-- `flate2::Status` and `flate2::FlushDecompress`.
pub data Status : Type 0 where
  ok_status : Status
  buf_error : Status
  stream_end : Status

pub data FlushDecompress : Type 0 where
  no_flush : FlushDecompress
  sync : FlushDecompress

-- What a call of the decompressor leaves: its state, the bytes that it wrote, how much of the input it
-- took, and its status unless it failed.
pub record Step (D : Type 0) : Type 0 where
  pub next : D
  pub produced : List ℕ
  pub consumed : ℕ
  pub status : Option Status

-- `flate2::Decompress`: a call with an input and the room for output, the reset, and a new one for a
-- window or for the default.
pub record Zlib (D : Type 0) : Type 0 where
  pub decompress : List ℕ → ℕ → FlushDecompress → D → Step D
  pub reset : D → D
  pub fresh : Option ℕ → D

pub record Inflate (D : Type 0) : Type 0 where
  pub output : List ℕ
  pub decompress : D
  pub stream_ended : Bool

-- The room of `inflate_chunk`, where the buffer has `room` bytes to spare.
unfoldable pub inflate_chunk : List ℕ → ℕ → ℕ → Result ℕ
inflate_chunk output room max_output_size =
    if leb max_output_size (length output)
    then err frame_too_large
    else ok (min room (max_output_size - length output))

-- A result and what is left of the object, unless a loop does not end.
abbrev pub Run : Type 0 → Type 0 → Type 0
Run D A = Option (Result A × Inflate D)

module _ {D : Type 0} (zlib : Zlib D) where
  -- `Inflate::new_with_window_bits` and `Default`.
  unfoldable pub new_inflate : Option ℕ → Inflate D
  new_inflate window_bits = record {
    output = [];
    decompress = zlib.fresh window_bits;
    stream_ended = false;
  }

  unfoldable pub reset : Inflate D → Inflate D
  reset i = record i { decompress = zlib.reset i.decompress; stream_ended = false }

  -- What a round of `Inflate::write` does with a step, before the rounds that follow.
  unfoldable pub after_step :
      (List ℕ → Inflate D → Run D Unit) → ℕ → List ℕ → Inflate D → Step D → Run D Unit
  after_step again max_output_size input i step =
      let written = record i { output = i.output ++ step.produced; decompress = step.next } in
      if leb max_output_size (length written.output)
      then some (err frame_too_large, written)
      else elim step.status [
        | none ↦ some (err io_error, written)
        | some stream_end ↦ some (ok tt, record written { stream_ended = true })
        | some _ ↦
            if (step.consumed == 0) && (length step.produced == 0)
            then some (err io_error, written)
            else again (drop step.consumed input) written
      ]

  -- `Inflate::write`. In each round the buffer has the spare room that `room` gives.
  unfoldable pub write : (ℕ → ℕ) → ℕ → ℕ → List ℕ → Inflate D → Run D Unit
  unfolding inflate_chunk after_step
  write room zero max_output_size input i = none
  write room (suc fuel) max_output_size [] i = some (ok tt, i)
  write room (suc fuel) max_output_size (b ∷ bs) i =
      elim (inflate_chunk i.output (room fuel) max_output_size) [
        | err reason ↦ some (err reason, i)
        | ok space ↦
            after_step (write room fuel max_output_size) max_output_size (b ∷ bs) i
              (zlib.decompress (b ∷ bs) space no_flush i.decompress)
      ]

  -- What a round of `Inflate::flush` does with a step.
  unfoldable pub after_flush :
      (Inflate D → Run D (List ℕ)) → FlushDecompress → Inflate D → Step D → Run D (List ℕ)
  after_flush again mode i step = elim step.status [
    | none ↦ some (err io_error, record i { decompress = step.next })
    | some _ ↦
        let written = record i { output = i.output ++ step.produced; decompress = step.next } in
        elim mode [
          | sync ↦ again written
          | no_flush ↦
              if length step.produced == 0
              then some (ok i.output, record i { output = []; decompress = step.next })
              else again written
        ]
  ]

  unfoldable pub flush : (ℕ → ℕ) → ℕ → ℕ → FlushDecompress → Inflate D → Run D (List ℕ)
  unfolding inflate_chunk after_flush
  flush room zero max_output_size mode i = none
  flush room (suc fuel) max_output_size mode i =
      elim (inflate_chunk i.output (room fuel) max_output_size) [
        | err reason ↦ some (err reason, i)
        | ok space ↦
            after_flush (flush room fuel max_output_size no_flush) mode i
              (zlib.decompress [] space mode i.decompress)
      ]

  -- The rest of a call behind a first part.
  abbrev and_then : {A B : Type 0} → Run D A → (A → Inflate D → Run D B) → Run D B
  and_then none next = none
  and_then (some (err reason, i)) next = some (err reason, i)
  and_then (some (ok a, i)) next = next a i

  -- The suffix that the peer left out, unless it closed the stream.
  unfoldable pub write_suffix : (ℕ → ℕ) → ℕ → Inflate D → Run D Unit
  unfolding write
  write_suffix room max_output_size i = elim i.stream_ended [
    | true ↦ some (ok tt, i)
    | false ↦ write room (suc (4 + max_output_size)) max_output_size (0 ∷ 0 ∷ 255 ∷ 255 ∷ []) i
  ]

  -- A stream that the peer closed starts afresh.
  unfoldable pub restart : Inflate D → Inflate D
  unfolding reset
  restart i = elim i.stream_ended [ true ↦ reset i | false ↦ i ]

  -- The end of a message.
  unfoldable pub finish : (ℕ → ℕ) → ℕ → Inflate D → Run D (List ℕ)
  unfolding write_suffix flush restart
  finish room max_output_size i = and_then (write_suffix room max_output_size i) λ _ i.
      and_then (flush room (2 + max_output_size) max_output_size sync i)
        λ out i. some (ok out, restart i)

  -- `Inflate::decompress`
  unfoldable pub inflate : (ℕ → ℕ) → List ℕ → Bool → ℕ → Inflate D → Run D (List ℕ)
  unfolding write finish
  inflate room input is_end max_output_size i =
      if max_output_size == 0
      then some (err frame_too_large, i)
      else and_then (write room (suc (length input + max_output_size)) max_output_size input i)
          λ _ i. elim is_end [
            | true ↦ finish room max_output_size i
            | false ↦ some (ok i.output, record i { output = [] })
          ]
