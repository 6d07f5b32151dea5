-- ===== src/Tests/Pools.antt =====
-- The decompressor and the pool of src/compression.rs and src/compression/pool.rs at concrete inputs,
-- over a decompressor that copies its input.
use yawc.Shared.{
  ℕ, min, ◌≡◌, refl, true, false, none, some, [], ◌∷◌, take, length, length-take, arith,
}
use yawc.Error.{ok}
use yawc.Negotiation.{unwrap_or}
use yawc.Inflate.{reset, ok_status, Zlib, Inflate, inflate}
use yawc.Inflate.Bounds.{IsLawful, IsBounded, inflate-IsBounded}
use yawc.Inflate.Origin.{Origin}
use yawc.Pool.{DeflatePool, new_pool, put_inflate, build, Decompressor, decompress}
use yawc.Pool.Capacity.{created, puts_inflate, IsWithin, Reaches-IsWithin}
use yawc.Pool.Sharing.{IsFresh, put_inflate-IsFresh, reset-IsNew}
use yawc.Pool.Refinement.{AgreeOn, decompress-AgreeOn}

abbrev copier : Zlib ℕ
copier = record {
  decompress = λ input room mode d. record {
    next = d;
    produced = take room input;
    consumed = min room (length input);
    status = some ok_status;
  };
  reset = λ d. d;
  fresh = λ w. unwrap_or w 15;
}

copier-IsLawful : IsLawful copier
copier-IsLawful input room mode d = omega (arith, length-take room input)

abbrev copier_origin : Origin copier
copier_origin = record {
  origin = λ d. d;
  origin_fresh = λ w. refl;
  origin_next = λ input room mode d. refl;
  reset_origin = λ d. refl;
  origin_idem = λ d. refl;
  default_window = refl;
}

abbrev kilobyte : ℕ → ℕ
kilobyte fuel = 1024

abbrev idle : Inflate ℕ
idle = record { output = []; decompress = 15; stream_ended = false }

copied : inflate copier kilobyte (1 ∷ 2 ∷ []) false 100 idle ≡ some (ok (1 ∷ 2 ∷ []), idle)
unfolding inflate
copied = refl

inflate-IsBounded_example :
    IsBounded copier copier-IsLawful 100 (inflate copier kilobyte (1 ∷ 2 ∷ []) true 100 idle)
inflate-IsBounded_example =
    inflate-IsBounded copier copier-IsLawful 100 kilobyte (1 ∷ 2 ∷ []) true idle refl

abbrev small_pool : DeflatePool ℕ ℕ
small_pool = put_inflate true none idle (put_inflate true none idle (new_pool 1))

Reaches-IsWithin_example : IsWithin 1 small_pool
Reaches-IsWithin_example =
    Reaches-IsWithin true 1 small_pool (puts_inflate _ none idle (puts_inflate _ none idle created))

abbrev stateless : Decompressor ℕ
stateless = record {
  inflate = none;
  config = record { no_context_takeover = true; window_bits = some 10 };
}

abbrev empty_pool : DeflatePool ℕ ℕ
empty_pool = some (record { capacity = 2; deflate = λ k. []; inflate = λ k. [] })

-- State that another connection with the same window handed back.
abbrev returned : Inflate ℕ
returned = reset copier (record { output = []; decompress = 10; stream_ended = true })

abbrev one_slot : DeflatePool ℕ ℕ
one_slot = put_inflate true (some 10) returned empty_pool

one_slot-IsFresh : IsFresh true copier_origin (some one_slot)
unfolding build
one_slot-IsFresh =
    put_inflate-IsFresh true copier_origin (some 10) returned empty_pool
      (reset-IsNew true copier_origin (some 10)
        (record { output = []; decompress = 10; stream_ended = true }) (omega arith, omega arith)
        (refl, refl))
      (λ k. tt)

decompress-AgreeOn_example :
    AgreeOn true copier_origin
      (decompress true copier kilobyte (1 ∷ 2 ∷ []) true 100 stateless (some one_slot))
      (decompress true copier kilobyte (1 ∷ 2 ∷ []) true 100 stateless none)
decompress-AgreeOn_example =
    decompress-AgreeOn true copier_origin copier-IsLawful kilobyte (1 ∷ 2 ∷ []) true 100 stateless
      stateless (some one_slot) (refl, tt) (omega arith, omega arith) one_slot-IsFresh
