-- ===== src/Negotiation.antt =====
-- src/compression.rs, src/native/options.rs and src/native/mod.rs: what the two sides settle for
-- permessage-deflate, and the settings of a connection. `zlib` says whether that feature is built.
-- A compression level is its number; the pool of compressors, which a setting only passes on, and
-- the text of the header are left out.
pub mod Windows
pub mod Mirror
use yawc.Shared.{
  ℕ, ◌*◌, ◌-◌, min, max, Bool, true, false, ◌&&◌, ◌||◌, not, Option, none, some, List, [], ◌∷◌, ltb,
  if◌then◌else◌,
}
use yawc.Error.{Result, ok, err, compression_not_supported}
use yawc.Codec.{Role, server, client}

pub record WebSocketExtensions : Type 0 where
  pub server_max_window_bits : Option (Option ℕ)
  pub client_max_window_bits : Option (Option ℕ)
  pub server_no_context_takeover : Bool
  pub client_no_context_takeover : Bool

pub record DeflateOptions : Type 0 where
  pub level : ℕ
  pub server_max_window_bits : Option ℕ
  pub client_max_window_bits : Option ℕ
  pub server_no_context_takeover : Bool
  pub client_no_context_takeover : Bool
  pub compression_threshold : ℕ

-- `Option::map`, and `Ord::clamp` for bounds that are in order.
abbrev pub map_option {ℓ κ} : {A : Type ℓ} {B : Type κ} → (A → B) → Option A → Option B
map_option f none = none
map_option f (some a) = some (f a)

unfoldable pub clamp : ℕ → ℕ → ℕ → ℕ
clamp lo hi n = min (max n lo) hi

-- `WebSocketExtensions::from(&DeflateOptions)`.
unfoldable pub from_options : Bool → DeflateOptions → WebSocketExtensions
from_options zlib o = record {
  server_max_window_bits =
      if zlib then map_option (λ (b : ℕ). some b) o.server_max_window_bits else none;
  client_max_window_bits =
      if zlib then map_option (λ (b : ℕ). some b) o.client_max_window_bits else none;
  server_no_context_takeover = o.server_no_context_takeover;
  client_no_context_takeover = o.client_no_context_takeover;
}

-- The answer on a window that the client offered, with what the server prefers.
unfoldable pub answer_window : Option ℕ → Option ℕ → ℕ
answer_window (some c) (some s) = min c s
answer_window (some c) none = c
answer_window none (some s) = s
answer_window none none = 9

unfoldable pub merge_client : Option (Option ℕ) → Option ℕ → Option (Option ℕ)
unfolding answer_window
merge_client none preference = none
merge_client (some offered) preference = some (some (answer_window offered preference))

unfoldable pub merge_server : Option (Option ℕ) → Option ℕ → Option (Option ℕ)
unfolding answer_window
merge_server none preference = map_option (λ (b : ℕ). some b) preference
merge_server (some offered) preference = some (some (answer_window offered preference))

-- `DeflateOptions::merge`.
unfoldable pub merge : Bool → DeflateOptions → WebSocketExtensions → WebSocketExtensions
unfolding clamp merge_client merge_server
merge zlib o offered =
    let server_preference = map_option (clamp 9 15) o.server_max_window_bits in
    let client_preference = map_option (clamp 8 15) o.client_max_window_bits in
    record {
      server_max_window_bits =
          if zlib
          then merge_server offered.server_max_window_bits server_preference
          else offered.server_max_window_bits;
      client_max_window_bits =
          if zlib then merge_client offered.client_max_window_bits client_preference else none;
      server_no_context_takeover =
          offered.server_no_context_takeover || o.server_no_context_takeover;
      client_no_context_takeover =
          offered.client_no_context_takeover || o.client_no_context_takeover;
    }

-- `*WINDOW_BITS.start()` with zlib and `*WINDOW_BITS.end()` without.
abbrev pub smallest_window : Bool → ℕ
smallest_window zlib = if zlib then 9 else 15

-- An offer that limits the server's window too far is passed over.
unfoldable pub is_too_small : Bool → WebSocketExtensions → Bool
is_too_small zlib offer = elim offer.server_max_window_bits [
  | some (some bits) ↦ ltb bits (smallest_window zlib)
  | _ ↦ false
]

-- `offers.iter().find(..)`.
unfoldable pub find_offer : Bool → List WebSocketExtensions → Option WebSocketExtensions
unfolding is_too_small
find_offer zlib [] = none
find_offer zlib (offer ∷ offers) =
    let later = find_offer zlib offers in if is_too_small zlib offer then later else some offer

-- `WebSocketExtensions::agree`.
unfoldable pub agree :
    Bool → Option DeflateOptions → List WebSocketExtensions → Option WebSocketExtensions
unfolding find_offer merge
agree zlib none offers = none
agree zlib (some o) offers = map_option (merge zlib o) (find_offer zlib offers)

pub record HalfConfig : Type 0 where
  pub no_context_takeover : Bool
  pub window_bits : Option ℕ

pub record CompressionConfig : Type 0 where
  pub level : ℕ
  pub outgoing : HalfConfig
  pub incoming : HalfConfig

-- `bits.flatten().map(..)` with the clamp to `WINDOW_BITS`.
unfoldable pub clamp_window : Option (Option ℕ) → Option ℕ
unfolding clamp
clamp_window (some (some bits)) = some (clamp 9 15 bits)
clamp_window _ = none

-- `CompressionConfig::resolve`.
unfoldable pub resolve :
    Option WebSocketExtensions → Option ℕ → Role → Result (Option CompressionConfig)
unfolding clamp_window
resolve none level role = ok none
resolve (some x) none role = err compression_not_supported
resolve (some x) (some level) role =
    let of_client : HalfConfig = record {
      no_context_takeover = x.client_no_context_takeover;
      window_bits = clamp_window x.client_max_window_bits;
    } in
    let of_server : HalfConfig = record {
      no_context_takeover = x.server_no_context_takeover;
      window_bits = clamp_window x.server_max_window_bits;
    } in
    elim role [
      | client ↦ ok (some (record { level = level; outgoing = of_client; incoming = of_server }))
      | server ↦ ok (some (record { level = level; outgoing = of_server; incoming = of_client }))
    ]

pub record Fragmentation : Type 0 where
  pub timeout : Option ℕ
  pub fragment_size : Option ℕ

-- The fields of `Options` that a connection takes over.
pub record Options : Type 0 where
  pub max_payload_read : Option ℕ
  pub max_read_buffer : Option ℕ
  pub read_buffer_capacity : Option ℕ
  pub write_buffer_capacity : Option ℕ
  pub compression : Option DeflateOptions
  pub fragmentation : Option Fragmentation
  pub check_utf8 : Bool
  pub max_backpressure_write_boundary : Option ℕ

pub record Negotiation : Type 0 where
  pub compression : Option CompressionConfig
  pub max_payload_read : ℕ
  pub max_read_buffer : ℕ
  pub read_buffer_capacity : Option ℕ
  pub write_buffer_capacity : Option ℕ
  pub utf8 : Bool
  pub fragmentation : Option Fragmentation
  pub max_backpressure_write_boundary : Option ℕ
  pub compression_threshold : ℕ

abbrev pub unwrap_or {ℓ} : {A : Type ℓ} → Option A → A → A
unwrap_or none a = a
unwrap_or (some b) a = b

-- `MAX_PAYLOAD_READ` and `MAX_READ_BUFFER`.
abbrev pub max_payload_read_default : ℕ
max_payload_read_default = 1024 * 1024

abbrev pub max_read_buffer_default : ℕ
max_read_buffer_default = 2 * 1024 * 1024

-- `Negotiation::new`. A payload limit of half of `usize` or more, which would overflow in the
-- doubling, does not occur.
unfoldable pub new_negotiation : Option WebSocketExtensions → Options → Role → Result Negotiation
unfolding resolve
new_negotiation extensions o role =
    let level = map_option (λ (d : DeflateOptions). d.level) o.compression in
    elim (resolve extensions level role) [
      | err e ↦ err e
      | ok config ↦ ok (record {
        compression = config;
        max_payload_read = unwrap_or o.max_payload_read max_payload_read_default;
        max_read_buffer =
            unwrap_or o.max_read_buffer (
              unwrap_or (map_option (λ (n : ℕ). n * 2) o.max_payload_read) max_read_buffer_default);
        read_buffer_capacity = o.read_buffer_capacity;
        write_buffer_capacity = o.write_buffer_capacity;
        utf8 = o.check_utf8;
        fragmentation = o.fragmentation;
        max_backpressure_write_boundary = o.max_backpressure_write_boundary;
        compression_threshold =
            unwrap_or (map_option (λ (d : DeflateOptions). d.compression_threshold) o.compression)
              0;
      })
    ]
