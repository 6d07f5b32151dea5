-- ===== src/Tests/Headers.antt =====
-- The header of the extensions (src/compression.rs, src/compression/offer.rs) at concrete inputs.
use yawc.Shared.{◌≡◌, refl, true, none, some, [], ◌∷◌, codes, arith}
use yawc.Negotiation.{WebSocketExtensions}
use yawc.Header.{Text}
use yawc.Header.Offers.{no_extensions, offers}
use yawc.Header.Print.{print, print_params, print_window, print_flag, from_str}
use yawc.Header.Answers.{from_str-print}
use yawc.Header.RoundTrip.{join, offers-map_header}

abbrev small : WebSocketExtensions
small = record no_extensions {
  server_max_window_bits = some (some 10);
  client_max_window_bits = some none;
  client_no_context_takeover = true;
}

printed :
    print small
    ≡ codes
        "permessage-deflate; server_max_window_bits=10; client_max_window_bits; client_no_context_takeover"
unfolding print print_params print_window print_flag
printed = refl

from_str-print_example : from_str (print small) ≡ some small
from_str-print_example = from_str-print small (omega arith, omega arith) tt

offers-map_header_example :
    offers
      (λ (t : Text). some t)
      (join (small ∷ no_extensions ∷ []) ∷ join (no_extensions ∷ []) ∷ [])
    ≡ small ∷ no_extensions ∷ no_extensions ∷ []
offers-map_header_example =
    offers-map_header (λ (t : Text). some t) join (λ es. refl)
      ((small ∷ no_extensions ∷ []) ∷ (no_extensions ∷ []) ∷ [])
      ((((omega arith, omega arith), tt), ((tt, tt), tt)), (((tt, tt), tt), tt))

-- A parameter twice, a quoted value and an extension of another name.
mixed :
    offers
      (λ (t : Text). some t)
      (codes
          "foo, permessage-deflate; client_max_window_bits; client_max_window_bits, permessage-deflate; server_max_window_bits=\"9\""
        ∷ [])
    ≡ record no_extensions { server_max_window_bits = some (some 9) } ∷ []
unfolding offers
mixed = refl
