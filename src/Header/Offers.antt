-- ===== src/Header/Offers.antt =====
-- src/compression/offer.rs: which of the extensions that a client names are offers of
-- permessage-deflate.
use yawc.Shared.{
  ℕ, Bool, true, false, ◌&&◌, ◌||◌, Option, none, some, List, [], ◌∷◌, ◌++◌, leb, if◌then◌else◌,
  codes, same_text, decimal, parse_u8,
}
use yawc.Negotiation.{WebSocketExtensions}
use yawc.Header.{Text, Param, Extension, permessage_deflate, parse}

abbrev pub no_extensions : WebSocketExtensions
no_extensions = record {
  server_max_window_bits = none;
  client_max_window_bits = none;
  server_no_context_takeover = false;
  client_no_context_takeover = false;
}

unfoldable pub window_bits : Text → Option ℕ
window_bits value = elim (parse_u8 value) [
  | none ↦ none
  | some bits ↦
      if (leb 8 bits && leb bits 15) && same_text (decimal bits) value then some bits else none
]

-- One parameter of an offer.
unfoldable pub apply_param : WebSocketExtensions → Text → Option Text → Option WebSocketExtensions
unfolding window_bits
apply_param offer name none =
    if same_text name (codes "server_no_context_takeover")
    then some (record offer { server_no_context_takeover = true })
    else if same_text name (codes "client_no_context_takeover")
    then some (record offer { client_no_context_takeover = true })
    else if same_text name (codes "client_max_window_bits")
    then some (record offer { client_max_window_bits = some none })
    else none
apply_param offer name (some value) =
    if same_text name (codes "server_max_window_bits")
    then elim (window_bits value) [
      | none ↦ none
      | some bits ↦ some (record offer { server_max_window_bits = some (some bits) })
    ]
    else if same_text name (codes "client_max_window_bits")
    then elim (window_bits value) [
      | none ↦ none
      | some bits ↦ some (record offer { client_max_window_bits = some (some bits) })
    ]
    else none

-- Whether a parameter stands among earlier ones.
unfoldable pub is_repeated : Text → List Param → Bool
is_repeated name [] = false
is_repeated name ((earlier, _) ∷ others) = same_text earlier name || is_repeated name others

-- The loop of `offer`, with the parameters before.
unfoldable pub apply_params :
    List Param → WebSocketExtensions → List Param → Option WebSocketExtensions
unfolding apply_param is_repeated
apply_params earlier offer [] = some offer
apply_params earlier offer ((name, value) ∷ others) = elim (is_repeated name earlier) [
  | true ↦ none
  | false ↦ elim (apply_param offer name value) [
    | none ↦ none
    | some next ↦ apply_params (earlier ++ ((name, value) ∷ [])) next others
  ]
]

unfoldable pub offer : List Param → Option WebSocketExtensions
unfolding apply_params
offer params = apply_params [] no_extensions params

-- The offers among the extensions of one header value.
unfoldable pub offers_in : List Extension → List WebSocketExtensions
unfolding offer
offers_in [] = []
offers_in (extension ∷ others) =
    let rest = offers_in others in
    if same_text extension.name permessage_deflate
    then elim (offer extension.params) [ none ↦ rest | some found ↦ found ∷ rest ]
    else rest

module _ {V : Type 0} (to_str : V → Option Text) where
  -- The loop over the header values, with the offers before.
  unfoldable pub collect_offers : List WebSocketExtensions → List V → List WebSocketExtensions
  unfolding offers_in parse
  collect_offers found [] = found
  collect_offers found (header ∷ headers) = elim (to_str header) [
    | none ↦ []
    | some text ↦ elim (parse text) [
      | none ↦ []
      | some extensions ↦ collect_offers (found ++ offers_in extensions) headers
    ]
  ]

  -- `WebSocketExtensions::offers`
  unfoldable pub offers : List V → List WebSocketExtensions
  unfolding collect_offers
  offers headers = collect_offers [] headers
