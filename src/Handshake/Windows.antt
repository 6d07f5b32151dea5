-- ===== src/Handshake/Windows.antt =====
-- The windows of the offers that a server reads and of its answer.
use yawc.Shared.{
  ℕ, ◌≡◌, inl, inr, Bool-cases, Option-cases, Bool, true, false, Option, none, some, List, [], ◌∷◌,
  ◌++◌, by_test, codes, same_text, arith,
}
use yawc.Negotiation.{
  WebSocketExtensions, DeflateOptions, merge, merge_client, merge_server, answer_window, clamp,
  map_option, is_too_small, find_offer, agree,
}
use yawc.Header.{Text, Param, Extension, permessage_deflate, parse}
use yawc.Header.Offers.{
  no_extensions, window_bits, apply_param, is_repeated, apply_params, offer, offers_in,
  collect_offers, offers,
}
use yawc.Header.Pieces.{IsPrinted}

abbrev pub HasWindows : WebSocketExtensions → Type 0
HasWindows e = IsPrinted e.server_max_window_bits × IsPrinted e.client_max_window_bits

abbrev pub All : List WebSocketExtensions → Type 0
All [] = Unit
All (e ∷ es) = HasWindows e × All es

window-merge_server :
    (x : Option (Option ℕ)) (p : Option ℕ)
    → IsPrinted x
    → IsPrinted (merge_server x (map_option (clamp 9 15) p))
unfolding merge_server answer_window clamp
window-merge_server none none h = tt
window-merge_server none (some s) h = ground arith
window-merge_server (some none) none h = ground arith
window-merge_server (some none) (some s) h = ground arith
window-merge_server (some (some c)) none h = h
window-merge_server (some (some c)) (some s) h = ground arith

window-merge_client :
    (x : Option (Option ℕ)) (p : Option ℕ)
    → IsPrinted x
    → IsPrinted (merge_client x (map_option (clamp 8 15) p))
unfolding merge_client answer_window clamp
window-merge_client none p h = tt
window-merge_client (some none) none h = ground arith
window-merge_client (some none) (some s) h = ground arith
window-merge_client (some (some c)) none h = h
window-merge_client (some (some c)) (some s) h = ground arith

merge-HasWindows :
    (zlib : Bool) (o : DeflateOptions) (x : WebSocketExtensions)
    → HasWindows x
    → HasWindows (merge zlib o x)
unfolding merge
merge-HasWindows true o x h = (
  window-merge_server x.server_max_window_bits o.server_max_window_bits h.0,
  window-merge_client x.client_max_window_bits o.client_max_window_bits h.1,
)
merge-HasWindows false o x h = (h.0, tt)

-- What holds of a value, if there is one.
abbrev pub Has : Option WebSocketExtensions → Type 0
Has none = Unit
Has (some e) = HasWindows e

pub agree-Has :
    (zlib : Bool) (o : Option DeflateOptions) (es : List WebSocketExtensions)
    → All es
    → Has (agree zlib o es)
unfolding agree find_offer
agree-Has zlib none es h = tt
agree-Has zlib (some o) [] h = tt
agree-Has zlib (some o) (e ∷ es) h =
    by_test (λ x. Has (map_option (merge zlib o) x)) (is_too_small zlib e) _ _
      (λ _. agree-Has zlib (some o) es h.1) (λ _. merge-HasWindows zlib o e h.0)

window_bits-IsPrinted :
    (value : Text) (b : ℕ) → window_bits value ≡ some b → IsPrinted (some (some b))
unfolding window_bits
window_bits-IsPrinted value b h = ground (arith, h)

apply_param-Has :
    (e : WebSocketExtensions) (name : Text) (value : Option Text)
    → HasWindows e
    → Has (apply_param e name value)
unfolding apply_param
apply_param-Has e name none h =
    let named : Has (some (record e { client_max_window_bits = some none })) = (h.0, tt) in
    by_test Has (same_text name (codes "server_no_context_takeover")) _ _ (λ _. h)
      λ _.
        by_test Has (same_text name (codes "client_no_context_takeover")) _ _ (λ _. h)
          λ _.
            by_test Has (same_text name (codes "client_max_window_bits")) _ _ (λ _. named) (λ _. tt)
apply_param-Has e name (some value) h = elim (Option-cases (window_bits value)) [
  | inl n ↦ rw n (
      by_test Has (same_text name (codes "server_max_window_bits")) none _ (λ _. tt)
        λ _.
          by_test Has (same_text name (codes "client_max_window_bits")) none none (λ _. tt)
            (λ _. tt))
  | inr (b, s) ↦
      let w = window_bits-IsPrinted value b s in
      let of_server : Has (some (record e { server_max_window_bits = some (some b) })) = (w, h.1) in
      let of_client : Has (some (record e { client_max_window_bits = some (some b) })) = (h.0, w) in
      rw s (
        by_test Has (same_text name (codes "server_max_window_bits")) _ _ (λ _. of_server)
          λ _.
            by_test Has (same_text name (codes "client_max_window_bits")) _ none (λ _. of_client)
              (λ _. tt))
]

after_param :
    (earlier : List Param) (name : Text) (value : Option Text) (others : List Param)
    (found : Option WebSocketExtensions)
    → Has found
    → ((next : WebSocketExtensions)
        → HasWindows next
        → Has (apply_params (earlier ++ ((name, value) ∷ [])) next others))
    → Has (elim found [
      | none ↦ none
      | some next ↦ apply_params (earlier ++ ((name, value) ∷ [])) next others
    ])
after_param earlier name value others none h k = tt
after_param earlier name value others (some next) h k = k next h

apply_params-Has :
    (earlier : List Param) (e : WebSocketExtensions) (params : List Param)
    → HasWindows e
    → Has (apply_params earlier e params)
unfolding apply_params
apply_params-Has earlier e [] h = h
apply_params-Has earlier e ((name, value) ∷ others) h =
    elim (Bool-cases (is_repeated name earlier)) [
      | inl r ↦ rw (r, apply_params) tt
      | inr n ↦
          rw (n, apply_params)
            (after_param earlier name value others (apply_param e name value)
              (apply_param-Has e name value h)
              (λ next k. apply_params-Has (earlier ++ ((name, value) ∷ [])) next others k))
    ]

either-All :
    (found : Option WebSocketExtensions) (rest : List WebSocketExtensions)
    → Has found
    → All rest
    → All (elim found [ none ↦ rest | some e ↦ e ∷ rest ])
either-All none rest h k = k
either-All (some e) rest h k = (h, k)

offers_in-All : (es : List Extension) → All (offers_in es)
unfolding offers_in offer
offers_in-All [] = tt
offers_in-All (x ∷ others) =
    by_test All (same_text x.name permessage_deflate) _ _
      (λ _.
        either-All _ _ (apply_params-Has [] no_extensions x.params (tt, tt)) (offers_in-All others))
      (λ _. offers_in-All others)

All-append : (xs ys : List WebSocketExtensions) → All xs → All ys → All (xs ++ ys)
All-append [] ys h k = k
All-append (x ∷ xs) ys h k = (h.0, All-append xs ys h.1 k)

module _ {V : Type 0} (to_str : V → Option Text) where
  parsed :
      (found : List WebSocketExtensions) (values : List V) (r : Option (List Extension))
      → ((es : List Extension) → All (collect_offers to_str (found ++ offers_in es) values))
      → All (elim r [ none ↦ [] | some es ↦ collect_offers to_str (found ++ offers_in es) values ])
  parsed found values none h = tt
  parsed found values (some es) h = h es

  collect_offers-All :
      (found : List WebSocketExtensions) (values : List V)
      → All found
      → All (collect_offers to_str found values)
  unfolding collect_offers
  collect_offers-All found [] h = h
  collect_offers-All found (v ∷ vs) h = elim (Option-cases (to_str v)) [
    | inl n ↦ rw (n, collect_offers) tt
    | inr (text, t) ↦
        rw (t, collect_offers)
          (parsed found vs (parse text) λ es.
            collect_offers-All (found ++ offers_in es) vs (All-append found _ h (offers_in-All es)))
  ]

  pub offers-All : (values : List V) → All (offers to_str values)
  unfolding offers
  offers-All values = collect_offers-All [] values tt
