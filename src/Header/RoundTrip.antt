-- ===== src/Header/RoundTrip.antt =====
-- A server's reading (src/compression/offer.rs) of headers with several offers that
-- src/compression.rs prints.
use yawc.Shared.{
  ℕ, zero, suc, ◌≤◌, ◌<◌, ◌≡◌, refl, sym, ap, ◌∙◌, subst, Option, some, List, [], ◌∷◌, ◌++◌, length,
  length-append, append-nil, append_assoc, same_text_refl, All, arith,
}
use yawc.Negotiation.{WebSocketExtensions}
use yawc.Header.{
  Text, Extension, permessage_deflate, is_tchar, skip_whitespace, span_token, token, end_extension,
  named_extension, extension, push_extension, next_extension, extensions, parse,
}
use yawc.Header.Offers.{offers_in, collect_offers, offers}
use yawc.Header.Print.{print_params, print}
use yawc.Header.Pieces.{IsTail, ends, goes_on, next_one, print_params-IsTail}
use yawc.Header.Offered.{Finds, params_of, params-Finds, end-Finds, nil-Finds}
use yawc.Header.Accepted.{IsAcceptable, offer-params_of, IsServerWindow-IsPrinted}

-- Offers of one header, and of the extension that each is read as.
abbrev pub join : List WebSocketExtensions → Text
join [] = []
join (e ∷ []) = print e
join (e ∷ f ∷ es) = print e ++ (b',' ∷ (b' ' ∷ join (f ∷ es)))

abbrev extension_of : WebSocketExtensions → Extension
extension_of e = record { name = permessage_deflate; params = params_of e }

abbrev map_extension : List WebSocketExtensions → List Extension
map_extension [] = []
map_extension (e ∷ es) = extension_of e ∷ map_extension es

span_token-IsTail : (rest : Text) → IsTail rest → span_token rest ≡ ([], rest)
unfolding span_token is_tchar
span_token-IsTail _ ends = refl
span_token-IsTail _ (goes_on rest) = refl
span_token-IsTail _ (next_one rest) = refl

token-name :
    (rest : Text)
    → IsTail rest
    → token (permessage_deflate ++ rest) ≡ some (permessage_deflate, rest)
unfolding token span_token is_tchar
token-name rest t = rw (span_token-IsTail rest t) refl

-- An offer that ends the text, and one before a comma.
finds :
    (e : WebSocketExtensions) (more : Text)
    → IsAcceptable e
    → IsTail more
    → Finds more [] more
    → extension (permessage_deflate ++ (print_params e ++ more))
      ≡ end_extension permessage_deflate (some (params_of e, more))
unfolding extension named_extension Finds
finds e more h t f =
    let input = print_params e ++ more in
    let printed = IsServerWindow-IsPrinted e.server_max_window_bits h.0 in
    ap named_extension (token-name input (print_params-IsTail e more t))
    ∙ ap (end_extension permessage_deflate)
        (params-Finds e more printed h.1 t f (suc (length input)) (omega arith))

extension-print :
    (e : WebSocketExtensions) → IsAcceptable e → extension (print e) ≡ some (extension_of e, [])
unfolding print end_extension
extension-print e h =
    subst (λ t. extension (permessage_deflate ++ t) ≡ some (extension_of e, []))
      (append-nil (print_params e)) (finds e [] h ends nil-Finds)

extension-comma :
    (e : WebSocketExtensions) (rest : Text)
    → IsAcceptable e
    → extension (print e ++ (b',' ∷ rest)) ≡ some (extension_of e, rest)
unfolding print end_extension
extension-comma e rest h = finds e (b',' ∷ rest) h (next_one rest) (end-Finds rest)

next-print :
    (later : Text → Option (List Extension)) (e : WebSocketExtensions) (more : Text)
    → next_extension later (print e ++ more) ≡ push_extension later (extension (print e ++ more))
unfolding next_extension print
next-print later e more = refl

skip-print :
    (e : WebSocketExtensions) (more : Text) → skip_whitespace (print e ++ more) ≡ print e ++ more
unfolding skip_whitespace print
skip-print e more = refl

skip-join : (es : List WebSocketExtensions) → skip_whitespace (b' ' ∷ join es) ≡ join es
unfolding skip_whitespace
skip-join [] = refl
skip-join (e ∷ []) = subst (λ t. skip_whitespace t ≡ t) (append-nil (print e)) (skip-print e [])
skip-join (e ∷ f ∷ es) = skip-print e _

length-skip : (input : Text) → length (skip_whitespace input) ≤ length input
unfolding skip_whitespace
length-skip [] = omega arith
length-skip (c ∷ cs) = ground (arith, length-skip cs)

length-print : (e : WebSocketExtensions) → 0 < length (print e)
unfolding print
length-print e = omega arith

-- One round, with what the later rounds find.
push_one :
    (later : Text → Option (List Extension)) (input : Text) (e : WebSocketExtensions)
    (more rest : Text) (others : List Extension)
    → skip_whitespace input ≡ print e ++ more
    → extension (print e ++ more) ≡ some (extension_of e, rest)
    → later rest ≡ some others
    → next_extension later (skip_whitespace input) ≡ some (extension_of e ∷ others)
unfolding push_extension
push_one later input e more rest others s x l =
    ap (next_extension later) s
    ∙ next-print later e more
    ∙ ap (push_extension later) x
    ∙ ground (arith, l)

-- The rounds over the offers, on enough fuel.
extensions-join :
    (es : List WebSocketExtensions) (input : Text) (fuel : ℕ)
    → All IsAcceptable es
    → skip_whitespace input ≡ join es
    → length input < fuel
    → extensions fuel input ≡ some (map_extension es)
unfolding extensions push_extension
extensions-join es input zero h e m = absurd (omega arith)
extensions-join [] input (suc fuel) h e m = ap (next_extension (extensions fuel)) e
extensions-join (e ∷ []) input (suc fuel) h s m =
    let last : print e ++ [] ≡ print e = append-nil (print e) in
    let shorter : length (print e) ≤ length input =
      subst (λ t. length t ≤ length input) s (length-skip input) in
    push_one (extensions fuel) input e [] [] [] (s ∙ sym last)
      (ap extension last ∙ extension-print e h.0)
      (extensions-join [] [] fuel tt refl (omega (arith, length-print e, shorter)))
extensions-join (e ∷ f ∷ es) input (suc fuel) h s m =
    let rest = b' ' ∷ join (f ∷ es) in
    let shorter : length (print e ++ (b',' ∷ rest)) ≤ length input =
      subst (λ t. length t ≤ length input) s (length-skip input) in
    push_one (extensions fuel) input e (b',' ∷ rest) rest (map_extension (f ∷ es)) s
      (extension-comma e rest h.0)
      (extensions-join (f ∷ es) rest fuel h.1 (skip-join (f ∷ es))
        (omega (arith, length-print e, shorter, length-append (print e) (b',' ∷ rest))))

parse-join :
    (es : List WebSocketExtensions)
    → All IsAcceptable es
    → parse (join es) ≡ some (map_extension es)
unfolding parse skip_whitespace
parse-join es h =
    extensions-join es (join es) (suc (length (join es))) h (skip-join es) (omega arith)

offers_in-extension_of :
    (es : List WebSocketExtensions) → All IsAcceptable es → offers_in (map_extension es) ≡ es
unfolding offers_in
offers_in-extension_of [] h = refl
offers_in-extension_of (e ∷ es) h =
    ground (
      arith,
      same_text_refl permessage_deflate,
      offer-params_of e h.0,
      offers_in-extension_of es h.1,
    )

-- The lists of offers of several headers, one behind the other.
abbrev concat : List (List WebSocketExtensions) → List WebSocketExtensions
concat [] = []
concat (es ∷ groups) = es ++ concat groups

module _ {V : Type 0} (to_str : V → Option Text) (header : List WebSocketExtensions → V)
    (holds : (es : List WebSocketExtensions) → to_str (header es) ≡ some (join es)) where
  abbrev map_header : List (List WebSocketExtensions) → List V
  map_header [] = []
  map_header (es ∷ groups) = header es ∷ map_header groups

  collect_offers-map_header :
      (found : List WebSocketExtensions) (groups : List (List WebSocketExtensions))
      → All (All IsAcceptable) groups
      → collect_offers to_str found (map_header groups) ≡ found ++ concat groups
  unfolding collect_offers
  collect_offers-map_header found [] h = sym (append-nil found)
  collect_offers-map_header found (es ∷ groups) h = ground (
    arith,
    holds es,
    parse-join es h.0,
    offers_in-extension_of es h.0,
    collect_offers-map_header (found ++ es) groups h.1,
    append_assoc found es (concat groups),
  )

  -- A server reads back the very offers that are printed in any number of headers, each with any
  -- number of offers behind commas, in their order, if each is an offer that RFC 7692 allows.
  pub offers-map_header :
      (groups : List (List WebSocketExtensions))
      → All (All IsAcceptable) groups
      → offers to_str (map_header groups) ≡ concat groups
  unfolding offers
  offers-map_header groups h = collect_offers-map_header [] groups h
