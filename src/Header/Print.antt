-- ===== src/Header/Print.antt =====
-- src/compression.rs: `Display` of the extensions and `FromStr`, by which a client reads the server's
-- answer. The combinators are those of the nom crate that the source names, on ASCII text.
use yawc.Shared.{
  ℕ, zero, suc, Bool, true, false, ◌&&◌, ◌||◌, Option, none, some, [], ◌∷◌, ◌++◌, leb, ◌==◌, length,
  if◌then◌else◌, codes, same_text, is_digit, decimal, parse_u8,
}
use yawc.Negotiation.{WebSocketExtensions}
use yawc.Header.{Text, permessage_deflate, eat, skip_whitespace}
use yawc.Header.Offers.{no_extensions}

-- A window parameter behind its key; a number that the grammar does not have is left out.
unfoldable pub print_window : Text → Option (Option ℕ) → Text
print_window key none = []
print_window key (some none) = key
print_window key (some (some bits)) =
    if leb 8 bits && leb bits 15 then key ++ codes "=" ++ decimal bits else key

unfoldable pub print_flag : Text → Bool → Text
print_flag key flag = if flag then key else []

-- What `Display` writes behind the name of the extension, and all of it.
unfoldable pub print_params : WebSocketExtensions → Text
unfolding print_window print_flag
print_params e =
    print_window (codes "; server_max_window_bits") e.server_max_window_bits
    ++ (print_window (codes "; client_max_window_bits") e.client_max_window_bits
        ++ (print_flag (codes "; server_no_context_takeover") e.server_no_context_takeover
            ++ print_flag (codes "; client_no_context_takeover") e.client_no_context_takeover))

unfoldable pub print : WebSocketExtensions → Text
unfolding print_params
print e = permessage_deflate ++ print_params e

-- `tag`
unfoldable pub tag : Text → Text → Option Text
tag [] input = some input
tag (t ∷ ts) [] = none
tag (t ∷ ts) (c ∷ cs) = elim (t == c) [ true ↦ tag ts cs | false ↦ none ]

unfoldable pub is_key : ℕ → Bool
is_key c = (leb b'a' c && leb c b'z') || (leb b'A' c && leb c b'Z') || is_digit c || (c == b'_')

-- `take_while`: what satisfies a test, and the rest.
unfoldable pub span : (ℕ → Bool) → Text → Text × Text
span test [] = ([], [])
span test (c ∷ cs) = elim (test c) [
  | true ↦ (let (front, rest) = span test cs in (c ∷ front, rest))
  | false ↦ ([], c ∷ cs)
]

-- `opt(digit1)`
unfoldable pub digits : Text → Option Text × Text
unfolding span
digits input =
    let (front, rest) = span is_digit input in
    elim front [ [] ↦ (none, input) | c ∷ cs ↦ (some (c ∷ cs), rest) ]

-- The value behind a key: without a `=`, no space is consumed.
unfoldable pub answer_value : Text → Option Text × Text
unfolding digits skip_whitespace eat
answer_value input =
    let (equals, rest) = eat b'=' (skip_whitespace input) in
    if equals then digits (skip_whitespace rest) else (none, input)

-- `parse_extension`
unfoldable pub parse_extension : Text → Option ((Text × Option Text) × Text)
unfolding span answer_value is_key
parse_extension input =
    let (semicolon, rest) = eat b';' (skip_whitespace input) in
    elim semicolon [
      | false ↦ none
      | true ↦
          let (key, after_key) = span is_key (skip_whitespace rest) in
          elim key [
            | [] ↦ none
            | c ∷ cs ↦ let (value, more) = answer_value after_key in some ((c ∷ cs, value), more)
          ]
    ]

-- `value.and_then(|v| v.parse().ok())`
unfoldable pub parse_bits : Option Text → Option ℕ
parse_bits none = none
parse_bits (some text) = parse_u8 text

-- One round of `parse_extensions` on the extensions.
unfoldable pub set_param : WebSocketExtensions → Text → Option Text → WebSocketExtensions
unfolding parse_bits
set_param this key value =
    if same_text key (codes "client_no_context_takeover")
    then record this { client_no_context_takeover = true }
    else if same_text key (codes "server_no_context_takeover")
    then record this { server_no_context_takeover = true }
    else if same_text key (codes "server_max_window_bits")
    then record this { server_max_window_bits = some (parse_bits value) }
    else if same_text key (codes "client_max_window_bits")
    then record this { client_max_window_bits = some (parse_bits value) }
    else this

-- `parse_extensions`. Fuel is spent on each round; a round takes a byte from the input.
unfoldable pub parse_extensions : ℕ → WebSocketExtensions → Text → Option WebSocketExtensions
unfolding parse_extension set_param
parse_extensions zero this input = none
parse_extensions (suc fuel) this [] = some this
parse_extensions (suc fuel) this (c ∷ cs) = elim (parse_extension (c ∷ cs)) [
  | none ↦ none
  | some ((key, value), remaining) ↦ parse_extensions fuel (set_param this key value) remaining
]

-- `FromStr`
unfoldable pub from_str : Text → Option WebSocketExtensions
unfolding tag parse_extensions
from_str input = elim (tag permessage_deflate input) [
  | none ↦ none
  | some remaining ↦ parse_extensions (suc (length remaining)) no_extensions remaining
]
