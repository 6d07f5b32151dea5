-- ===== src/Header.antt =====
-- src/compression/offer.rs: how a server reads the offers of `Sec-WebSocket-Extensions`. A text is the
-- list of its bytes: what `to_str` of a header value returns is ASCII.
pub mod Offers
pub mod Print
pub mod Pieces
pub mod Answers
pub mod Offered
pub mod Accepted
pub mod RoundTrip
use yawc.Shared.{
  ℕ, zero, suc, ◌+◌, Bool, true, false, not, ◌&&◌, ◌||◌, Option, none, some, List, [], ◌∷◌, ◌++◌,
  length, leb, ◌==◌, if◌then◌else◌, codes, same_text, is_digit, decimal, parse_u8,
}
use yawc.Negotiation.{WebSocketExtensions}

abbrev pub Text : Type 0
Text = List ℕ

abbrev pub Param : Type 0
Param = Text × Option Text

pub record Extension : Type 0 where
  pub name : Text
  pub params : List Param

abbrev pub permessage_deflate : Text
permessage_deflate = codes "permessage-deflate"

abbrev is_any_of : Text → ℕ → Bool
is_any_of [] byte = false
is_any_of (c ∷ cs) byte = (byte == c) || is_any_of cs byte

unfoldable pub is_tchar : ℕ → Bool
is_tchar byte =
    (leb b'a' byte && leb byte b'z')
    || (leb b'A' byte && leb byte b'Z')
    || is_digit byte
    || is_any_of (codes "!#$%&'*+-.^_`|~") byte

-- The methods of `Input`: what they return, beside what is left of the input.
unfoldable pub skip_whitespace : Text → Text
skip_whitespace [] = []
skip_whitespace (c ∷ cs) = elim ((c == b' ') || (c == b'\t')) [
  | true ↦ skip_whitespace cs
  | false ↦ c ∷ cs
]

unfoldable pub eat : ℕ → Text → Bool × Text
eat byte [] = (false, [])
eat byte (c ∷ cs) = if c == byte then (true, cs) else (false, c ∷ cs)

-- `take_while(is_tchar)` and the rest.
unfoldable pub span_token : Text → Text × Text
unfolding is_tchar
span_token [] = ([], [])
span_token (c ∷ cs) = elim (is_tchar c) [
  | true ↦ (let (token, rest) = span_token cs in (c ∷ token, rest))
  | false ↦ ([], c ∷ cs)
]

unfoldable pub token : Text → Option (Text × Text)
unfolding span_token
token input =
    let (found, rest) = span_token input in elim found [ [] ↦ none | c ∷ cs ↦ some (c ∷ cs, rest) ]

unfoldable pub all_tchar : Text → Bool
unfolding is_tchar
all_tchar [] = true
all_tchar (c ∷ cs) = is_tchar c && all_tchar cs

-- The characters of a quoted string, with those before them.
unfoldable pub quoted : Text → Text → Option (Text × Text)
unfolding all_tchar
quoted value [] = none
quoted value (c ∷ []) =
    if (c == b'"') && (not (same_text value []) && all_tchar value) then some (value, []) else none
quoted value (c ∷ d ∷ cs) = elim (c == b'"') [
  | true ↦ if not (same_text value []) && all_tchar value then some (value, d ∷ cs) else none
  | false ↦ elim (c == b'\\') [
    | true ↦ quoted (value ++ (d ∷ [])) cs
    | false ↦ quoted (value ++ (c ∷ [])) (d ∷ cs)
  ]
]

unfoldable pub value : Text → Option (Text × Text)
unfolding eat quoted token
value input = let (quote, rest) = eat b'"' input in if quote then quoted [] rest else token input

-- A parameter with the value that follows its `=`.
unfoldable pub with_value : Text → Option (Text × Text) → Option (Param × Text)
with_value key none = none
with_value key (some (text, more)) = some ((key, some text), more)

-- One parameter behind its `;`.
unfoldable pub param : Text → Option (Param × Text)
unfolding skip_whitespace eat token value with_value
param input = elim (token (skip_whitespace input)) [
  | none ↦ none
  | some (key, after_key) ↦
      let (equals, rest) = eat b'=' (skip_whitespace after_key) in
      elim equals [
        | false ↦ some ((key, none), rest)
        | true ↦ with_value key (value (skip_whitespace rest))
      ]
]

-- The inner loop of `parse`. Fuel is spent on each round; a round takes a byte from the input.
unfoldable pub params : ℕ → Text → Option (List Param × Text)
unfolding param
params zero input = none
params (suc fuel) input =
    let (semicolon, rest) = eat b';' (skip_whitespace input) in
    elim semicolon [
      | false ↦ some ([], rest)
      | true ↦ elim (param rest) [
        | none ↦ none
        | some (first, more) ↦ elim (params fuel more) [
          | none ↦ none
          | some (others, left) ↦ some (first ∷ others, left)
        ]
      ]
    ]

-- One extension, and the comma behind it unless the input ends there.
unfoldable pub end_extension : Text → Option (List Param × Text) → Option (Extension × Text)
end_extension name none = none
end_extension name (some (found, [])) = some (record { name = name; params = found }, [])
end_extension name (some (found, c ∷ cs)) =
    if c == b',' then some (record { name = name; params = found }, cs) else none

unfoldable pub named_extension : Option (Text × Text) → Option (Extension × Text)
unfolding end_extension params
named_extension none = none
named_extension (some (name, rest)) = end_extension name (params (suc (length rest)) rest)

unfoldable pub extension : Text → Option (Extension × Text)
unfolding named_extension token
extension input = named_extension (token input)

-- A round of the outer loop of `parse`, before the later rounds.
unfoldable pub push_extension :
    (Text → Option (List Extension)) → Option (Extension × Text) → Option (List Extension)
push_extension later none = none
push_extension later (some (first, rest)) = elim (later rest) [
  | none ↦ none
  | some others ↦ some (first ∷ others)
]

unfoldable pub next_extension : (Text → Option (List Extension)) → Text → Option (List Extension)
unfolding push_extension extension
next_extension later [] = some []
next_extension later (c ∷ cs) = elim (c == b',') [
  | true ↦ later cs
  | false ↦ push_extension later (extension (c ∷ cs))
]

-- The outer loop. Fuel is spent on each round; a round takes a byte from the input.
unfoldable pub extensions : ℕ → Text → Option (List Extension)
unfolding next_extension skip_whitespace
extensions zero input = none
extensions (suc fuel) input = next_extension (extensions fuel) (skip_whitespace input)

unfoldable pub parse : Text → Option (List Extension)
unfolding extensions
parse input = extensions (suc (length input)) input
