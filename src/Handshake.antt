-- ===== src/Handshake.antt =====
-- The HTTP/1.1 opening handshake: src/native/mod.rs (`upgrade`, `verify`) and src/native/upgrade.rs.
-- Header values are the lists of their bytes; sha1, base64 and `to_str` are parameters.
pub mod Windows
pub mod Visible
pub mod Agreement
pub mod Words
pub mod Checks
use yawc.Shared.{
  ℕ, ◌+◌, Bool, true, false, ◌&&◌, ◌||◌, Option, none, some, List, [], ◌∷◌, ◌++◌, leb, ◌==◌,
  if◌then◌else◌, codes, same_text,
}
use yawc.Error.{
  WebSocketError, invalid_status_code, redirected, invalid_upgrade_header,
  invalid_connection_header, invalid_sec_websocket_version, missing_sec_websocket_key, Result, ok,
  err, ◌>>=◌,
}
use yawc.Codec.{Role, server, client}
use yawc.Negotiation.{
  WebSocketExtensions, Options, Negotiation, map_option, unwrap_or, agree, new_negotiation,
}
use yawc.Header.{Text}
use yawc.Header.Offers.{offers}
use yawc.Header.Print.{print, from_str}

-- Header lines in their order, with the names in lower case.
abbrev pub HeaderMap : Type 0
HeaderMap = List (Text × List ℕ)

abbrev pub get_all : Text → HeaderMap → List (List ℕ)
get_all name [] = []
get_all name ((key, value) ∷ headers) =
    let rest = get_all name headers in if same_text key name then value ∷ rest else rest

abbrev pub first : List (List ℕ) → Option (List ℕ)
first [] = none
first (value ∷ values) = some value

abbrev pub get : Text → HeaderMap → Option (List ℕ)
get name headers = first (get_all name headers)

-- A request, and whether it is an extended CONNECT of HTTP/2.
pub record Request : Type 0 where
  pub is_extended_connect : Bool
  pub headers : HeaderMap

pub record Response : Type 0 where
  pub status : ℕ
  pub headers : HeaderMap

abbrev pub lower : ℕ → ℕ
lower c = if leb b'A' c && leb c b'Z' then c + 32 else c

-- `eq_ignore_ascii_case`
unfoldable pub eq_ignore_ascii_case : Text → Text → Bool
eq_ignore_ascii_case [] [] = true
eq_ignore_ascii_case (a ∷ xs) (b ∷ ys) = (lower a == lower b) && eq_ignore_ascii_case xs ys
eq_ignore_ascii_case _ _ = false

-- `split(',')`: the piece before the first comma, and the pieces behind it.
abbrev cut : ℕ → Text × List Text → Text × List Text
cut c (piece, pieces) = if c == b',' then ([], piece ∷ pieces) else (c ∷ piece, pieces)

abbrev cuts : Text → Text × List Text
cuts [] = ([], [])
cuts (c ∷ cs) = cut c (cuts cs)

abbrev pub split : Text → List Text
split text = (cuts text).0 ∷ (cuts text).1

-- `trim_matches([' ', '\t'])`
abbrev is_blank : ℕ → Bool
is_blank c = (c == b' ') || (c == 9)

abbrev trim_start : Text → Text
trim_start [] = []
trim_start (c ∷ cs) = let rest = trim_start cs in if is_blank c then rest else c ∷ cs

abbrev put_front : ℕ → Text → Text
put_front c [] = if is_blank c then [] else c ∷ []
put_front c (d ∷ ds) = c ∷ d ∷ ds

abbrev trim_end : Text → Text
trim_end [] = []
trim_end (c ∷ cs) = put_front c (trim_end cs)

abbrev pub trim : Text → Text
trim text = trim_end (trim_start text)

abbrev any_upgrade : List Text → Bool
any_upgrade [] = false
any_upgrade (option ∷ options) =
    eq_ignore_ascii_case (trim option) (codes "upgrade") || any_upgrade options

-- The response to a key, with its `Sec-WebSocket-Accept`.
abbrev pub switching_protocols : Text → Response
switching_protocols accept = record {
  status = 101;
  headers =
      (codes "connection", codes "upgrade")
      ∷ (codes "upgrade", codes "websocket")
      ∷ (codes "sec-websocket-accept", accept)
      ∷ [];
}

-- `sec_websocket_protocol`
unfoldable pub sec_websocket_protocol : (List ℕ → List ℕ) → (List ℕ → Text) → List ℕ → Text
sec_websocket_protocol sha1 base64 key =
    base64 (sha1 (key ++ codes "258EAFA5-E914-47DA-95CA-C5AB0DC85B11"))

module _ (zlib : Bool) (sha1 : List ℕ → List ℕ) (base64 : List ℕ → Text)
    (to_str : List ℕ → Option Text) where
  -- `handshake_response`
  unfoldable pub handshake_response : Request → Result Response
  unfolding sec_websocket_protocol
  handshake_response request =
      if request.is_extended_connect
      then ok (record { status = 200; headers = [] })
      else elim (get (codes "sec-websocket-key") request.headers) [
        | none ↦ err missing_sec_websocket_key
        | some key ↦ ok (switching_protocols (sec_websocket_protocol sha1 base64 key))
      ]

  abbrev is_version_13 : Option (List ℕ) → Bool
  is_version_13 none = false
  is_version_13 (some value) = same_text value (codes "13")

  -- The header that answers the offers.
  unfoldable pub add_extensions : Option WebSocketExtensions → Response → Response
  add_extensions none response = response
  add_extensions (some offer) response = record response {
    headers = response.headers ++ ((codes "sec-websocket-extensions", print offer) ∷ []);
  }

  -- `WebSocket::upgrade`. Its headers are valid, so the response is built.
  unfoldable pub upgrade : Request → Options → Result (Response × Negotiation)
  unfolding handshake_response add_extensions
  upgrade request options =
      let extensions =
        agree zlib options.compression
          (offers to_str (get_all (codes "sec-websocket-extensions") request.headers)) in
      handshake_response request >>= λ builder.
      if is_version_13 (get (codes "sec-websocket-version") request.headers)
      then (new_negotiation extensions options server >>= λ negotiation.
          ok (add_extensions extensions builder, negotiation))
      else err invalid_sec_websocket_version

  abbrev and_then : {A B : Type 0} → Option A → (A → Option B) → Option B
  and_then none next = none
  and_then (some a) next = next a

  -- `WebSocketExtensions::from_headers`
  unfoldable pub from_headers : HeaderMap → Option WebSocketExtensions
  unfolding from_str
  from_headers headers =
      and_then (and_then (get (codes "sec-websocket-extensions") headers) to_str) from_str

  unfoldable pub lists_upgrade : List (List ℕ) → Bool
  unfolding eq_ignore_ascii_case
  lists_upgrade [] = false
  lists_upgrade (value ∷ values) = elim (to_str value) [
    | none ↦ lists_upgrade values
    | some text ↦ any_upgrade (split text) || lists_upgrade values
  ]

  -- `connection_lists_upgrade`
  unfoldable pub connection_lists_upgrade : HeaderMap → Bool
  unfolding lists_upgrade
  connection_lists_upgrade headers = lists_upgrade (get_all (codes "connection") headers)

  -- `verify_accept`
  unfoldable pub verify_accept : Option (List ℕ) → List ℕ → Result (Unit {0})
  unfolding sec_websocket_protocol
  verify_accept none key = err invalid_upgrade_header
  verify_accept (some value) key =
      if same_text value (sec_websocket_protocol sha1 base64 key)
      then ok tt
      else err invalid_upgrade_header

  -- The test of the `Upgrade` header.
  unfoldable pub is_websocket : Option (List ℕ) → Bool
  unfolding eq_ignore_ascii_case
  is_websocket value = elim (and_then value to_str) [
    | none ↦ false
    | some text ↦ eq_ignore_ascii_case text (codes "websocket")
  ]

  -- `verify_upgrade`
  unfoldable pub verify_upgrade : Response → List ℕ → Options → Result Negotiation
  unfolding is_websocket connection_lists_upgrade verify_accept from_headers
  verify_upgrade response key options =
      if response.status == 101
      then if is_websocket (get (codes "upgrade") response.headers)
        then if connection_lists_upgrade response.headers
          then (verify_accept (get (codes "sec-websocket-accept") response.headers) key >>= λ _.
              new_negotiation (from_headers response.headers) options client)
          else err invalid_connection_header
        else err invalid_upgrade_header
      else err (invalid_status_code response.status)

  -- `verify`
  unfoldable pub verify : Response → List ℕ → Options → Result Negotiation
  unfolding verify_upgrade
  verify response key options =
      if leb 300 response.status && leb response.status 399
      then err (
          redirected response.status
            (unwrap_or (and_then (get (codes "location") response.headers) to_str) []))
      else verify_upgrade response key options
