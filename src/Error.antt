-- ===== src/Error.antt =====
-- src/lib.rs: the errors of the crate, its `Result`, and the error classes. A payload that is a
-- value of a foreign crate (url, io, hyper, reqwest) is left out of its constructor.
pub mod Classes
pub mod Socks5
use yawc.Shared.{ℕ, List, Bool, true, false, ◌≡◌, ◌⊎◌, inl, inr, refl}
use yawc.Error.Socks5.{Socks5Error}

pub data WebSocketError : Type 0 where
  invalid_fragment : WebSocketError
  fragment_timeout : WebSocketError
  invalid_utf8 : WebSocketError
  invalid_continuation_frame : WebSocketError
  invalid_status_code : ℕ → WebSocketError
  redirected : ℕ → List ℕ → WebSocketError
  invalid_upgrade_header : WebSocketError
  invalid_connection_header : WebSocketError
  connection_closed : WebSocketError
  invalid_close_frame : WebSocketError
  invalid_close_code : WebSocketError
  reserved_bits_not_zero : WebSocketError
  control_frame_fragmented : WebSocketError
  ping_frame_too_large : WebSocketError
  frame_too_large : WebSocketError
  invalid_sec_websocket_version : WebSocketError
  invalid_op_code : ℕ → WebSocketError
  missing_sec_websocket_key : WebSocketError
  invalid_http_scheme : WebSocketError
  tls_disabled : WebSocketError
  missing_tls_connector : WebSocketError
  extended_connect_not_supported : WebSocketError
  compression_not_supported : WebSocketError
  socks5 : Socks5Error → WebSocketError
  url_parse_error : WebSocketError
  io_error : WebSocketError
  http_error : WebSocketError
  reqwest : WebSocketError

-- `std::result::Result` at the crate's error type.
pub data Result {ℓ} (A : Type ℓ) : Type ℓ where
  ok : A → Result A
  err : WebSocketError → Result A

pub Result-cases {ℓ} :
    {A : Type ℓ} (r : Result A) → ((a : A) × (r ≡ ok a)) ⊎ ((e : WebSocketError) × (r ≡ err e))
Result-cases (ok a) = inl (a, refl)
Result-cases (err e) = inr (e, refl)

-- The `?` operator.
infixl 5 ◌>>=◌
abbrev pub ◌>>=◌ {ℓ κ} : {A : Type ℓ} {B : Type κ} → Result A → (A → Result B) → Result B
err reason >>= next = err reason
ok value >>= next = next value

-- `std::task::Poll`.
pub data Poll {ℓ} (A : Type ℓ) : Type ℓ where
  ready : A → Poll A
  pending : Poll A

pub is_protocol_error : WebSocketError → Bool
is_protocol_error invalid_fragment = true
is_protocol_error fragment_timeout = true
is_protocol_error invalid_continuation_frame = true
is_protocol_error invalid_close_frame = true
is_protocol_error invalid_close_code = true
is_protocol_error reserved_bits_not_zero = true
is_protocol_error control_frame_fragmented = true
is_protocol_error ping_frame_too_large = true
is_protocol_error (invalid_op_code b) = true
is_protocol_error compression_not_supported = true
is_protocol_error _ = false

pub is_handshake_error : WebSocketError → Bool
is_handshake_error extended_connect_not_supported = true
is_handshake_error (invalid_status_code c) = true
is_handshake_error (redirected c location) = true
is_handshake_error invalid_upgrade_header = true
is_handshake_error invalid_connection_header = true
is_handshake_error invalid_sec_websocket_version = true
is_handshake_error missing_sec_websocket_key = true
is_handshake_error invalid_http_scheme = true
is_handshake_error _ = false

pub is_closed : WebSocketError → Bool
is_closed connection_closed = true
is_closed _ = false

pub is_data_error : WebSocketError → Bool
is_data_error invalid_utf8 = true
is_data_error frame_too_large = true
is_data_error _ = false

pub is_io_error : WebSocketError → Bool
is_io_error io_error = true
is_io_error _ = false
