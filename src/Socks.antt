-- ===== src/Socks.antt =====
-- src/native/socks5.rs: the messages of the SOCKS5 client (RFC 1928 and RFC 1929) and their order.
-- A text of the source is the list of its UTF-8 bytes.
pub mod Io
pub mod Traces
pub mod Dialogue
pub mod Script
pub mod Blames
pub mod Refusals
pub mod Proxy
pub mod Wire
use yawc.Shared.{
  ℕ, ◌+◌, ◌%◌, Bool, true, false, ◌||◌, Option, none, some, List, [], ◌∷◌, ◌++◌, length, get_or,
  ltb, ◌==◌, if◌then◌else◌, not,
}
use yawc.Error.{WebSocketError, socks5, Result, ok, err}
use yawc.Error.Socks5.{
  Socks5Error, credentials_too_long, hostname_too_long, unsupported_version, no_acceptable_auth,
  unsupported_method, auth_failed, rejected, invalid_address_type, reply_code,
}
use yawc.Frame.{be_bytes16}
use yawc.Network.{SocketAddr, v4, v6}
use yawc.Socks.Io.{Action, pure, fail, ◌>>=◌, ◌>>◌, Stream}

abbrev pub version : ℕ
version = 5

abbrev pub cmd_connect : ℕ
cmd_connect = 1

abbrev pub auth_version : ℕ
auth_version = 1

abbrev pub max_credential_len : ℕ
max_credential_len = 255

abbrev pub max_hostname_len : ℕ
max_hostname_len = 255

pub data Method : Type 0 where
  no_authentication : Method
  user_pass : Method
  unacceptable : Method

unfoldable pub method_code : Method → ℕ
method_code no_authentication = 0
method_code user_pass = 2
method_code unacceptable = 255

unfoldable pub method_from_code : ℕ → Option Method
method_from_code code =
    if code == 0
    then some no_authentication
    else if code == 2
    then some user_pass
    else if code == 255
    then some unacceptable
    else none

pub data AddressType : Type 0 where
  ipv4 : AddressType
  domain : AddressType
  ipv6 : AddressType

unfoldable pub address_code : AddressType → ℕ
address_code ipv4 = 1
address_code domain = 3
address_code ipv6 = 4

unfoldable pub address_from_code : ℕ → Option AddressType
address_from_code code =
    if code == 1
    then some ipv4
    else if code == 3
    then some domain
    else if code == 4
    then some ipv6
    else none

pub record Auth : Type 0 where
  pub username : List ℕ
  pub password : List ℕ

pub data Target : Type 0 where
  named : List ℕ → ℕ → Target
  addressed : SocketAddr → Target

-- The greeting of `negotiate`.
unfoldable pub greeting : Option Auth → List ℕ
unfolding method_code
greeting (some _) = version ∷ 2 ∷ method_code no_authentication ∷ method_code user_pass ∷ []
greeting none = version ∷ 1 ∷ method_code no_authentication ∷ []

-- The request of `authenticate`; `as u8` cuts a length to its low byte.
unfoldable pub auth_request : Auth → List ℕ
auth_request auth =
    auth_version
    ∷ (length auth.username % 256)
    ∷ (auth.username ++ ((length auth.password % 256) ∷ auth.password))

-- The request of `send_request`.
unfoldable pub connect_request : Target → List ℕ
unfolding address_code be_bytes16
connect_request (named host port) =
    version
    ∷ cmd_connect
    ∷ 0
    ∷ address_code domain
    ∷ (length host % 256)
    ∷ (host ++ be_bytes16 port)
connect_request (addressed (v4 ip port)) =
    version ∷ cmd_connect ∷ 0 ∷ address_code ipv4 ∷ (ip ++ be_bytes16 port)
connect_request (addressed (v6 ip port)) =
    version ∷ cmd_connect ∷ 0 ∷ address_code ipv6 ∷ (ip ++ be_bytes16 port)

-- The guard on the length of a host name.
unfoldable pub is_too_long : Target → Bool
is_too_long (named host port) = ltb max_hostname_len (length host)
is_too_long (addressed addr) = false

module _ {S : Type 0} (stream : Stream S) where
  abbrev refuse : {A : Type 0} → Socks5Error → Action S A
  refuse reason = fail (socks5 reason)

  -- `if condition { return Err(reason.into()); }`
  unfoldable pub refuse_if : Bool → Socks5Error → Action S Unit
  refuse_if condition reason = if condition then refuse reason else pure tt

  unfoldable pub authenticate : Auth → Action S Unit
  authenticate auth = do
    stream.write_all (auth_request auth)
    stream.flush
    status ← stream.read_exact 2
    refuse_if (not (get_or status 0 0 == auth_version)) (unsupported_version (get_or status 0 0))
    refuse_if (not (get_or status 1 0 == 0)) (auth_failed (get_or status 1 0))

  -- The method that the proxy chose, beside the credentials of the client.
  unfoldable pub run_method : ℕ → Option Method → Option Auth → Action S Unit
  run_method code (some no_authentication) _ = pure tt
  run_method code (some user_pass) (some auth) = authenticate auth
  run_method code (some unacceptable) _ = refuse no_acceptable_auth
  run_method code _ _ = refuse (unsupported_method code)

  unfoldable pub negotiate : Option Auth → Action S Unit
  negotiate auth = do
    stream.write_all (greeting auth)
    stream.flush
    chosen ← stream.read_exact 2
    refuse_if (not (get_or chosen 0 0 == version)) (unsupported_version (get_or chosen 0 0))
    run_method (get_or chosen 1 0) (method_from_code (get_or chosen 1 0)) auth

  unfoldable pub send_request : Target → Action S Unit
  send_request target = do stream.write_all (connect_request target); stream.flush

  -- The length of the bound address of a reply.
  unfoldable pub address_len : ℕ → Option AddressType → Action S ℕ
  address_len code (some ipv4) = pure 4
  address_len code (some ipv6) = pure 16
  address_len code (some domain) = do len ← stream.read_exact 1; pure (get_or len 0 0)
  address_len code none = refuse (invalid_address_type code)

  unfoldable pub read_reply : Action S Unit
  read_reply = do
    head ← stream.read_exact 4
    refuse_if (not (get_or head 0 0 == version)) (unsupported_version (get_or head 0 0))
    refuse_if (not (get_or head 1 0 == 0)) (rejected (reply_code (get_or head 1 0)))
    len ← address_len (get_or head 3 0) (address_from_code (get_or head 3 0))
    _ ← stream.read_exact (len + 2)
    pure tt

  unfoldable pub run_connect : Option Auth → Target → Action S Unit
  run_connect auth target = do negotiate auth; send_request target; read_reply

  -- The function `connect`.
  unfoldable pub connect : Option Auth → Target → Action S Unit
  connect auth target =
      if is_too_long target then refuse hostname_too_long else run_connect auth target
