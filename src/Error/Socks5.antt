-- ===== src/Error/Socks5.antt =====
-- src/native/socks5.rs: what can go wrong with a SOCKS5 proxy.
use Prim.Native.String.{String}
use yawc.Shared.{ℕ, ◌==◌, if◌then◌else◌}

-- The reply code of a proxy that refuses a `CONNECT`.
pub data ReplyCode : Type 0 where
  general_failure : ReplyCode
  not_allowed : ReplyCode
  network_unreachable : ReplyCode
  host_unreachable : ReplyCode
  connection_refused : ReplyCode
  ttl_expired : ReplyCode
  command_not_supported : ReplyCode
  address_type_not_supported : ReplyCode
  unassigned : ℕ → ReplyCode

unfoldable pub reply_code : ℕ → ReplyCode
reply_code code =
    if code == 1
    then general_failure
    else if code == 2
    then not_allowed
    else if code == 3
    then network_unreachable
    else if code == 4
    then host_unreachable
    else if code == 5
    then connection_refused
    else if code == 6
    then ttl_expired
    else if code == 7
    then command_not_supported
    else if code == 8
    then address_type_not_supported
    else unassigned code

pub data Socks5Error : Type 0 where
  unsupported_scheme : String → Socks5Error
  missing_host : Socks5Error
  invalid_credentials : Socks5Error
  credentials_too_long : Socks5Error
  hostname_too_long : Socks5Error
  unsupported_version : ℕ → Socks5Error
  no_acceptable_auth : Socks5Error
  unsupported_method : ℕ → Socks5Error
  auth_failed : ℕ → Socks5Error
  rejected : ReplyCode → Socks5Error
  invalid_address_type : ℕ → Socks5Error
