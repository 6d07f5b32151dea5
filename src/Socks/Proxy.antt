-- ===== src/Socks/Proxy.antt =====
-- src/native/socks5.rs: the proxy that a URL describes, the target that it is asked for, and the
-- tunnel through it. Where the source would panic the result is `none`.
use Prim.Native.String.{String}
use text.Mathlib.Text.{◌==◌ as ◌=ˢ◌}
use yawc.Shared.{
  ℕ, Bool, true, false, ◌||◌, ltb, length, Option, none, some, List, [], ◌∷◌, if◌then◌else◌,
}
use yawc.Error.{socks5, io_error, invalid_http_scheme, Result, ok, err, ◌>>=◌}
use yawc.Error.Socks5.{unsupported_scheme, missing_host, invalid_credentials, credentials_too_long}
use yawc.Network.{
  IpAddr, SocketAddr, v4, v6, Host, domain, ipv4, ipv6, Url, Endpoint, by_host, by_addr, Network,
  connect_tcp,
}
use yawc.Socks.{Auth, Target, named, addressed, max_credential_len, connect}
use yawc.Socks.Io.{Stream}
use yawc.Negotiation.{unwrap_or}

pub record Proxy : Type 0 where
  pub host : Host
  pub port : ℕ
  pub auth : Option Auth
  pub remote_dns : Bool

abbrev pub default_port : ℕ
default_port = 1080

unfoldable pub auth_too_long : Option Auth → Bool
auth_too_long none = false
auth_too_long (some auth) =
    ltb max_credential_len (length auth.username) || ltb max_credential_len (length auth.password)

-- The url and percent-encoding crates: `Host::parse`, and the bytes of a percent-decoded text if they
-- are UTF-8.
pub record UrlText : Type 0 where
  pub host_parse : List ℕ → Result Host
  pub percent_decode : List ℕ → Option (List ℕ)

module _ (text : UrlText) where
  unfoldable pub decode_userinfo : List ℕ → Result (List ℕ)
  decode_userinfo value = elim (text.percent_decode value) [
    | some decoded ↦ ok decoded
    | none ↦ err (socks5 invalid_credentials)
  ]

  unfoldable pub proxy_host : Option Host → Result Host
  proxy_host (some (domain name)) = text.host_parse name
  proxy_host (some (ipv4 ip)) = ok (ipv4 ip)
  proxy_host (some (ipv6 ip)) = ok (ipv6 ip)
  proxy_host none = err (socks5 missing_host)

  unfoldable pub proxy_auth : Url → Result (Option Auth)
  unfolding decode_userinfo
  proxy_auth url = decode_userinfo url.username >>= λ username. elim username [
    | [] ↦ ok none
    | b ∷ bs ↦ decode_userinfo (unwrap_or url.password []) >>= λ password.
        ok (some (record { username = b ∷ bs; password = password }))
  ]

  -- `Proxy::socks5` once the scheme is known.
  unfoldable pub from_url : Bool → Url → Result Proxy
  unfolding proxy_host proxy_auth auth_too_long
  from_url remote_dns url = proxy_host url.host >>= λ host. proxy_auth url >>= λ auth.
      if auth_too_long auth
      then err (socks5 credentials_too_long)
      else ok (record {
        host = host;
        port = unwrap_or url.port default_port;
        auth = auth;
        remote_dns = remote_dns;
      })

  -- `Proxy::socks5`
  unfoldable pub proxy_socks5 : Url → Result Proxy
  unfolding from_url
  proxy_socks5 url =
      if url.scheme =ˢ "socks5"
      then from_url false url
      else if url.scheme =ˢ "socks5h"
      then from_url true url
      else err (socks5 (unsupported_scheme url.scheme))

-- The endpoint of a host at a port.
unfoldable pub endpoint : Host → ℕ → Endpoint
endpoint (domain name) port = by_host name port
endpoint (ipv4 ip) port = by_addr (v4 ip port)
endpoint (ipv6 ip) port = by_addr (v6 ip port)

-- `.next()`: the first address of a lookup.
unfoldable pub first_address : List SocketAddr → Result Target
first_address [] = err io_error
first_address (address ∷ _) = ok (addressed address)

module _ {S : Type 0} (network : Network S) where
  unfoldable pub dial : Proxy → Option IpAddr → Result S
  unfolding endpoint
  dial proxy local_address = connect_tcp network local_address (endpoint proxy.host proxy.port)

  -- The target of a host at a port.
  unfoldable pub target_of : Bool → Host → ℕ → Result Target
  unfolding first_address
  target_of remote_dns (ipv4 ip) port = ok (addressed (v4 ip port))
  target_of remote_dns (ipv6 ip) port = ok (addressed (v6 ip port))
  target_of true (domain name) port = ok (named name port)
  target_of false (domain name) port =
      network.lookup_host (by_host name port) >>= λ addresses. first_address addresses

  unfoldable pub target : Proxy → Url → Option SocketAddr → Option (Result Target)
  unfolding target_of
  target proxy url (some address) = some (ok (addressed address))
  target proxy url none = elim url.known_port [
    | none ↦ none
    | some port ↦ elim url.host [
      | none ↦ none
      | some host ↦ some (target_of proxy.remote_dns host port)
    ]
  ]

-- `matches!(url.scheme(), "ws" | "wss" | "http" | "https")`
unfoldable pub is_web : String → Bool
is_web scheme = (scheme =ˢ "ws") || (scheme =ˢ "wss") || (scheme =ˢ "http") || (scheme =ˢ "https")

module _ {S : Type 0} (network : Network S) (stream : Stream S) where
  -- The tunnel to a target.
  unfoldable pub open_tunnel : Proxy → Option IpAddr → Target → Result S
  unfolding dial connect
  open_tunnel proxy local_address destination = dial network proxy local_address >>= λ socket.
      let (result, opened) = connect stream proxy.auth destination socket in
      result >>= λ _. ok opened

  unfoldable pub connect_from : Proxy → Url → Option SocketAddr → Option IpAddr → Option (Result S)
  unfolding is_web target open_tunnel
  connect_from proxy url address local_address =
      if is_web url.scheme
      then elim url.host [
        | none ↦ some (err io_error)
        | some _ ↦ elim (target network proxy url address) [
          | none ↦ none
          | some destination ↦ some (destination >>= open_tunnel proxy local_address)
        ]
      ]
      else some (err invalid_http_scheme)
