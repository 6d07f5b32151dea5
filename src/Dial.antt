-- ===== src/Dial.antt =====
-- src/native/mod.rs: `dial` and `connect_stream`, the transport that a handshake runs over. Where the
-- source would panic the result is `none`.
pub mod Safety
use Prim.Native.String.{String}
use text.Mathlib.Text.{◌==◌ as ◌=ˢ◌}
use yawc.Shared.{ℕ, Bool, true, false, Option, none, some, List, if◌then◌else◌}
use yawc.Error.{io_error, invalid_http_scheme, Result, ok, err, ◌>>=◌}
use yawc.Network.{IpAddr, SocketAddr, Host, Url, Endpoint, by_addr, Network, connect_tcp}
use yawc.Socks.Io.{Stream}
use yawc.Socks.Proxy.{Proxy, endpoint, connect_from}

-- What `dial` reads of the `WsBuilderOpts`.
pub record Opts : Type 0 where
  pub url : Url
  pub tcp_address : Option SocketAddr
  pub local_address : Option IpAddr
  pub proxy : Option Proxy

-- The TLS crate: the name of a host in a certificate, and the handshake under that name.
pub record Tls (S N T : Type 0) : Type 0 where
  pub server_name : Host → Option N
  pub connect : N → S → Result T

-- `MaybeTlsStream`
pub data MaybeTlsStream (S T : Type 0) : Type 0 where
  plain : S → MaybeTlsStream S T
  tls : T → MaybeTlsStream S T

module _ {S : Type 0} (network : Network S) (stream : Stream S) where
  -- Without a proxy.
  unfoldable pub dial_direct : Opts → Option (Result S)
  unfolding connect_tcp endpoint
  dial_direct opts = elim opts.tcp_address [
    | some address ↦ some (connect_tcp network opts.local_address (by_addr address))
    | none ↦ elim opts.url.known_port [
      | none ↦ none
      | some port ↦ elim opts.url.host [
        | none ↦ none
        | some host ↦ some (connect_tcp network opts.local_address (endpoint host port))
      ]
    ]
  ]

  unfoldable pub dial : Opts → Option (Result S)
  unfolding dial_direct connect_from
  dial opts = elim opts.proxy [
    | none ↦ dial_direct opts
    | some proxy ↦ connect_from network stream proxy opts.url opts.tcp_address opts.local_address
  ]

  module _ {N T : Type 0} (security : Tls S N T) where
    -- The TLS handshake with the host of the URL.
    unfoldable pub secure_stream : Option Host → S → Option (Result (MaybeTlsStream S T))
    secure_stream none socket = none
    secure_stream (some host) socket = elim (security.server_name host) [
      | none ↦ some (err io_error)
      | some name ↦ some (security.connect name socket >>= λ secured. ok (tls secured))
    ]

    -- The stream above the socket.
    unfoldable pub wrap : Bool → Opts → Option (Result S) → Option (Result (MaybeTlsStream S T))
    unfolding secure_stream
    wrap secure opts none = none
    wrap secure opts (some (err reason)) = some (err reason)
    wrap true opts (some (ok socket)) = secure_stream opts.url.host socket
    wrap false opts (some (ok socket)) = some (ok (plain socket))

    unfoldable pub connect_stream : Opts → Option (Result (MaybeTlsStream S T))
    unfolding wrap dial
    connect_stream opts =
        if opts.url.scheme =ˢ "ws"
        then wrap false opts (dial opts)
        else if opts.url.scheme =ˢ "wss"
        then wrap true opts (dial opts)
        else some (err invalid_http_scheme)
