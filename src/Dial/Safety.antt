-- ===== src/Dial/Safety.antt =====
-- The `expect` calls of `dial` and `target` (src/native/mod.rs, src/native/socks5.rs), and the names
-- that a client resolves itself.

use yawc.Shared.{
  ℕ, Bool-cases, true, ◌≡◌, ◌≢◌, refl, inl, inr, Option, Option-cases, none, some, arith,
}
use yawc.Network.{IpAddr, SocketAddr, Host, Url, Endpoint, Network, connect_tcp}
use yawc.Socks.Io.{Stream}
use yawc.Socks.Proxy
use yawc.Socks.Proxy.{Proxy, endpoint, connect_from, is_web, target, target_of, open_tunnel}
use yawc.Dial.{Opts, Tls, dial_direct, dial, secure_stream, wrap, connect_stream}

-- The url crate: a URL of a scheme for the web has a host, and a port or the default of its scheme.
abbrev pub IsComplete : Url → Type 0
IsComplete url = is_web url.scheme ≡ true → (url.host ≢ none) × (url.known_port ≢ none)

module _ {S : Type 0} (network : Network S) (stream : Stream S) where
  connect_from-returns :
      (proxy : Proxy) (url : Url) (address : Option SocketAddr) (local : Option IpAddr)
      → IsComplete url
      → connect_from network stream proxy url address local ≢ none
  unfolding connect_from target
  connect_from-returns proxy url address local h e = elim (Bool-cases (is_web url.scheme)) [
    | inr c ↦ ground (arith, c, e)
    | inl c ↦ let (a, b) = h c in ground (arith, a, b, c, e)
  ]

  dial-returns :
      (opts : Opts)
      → is_web opts.url.scheme ≡ true
      → IsComplete opts.url
      → dial network stream opts ≢ none
  unfolding dial dial_direct
  dial-returns opts web h e = elim (Option-cases opts.proxy) [
    | inl c ↦ let (a, b) = h web in ground (arith, a, b, c, e)
    | inr (proxy, c) ↦
        connect_from-returns proxy opts.url opts.tcp_address opts.local_address h
          (ground (arith, c, e))
  ]

  -- No `expect` of `connect_stream` panics, whatever the network, the proxy and the TLS library do:
  -- for a URL of a web scheme the url crate has a host and a port, and any other scheme is refused
  -- before either is asked for.
  pub connect_stream-returns :
      {N T : Type 0} (security : Tls S N T) (opts : Opts)
      → IsComplete opts.url
      → connect_stream network stream security opts ≢ none
  unfolding connect_stream wrap secure_stream is_web
  connect_stream-returns security opts h e = elim (Bool-cases (is_web opts.url.scheme)) [
    | inr c ↦ ground (arith, c, e)
    | inl c ↦ let (a, b) = h c in ground (arith, a, b, c, e, dial-returns opts c h)
  ]

module _ {S : Type 0} (network other : Network S) (stream : Stream S) where
  target_of-remote :
      (host : Host) (port : ℕ) → target_of network true host port ≡ target_of other true host port
  unfolding target_of
  target_of-remote (Host.domain name) port = refl
  target_of-remote (Host.ipv4 ip) port = refl
  target_of-remote (Host.ipv6 ip) port = refl

  target-remote :
      (proxy : Proxy) (url : Url) (address : Option SocketAddr)
      → proxy.remote_dns ≡ true
      → target network proxy url address ≡ target other proxy url address
  unfolding target
  target-remote proxy url (some a) remote = refl
  target-remote proxy url none remote = elim (Option-cases url.known_port) [
    | inl c ↦ ground (arith, c)
    | inr (port, c) ↦ elim (Option-cases url.host) [
      | inl d ↦ ground (arith, c, d)
      | inr (host, d) ↦ ground (arith, c, d, remote, target_of-remote host port)
    ]
  ]

  -- Through a proxy that resolves names, the client connects without a lookup of its own: two
  -- networks that differ in their lookups only give the same tunnel, where no local address is set.
  pub connect_from-independent :
      (proxy : Proxy) (url : Url) (address : Option SocketAddr)
      → ((e : Endpoint) → network.tcp_connect e ≡ other.tcp_connect e)
      → proxy.remote_dns ≡ true
      → connect_from network stream proxy url address none
        ≡ connect_from other stream proxy url address none
  unfolding connect_from open_tunnel connect_tcp Proxy.dial
  connect_from-independent proxy url address same remote =
      elim (Option-cases (target other proxy url address)) [
        | inl c ↦ ground (arith, c, target-remote proxy url address remote)
        | inr (destination, c) ↦ ground (
          arith,
          c,
          target-remote proxy url address remote,
          same (endpoint proxy.host proxy.port),
        )
      ]
