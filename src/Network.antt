-- ===== src/Network.antt =====
-- src/native/mod.rs: `connect_tcp`, over the addresses of the standard library and the calls of
-- tokio's network. A text is the list of its bytes; an address is the list of its octets.
pub mod Attempts
use Prim.Native.String.{String}
use yawc.Shared.{ℕ, Bool, true, false, Option, none, some, List, [], ◌∷◌}
use yawc.Error.{Result, ok, err, io_error, ◌>>=◌}

-- `std::net::IpAddr` and `std::net::SocketAddr`.
pub data IpAddr : Type 0 where
  ip_v4 : List ℕ → IpAddr
  ip_v6 : List ℕ → IpAddr

pub data SocketAddr : Type 0 where
  v4 : List ℕ → ℕ → SocketAddr
  v6 : List ℕ → ℕ → SocketAddr

-- `url::Host`.
pub data Host : Type 0 where
  domain : List ℕ → Host
  ipv4 : List ℕ → Host
  ipv6 : List ℕ → Host

-- What the accessors of a `url::Url` return; `known_port` is `port_or_known_default`.
pub record Url : Type 0 where
  pub scheme : String
  pub host : Option Host
  pub username : List ℕ
  pub password : Option (List ℕ)
  pub port : Option ℕ
  pub known_port : Option ℕ

-- The arguments of `connect_tcp`: a host name with a port, or an address.
pub data Endpoint : Type 0 where
  by_host : List ℕ → ℕ → Endpoint
  by_addr : SocketAddr → Endpoint

-- tokio: `lookup_host`, `TcpStream::connect`, a new socket of the kind of an address that is bound
-- to it, and the connection of that socket.
pub record Network (S : Type 0) : Type 0 where
  pub lookup_host : Endpoint → Result (List SocketAddr)
  pub tcp_connect : Endpoint → Result S
  pub bind : IpAddr → Result (Unit {0})
  pub socket_connect : IpAddr → SocketAddr → Result S

-- `remote.is_ipv4() == local.is_ipv4()`
unfoldable pub same_kind : IpAddr → SocketAddr → Bool
same_kind (ip_v4 _) (v4 _ _) = true
same_kind (ip_v6 _) (v6 _ _) = true
same_kind _ _ = false

module _ {S : Type 0} (network : Network S) where
  -- The loop over the addresses, with the error of the last attempt.
  unfoldable pub try_each : IpAddr → List SocketAddr → Result S → Result S
  unfolding same_kind
  try_each local [] failed = failed
  try_each local (remote ∷ others) failed = elim (same_kind local remote) [
    | false ↦ try_each local others failed
    | true ↦ network.bind local >>= λ _. elim (network.socket_connect local remote) [
      | ok stream ↦ ok stream
      | err reason ↦ try_each local others (err reason)
    ]
  ]

  unfoldable pub connect_tcp : Option IpAddr → Endpoint → Result S
  unfolding try_each
  connect_tcp none target = network.tcp_connect target
  connect_tcp (some local) target =
      network.lookup_host target >>= λ remotes. try_each local remotes (err io_error)
