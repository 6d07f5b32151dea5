-- ===== src/Network/Attempts.antt =====
-- Which address `connect_tcp` of src/native/mod.rs connects to from a bound socket.
use yawc.Shared.{◌≡◌, true, false, List, ◌∷◌}
use yawc.Error.{WebSocketError, ok, err}
use yawc.Network.{IpAddr, SocketAddr, Network, same_kind}

module _ {S : Type 0} (network : Network S) (local : IpAddr) where
  -- The first address of the kind of `local` that accepts a connection gives the stream.
  pub data IsFirst : List SocketAddr → S → Type 0 where
    accepts :
        (remote : SocketAddr) (others : List SocketAddr) (stream : S)
        → same_kind local remote ≡ true
        → network.socket_connect local remote ≡ ok stream
        → IsFirst (remote ∷ others) stream
    other_kind :
        (remote : SocketAddr) (others : List SocketAddr) (stream : S)
        → same_kind local remote ≡ false
        → IsFirst others stream
        → IsFirst (remote ∷ others) stream
    fails :
        (remote : SocketAddr) (others : List SocketAddr) (stream : S) (reason : WebSocketError)
        → same_kind local remote ≡ true
        → network.socket_connect local remote ≡ err reason
        → IsFirst others stream
        → IsFirst (remote ∷ others) stream
