-- ===== src/Handshake/Agreement.antt =====
-- What a server answers to the opening handshake is what the client accepts.
use yawc.Shared.{
  ℕ, ◌≡◌, refl, sym, Bool, true, false, Option, none, some, List, [], ◌∷◌, codes, same_text_refl,
  if◌then◌else◌, arith,
}
use yawc.Error.{invalid_sec_websocket_version, Result, ok, err, ◌>>=◌}
use yawc.Codec.{server, client}
use yawc.Negotiation.{WebSocketExtensions, Options, Negotiation, agree, new_negotiation}
use yawc.Negotiation.Mirror.{Agree, new_negotiation-Agree}
use yawc.Header.{Text}
use yawc.Header.Offers.{offers}
use yawc.Header.Print.{print}
use yawc.Header.Answers.{from_str-print}
use yawc.Handshake.{
  Request, Response, get, get_all, eq_ignore_ascii_case, switching_protocols,
  sec_websocket_protocol, handshake_response, add_extensions, upgrade, from_headers, lists_upgrade,
  connection_lists_upgrade, verify_accept, is_websocket, verify_upgrade, verify,
}
use yawc.Handshake.Windows.{Has, agree-Has, offers-All}
use yawc.Handshake.Visible.{IsVisible, print-IsVisible}

module _ (zlib : Bool) (sha1 : List ℕ → List ℕ) (base64 : List ℕ → Text)
    (to_str : List ℕ → Option Text) (visible : (t : Text) → IsVisible t → to_str t ≡ some t) where
  abbrev pub accepted : Option WebSocketExtensions → List ℕ → Response
  accepted x key =
      add_extensions zlib sha1 base64 to_str x
        (switching_protocols (sec_websocket_protocol sha1 base64 key))

  from_headers-accepted :
      (x : Option WebSocketExtensions) (key : List ℕ)
      → Has x
      → from_headers zlib sha1 base64 to_str (accepted x key).headers ≡ x
  unfolding from_headers add_extensions
  from_headers-accepted none key h = refl
  from_headers-accepted (some e) key h =
      rw (visible (print e) (print-IsVisible e h)) (from_str-print e h.0 h.1)

  is_websocket-websocket : is_websocket zlib sha1 base64 to_str (some (codes "websocket")) ≡ true
  unfolding is_websocket eq_ignore_ascii_case
  is_websocket-websocket = rw (visible (codes "websocket") refl, is_websocket) refl

  lists_upgrade-upgrade : lists_upgrade zlib sha1 base64 to_str (codes "upgrade" ∷ []) ≡ true
  unfolding lists_upgrade eq_ignore_ascii_case
  lists_upgrade-upgrade = rw (visible (codes "upgrade") refl, lists_upgrade) refl

  verify-accepted :
      (x : Option WebSocketExtensions) (key : List ℕ) (a : Options)
      → Has x
      → verify zlib sha1 base64 to_str (accepted x key) key a ≡ new_negotiation x a client
  unfolding verify verify_upgrade add_extensions connection_lists_upgrade verify_accept
  verify-accepted none key a h =
      rw
        (
          is_websocket-websocket,
          lists_upgrade-upgrade,
          same_text_refl (sec_websocket_protocol sha1 base64 key),
          from_headers-accepted none key h,
        )
        refl
  verify-accepted (some e) key a h =
      rw
        (
          is_websocket-websocket,
          lists_upgrade-upgrade,
          same_text_refl (sec_websocket_protocol sha1 base64 key),
          from_headers-accepted (some e) key h,
        )
        refl

  -- The extensions that the server settles.
  abbrev pub agreed : Request → Options → Option WebSocketExtensions
  agreed request b =
      agree zlib b.compression
        (offers to_str (get_all (codes "sec-websocket-extensions") request.headers))

  -- The end of `upgrade`, behind its version check.
  abbrev conclude :
      Bool → Result Negotiation → (Response → Response) → Response → Result (Response × Negotiation)
  conclude v r add builder =
      if v then (r >>= λ m. ok (add builder, m)) else err invalid_sec_websocket_version

  concluded :
      (h : Result Response) (v : Bool) (r : Result Negotiation) (add : Response → Response)
      (built response : Response) (n : Negotiation)
      → h ≡ ok built
      → (h >>= conclude v r add) ≡ ok (response, n)
      → (response ≡ add built) × (r ≡ ok n)
  concluded (err e) v r add built response n same done = absurd (ground (arith, same))
  concluded (ok b) false r add built response n same done = absurd (ground (arith, done))
  concluded (ok b) true (err e) add built response n same done = absurd (ground (arith, done))
  concluded (ok b) true (ok m) add built response n same done =
      (ground (arith, same, done), ground (arith, done))

  built-switching :
      (request : Request) (key : List ℕ)
      → request.is_extended_connect ≡ false
      → get (codes "sec-websocket-key") request.headers ≡ some key
      → handshake_response zlib sha1 base64 to_str request
        ≡ ok (switching_protocols (sec_websocket_protocol sha1 base64 key))
  unfolding handshake_response
  built-switching request key plain found = rw (plain, found) refl

  upgrade-cases :
      (request : Request) (key : List ℕ) (b : Options) (response : Response) (n : Negotiation)
      → request.is_extended_connect ≡ false
      → get (codes "sec-websocket-key") request.headers ≡ some key
      → upgrade zlib sha1 base64 to_str request b ≡ ok (response, n)
      → (response ≡ accepted (agreed request b) key)
        × (new_negotiation (agreed request b) b server ≡ ok n)
  unfolding upgrade
  upgrade-cases request key b response n plain found done =
      concluded (handshake_response zlib sha1 base64 to_str request) _ _ _ _ response n
        (built-switching request key plain found) done

  -- A client accepts whatever a server answers to its HTTP/1.1 request, once the server has its key
  -- and makes a connection of it: the client takes the very extensions that the server agreed, so
  -- that, unless its own options refuse them, both use compression or neither, and each side inflates
  -- with what the other deflates with.
  pub verify-upgrade :
      (request : Request) (key : List ℕ) (a b : Options) (response : Response) (n : Negotiation)
      → request.is_extended_connect ≡ false
      → get (codes "sec-websocket-key") request.headers ≡ some key
      → upgrade zlib sha1 base64 to_str request b ≡ ok (response, n)
      → (verify zlib sha1 base64 to_str response key a
          ≡ new_negotiation (agreed request b) a client)
        × (new_negotiation (agreed request b) b server ≡ ok n)
        × Agree (verify zlib sha1 base64 to_str response key a) (ok n)
  verify-upgrade request key a b response n plain found done =
      let (answer, negotiated) = upgrade-cases request key b response n plain found done in
      let has =
        agree-Has zlib b.compression _
          (offers-All to_str (get_all (codes "sec-websocket-extensions") request.headers)) in
      let same : verify zlib sha1 base64 to_str response key a
          ≡ new_negotiation (agreed request b) a client =
        rw answer (verify-accepted (agreed request b) key a has) in
      (same, negotiated, rw (same, sym negotiated) (new_negotiation-Agree (agreed request b) a b))
