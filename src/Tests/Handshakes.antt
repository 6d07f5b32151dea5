-- ===== src/Tests/Handshakes.antt =====
-- The opening handshake (src/native/mod.rs) at a concrete request.
use yawc.Shared.{ℕ, ◌≡◌, refl, true, false, Option, none, some, List, [], ◌∷◌, codes, if◌then◌else◌}
use yawc.Error.{redirected, ok, err}
use yawc.Codec.{client, server}
use yawc.Negotiation.{agree, WebSocketExtensions, Options, Negotiation, new_negotiation}
use yawc.Negotiation.Mirror.{Agree}
use yawc.Header.{Text}
use yawc.Handshake.{add_extensions, Request, Response, upgrade, verify, from_headers}
use yawc.Header.Offers.{offers}
use yawc.Header.Print.{print}
use yawc.Handshake.Visible.{is_visible}
use yawc.Handshake.Agreement.{accepted, agreed, verify-upgrade}
use yawc.Handshake.Checks.{IsAccepted, verify-IsAccepted}

-- A `to_str` that refuses other bytes, and stand-ins for the digest.
abbrev to_str : List ℕ → Option Text
to_str t = if is_visible t then some t else none

to_str-visible : (t : Text) → is_visible t ≡ true → to_str t ≡ some t
to_str-visible t h = rw h refl

abbrev digest : List ℕ → List ℕ
digest bytes = bytes

abbrev key : List ℕ
key = codes "dGhlIHNhbXBsZSBub25jZQ=="

abbrev request : Request
request = record {
  is_extended_connect = false;
  headers =
      (codes "sec-websocket-key", key)
      ∷ (codes "sec-websocket-version", codes "13")
      ∷ (codes "sec-websocket-extensions", codes "permessage-deflate; client_max_window_bits")
      ∷ [];
}

abbrev options : Options
options = record {
  max_payload_read = some 4096;
  max_read_buffer = none;
  read_buffer_capacity = none;
  write_buffer_capacity = none;
  compression = some (record {
    level = 6;
    server_max_window_bits = some 12;
    client_max_window_bits = some 10;
    server_no_context_takeover = true;
    client_no_context_takeover = false;
    compression_threshold = 64;
  });
  fragmentation = none;
  check_utf8 = true;
  max_backpressure_write_boundary = none;
}

abbrev extensions : WebSocketExtensions
extensions = record {
  server_max_window_bits = some (some 12);
  client_max_window_bits = some (some 10);
  server_no_context_takeover = true;
  client_no_context_takeover = false;
}

-- What each side of the connection has.
abbrev of_server : Negotiation
of_server = record {
  compression = some (record {
    level = 6;
    outgoing = record { no_context_takeover = true; window_bits = some 12 };
    incoming = record { no_context_takeover = false; window_bits = some 10 };
  });
  max_payload_read = 4096;
  max_read_buffer = 8192;
  read_buffer_capacity = none;
  write_buffer_capacity = none;
  utf8 = true;
  fragmentation = none;
  max_backpressure_write_boundary = none;
  compression_threshold = 64;
}

abbrev of_client : Negotiation
of_client = record of_server {
  compression = some (record {
    level = 6;
    outgoing = record { no_context_takeover = false; window_bits = some 10 };
    incoming = record { no_context_takeover = true; window_bits = some 12 };
  });
}

abbrev response : Response
response = accepted true digest digest to_str to_str-visible (some extensions) key

upgraded : upgrade true digest digest to_str request options ≡ ok (response, of_server)
unfolding upgrade new_negotiation agree offers
upgraded = refl

verify-upgrade_example :
    (verify true digest digest to_str response key options
      ≡ new_negotiation
          (agreed true digest digest to_str to_str-visible request options)
          options
          client)
    × (new_negotiation
          (agreed true digest digest to_str to_str-visible request options)
          options
          server
        ≡ ok of_server)
    × Agree (verify true digest digest to_str response key options) (ok of_server)
verify-upgrade_example =
    verify-upgrade true digest digest to_str to_str-visible request key options options response
      of_server refl refl upgraded

verified : verify true digest digest to_str response key options ≡ ok of_client
unfolding verify new_negotiation add_extensions print
verified = refl

verify-IsAccepted_example :
    IsAccepted true digest digest to_str response key
    × (new_negotiation (from_headers true digest digest to_str response.headers) options client
        ≡ ok of_client)
verify-IsAccepted_example =
    verify-IsAccepted true digest digest to_str response key options of_client verified

-- A redirect is reported before any other check.
moved :
    verify true digest digest to_str
      (record { status = 301; headers = (codes "location", codes "/chat") ∷ [] })
      key
      options
    ≡ err (redirected 301 (codes "/chat"))
unfolding verify
moved = refl
