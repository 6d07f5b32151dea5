-- ===== src/Tests/Negotiations.antt =====
-- src/compression.rs, src/native/options.rs and src/native/mod.rs at concrete options.
use yawc.Shared.{◌≡◌, refl, true, false, none, some, [], ◌∷◌, arith}
use yawc.Error.{ok}
use yawc.Codec.{server, client}
use yawc.Negotiation.{
  WebSocketExtensions, DeflateOptions, Options, Negotiation, agree, merge, find_offer, is_too_small,
  new_negotiation, resolve, clamp, merge_client, merge_server, answer_window,
}
use yawc.Negotiation.Windows.{IsFirst, IsAnswer, agree-IsAnswer}
use yawc.Negotiation.Mirror.{Agree, new_negotiation-Agree}

abbrev deflate : DeflateOptions
deflate = record {
  level = 6;
  server_max_window_bits = some 12;
  client_max_window_bits = some 7;
  server_no_context_takeover = true;
  client_no_context_takeover = false;
  compression_threshold = 64;
}

-- A first offer with a server window of 8 bits, and a second that leaves its own window open.
abbrev tight : WebSocketExtensions
tight = record {
  server_max_window_bits = some (some 8);
  client_max_window_bits = none;
  server_no_context_takeover = false;
  client_no_context_takeover = false;
}

abbrev wide : WebSocketExtensions
wide = record tight { server_max_window_bits = some (some 14); client_max_window_bits = some none }

abbrev answer : WebSocketExtensions
answer = record {
  server_max_window_bits = some (some 12);
  client_max_window_bits = some (some 8);
  server_no_context_takeover = true;
  client_no_context_takeover = false;
}

answered : agree true (some deflate) (tight ∷ wide ∷ []) ≡ some answer
unfolding agree merge find_offer is_too_small clamp merge_client merge_server answer_window
answered = refl

agree-IsAnswer_example :
    (x : WebSocketExtensions) × IsFirst true x (tight ∷ wide ∷ []) × IsAnswer x answer
agree-IsAnswer_example =
    agree-IsAnswer deflate (tight ∷ wide ∷ []) answer
      ((omega arith, omega arith), tt, ((omega arith, omega arith), tt, tt)) answered

abbrev options : Options
options = record {
  max_payload_read = some 4096;
  max_read_buffer = none;
  read_buffer_capacity = none;
  write_buffer_capacity = none;
  compression = none;
  fragmentation = none;
  check_utf8 = true;
  max_backpressure_write_boundary = none;
}

abbrev settled : Negotiation
settled = record {
  compression = none;
  max_payload_read = 4096;
  max_read_buffer = 8192;
  read_buffer_capacity = none;
  write_buffer_capacity = none;
  utf8 = true;
  fragmentation = none;
  max_backpressure_write_boundary = none;
  compression_threshold = 0;
}

settled_for : new_negotiation none options client ≡ ok settled
unfolding new_negotiation resolve
settled_for = refl

new_negotiation-Agree_example :
    Agree
      (new_negotiation (some answer) (record options { compression = some deflate }) client)
      (new_negotiation (some answer) (record options { compression = some deflate }) server)
new_negotiation-Agree_example =
    new_negotiation-Agree (some answer) (record options { compression = some deflate })
      (record options { compression = some deflate })
