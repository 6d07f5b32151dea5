-- ===== src/Tests/Codecs.antt =====
-- src/codec.rs at concrete inputs.
use yawc.Shared.{ℕ, ◌≡◌, ◌++◌, refl, true, List, [], ◌∷◌, arith}
use yawc.Frame.{text_frame, with_mask}
use yawc.Codec.{server, client, new_decoder, decode, decoded, frame, encode}
use yawc.Codec.Feed.{continue_with, decode-feed}
use yawc.Codec.RoundTrip.{decode-encode_client, decode-encode_server}
use yawc.Codec.Limits.{IsSound, decode-IsSound}
use yawc.Tests.Masks.{rfc_key, hello, plain, plain_aligns}

-- The single-frame masked text message of RFC 6455, section 5.7.
abbrev wire : List ℕ
wire = 0x81 ∷ 0x85 ∷ 0x37 ∷ 0xfa ∷ 0x21 ∷ 0x3d ∷ 0x7f ∷ 0x9f ∷ 0x4d ∷ 0x51 ∷ 0x58 ∷ []

decode-feed_example :
    decode plain (new_decoder server 1024) (wire ++ (0x81 ∷ []))
    ≡ continue_with plain (0x81 ∷ []) (decode plain (new_decoder server 1024) wire)
decode-feed_example = decode-feed plain (new_decoder server 1024) wire (0x81 ∷ [])

decode-encode_client_example :
    decode plain
      (new_decoder server 1024)
      (encode true client rfc_key (text_frame hello) [] ++ (7 ∷ []))
    ≡ decoded (frame (with_mask (text_frame hello) rfc_key)) (new_decoder server 1024) (7 ∷ [])
decode-encode_client_example =
    decode-encode_client plain true 1024 rfc_key (text_frame hello) (7 ∷ []) plain_aligns
      (λ e. refl, λ e. omega arith, omega arith) (omega arith) (omega arith) (omega arith)

decode-encode_server_example :
    decode plain (new_decoder client 1024) (encode true server rfc_key (text_frame hello) [] ++ [])
    ≡ decoded (frame (text_frame hello)) (new_decoder client 1024) []
decode-encode_server_example =
    decode-encode_server plain true 1024 rfc_key (text_frame hello) [] refl
      (λ e. refl, λ e. omega arith, omega arith) (omega arith)

decode-IsSound_example :
    IsSound (new_decoder server 1024) (decode plain (new_decoder server 1024) wire)
decode-IsSound_example = decode-IsSound plain (new_decoder server 1024) wire plain_aligns tt
