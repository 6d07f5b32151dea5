-- ===== src/Negotiation/Mirror.antt =====
-- The two ends of a connection, for `CompressionConfig::resolve` in src/compression.rs and
-- `Negotiation::new` in src/native/mod.rs.
use yawc.Shared.{◌*◌, ◌≤◌, ◌≡◌, Option, none, some, arith}
use yawc.Error.{Result, ok}
use yawc.Codec.{Role, server, client}
use yawc.Negotiation.{
  WebSocketExtensions, Options, HalfConfig, CompressionConfig, Negotiation, resolve, clamp_window,
  clamp, new_negotiation,
}

-- A window that a compressor can be built with.
abbrev pub IsUsable : HalfConfig → Type 0
IsUsable h = elim h.window_bits [ none ↦ Unit | some b ↦ (9 ≤ b) × (b ≤ 15) ]

-- Each side inflates with what the other deflates with.
abbrev pub AreMirrored : Option CompressionConfig → Option CompressionConfig → Type 0
AreMirrored none none = Unit
AreMirrored (some c) (some s) =
    (c.outgoing ≡ s.incoming)
    × (c.incoming ≡ s.outgoing)
    × IsUsable c.outgoing
    × IsUsable c.incoming
AreMirrored _ _ = ⊥

-- What two sides with their own options have, if they both have a connection.
abbrev pub Agree : Result Negotiation → Result Negotiation → Type 0
Agree (ok c) (ok s) = AreMirrored c.compression s.compression
Agree _ _ = Unit

-- A client and a server that settled the same extensions, whatever options each has, either both
-- use compression or neither does: each side inflates with the window and the takeover setting
-- that the other deflates with, and every window has 9 to 15 bits.
pub new_negotiation-Agree :
    (x : Option WebSocketExtensions) (a b : Options)
    → Agree (new_negotiation x a client) (new_negotiation x b server)
unfolding new_negotiation resolve clamp_window clamp
new_negotiation-Agree x a b = ground arith

-- Unless the options set the read buffer limit, it holds two payloads of the limit in force.
pub new_negotiation-read_buffer :
    (x : Option WebSocketExtensions) (o : Options) (role : Role) (n : Negotiation)
    → new_negotiation x o role ≡ ok n
    → o.max_read_buffer ≡ none
    → n.max_read_buffer ≡ n.max_payload_read * 2
unfolding new_negotiation resolve
new_negotiation-read_buffer x o role n h k = ground (arith, h, k)
