-- ===== src/Frame/OpCodes.antt =====
-- The conversions between opcodes and bytes of src/frame.rs.
use yawc.Shared.{ℕ, ◌≡◌, ◌↔◌, arith}
use yawc.Error.{ok}
use yawc.Frame.{OpCode, try_from, to_u8}

try_from-to_u8 : (op : OpCode) → try_from (to_u8 op) ≡ ok op
unfolding try_from to_u8
try_from-to_u8 op = ground arith

-- A byte is read as an opcode exactly when it is the byte of that opcode; so the reserved values
-- 3 to 7 and 11 to 15, and all others, are refused.
pub try_from_iff : (v : ℕ) (op : OpCode) → (try_from v ≡ ok op) ↔ (v ≡ to_u8 op)
unfolding try_from to_u8
try_from_iff v op = (λ h. ground arith, λ h. ground arith)
