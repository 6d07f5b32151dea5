-- ===== src/Codec/State.antt =====
-- The packed header of src/codec.rs gives back what was put into it.
use yawc.Shared.{ℕ, Bool, Option, some, ◌≡◌, refl, arith}
use yawc.Frame.{OpCode, MaskKey}
use yawc.Codec.{new_state, state_fin, state_rsv1, state_opcode, state_mask, ReadState}

-- The flags of a packed header decide all four accessors, and there are 48 of them.
abbrev pub Accessors : Bool → Bool → OpCode → Option MaskKey → ReadState → Type 0
Accessors fin rsv1 opcode mask s =
    (state_fin s ≡ fin)
    × (state_rsv1 s ≡ rsv1)
    × (state_opcode s ≡ some opcode)
    × (state_mask s ≡ mask)

-- Packing FIN, RSV1, opcode and key into a `ReadState` and reading them back by its accessors
-- gives the same values, for every combination.
pub new_state-Accessors :
    (fin rsv1 : Bool) (opcode : OpCode) (mask : Option MaskKey) (len : ℕ)
    → Accessors fin rsv1 opcode mask (new_state fin rsv1 opcode mask len)
unfolding new_state state_fin state_rsv1 state_opcode state_mask
new_state-Accessors fin rsv1 opcode mask len = ground arith

pub new_state-payload_len :
    (fin rsv1 : Bool) (opcode : OpCode) (mask : Option MaskKey) (len : ℕ)
    → (new_state fin rsv1 opcode mask len).payload_len ≡ len
unfolding new_state
new_state-payload_len fin rsv1 opcode mask len = refl
