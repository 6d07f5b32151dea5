-- ===== src/Close/Codes.antt =====
-- What the conversions of src/close.rs promise.
use yawc.Shared.{ℕ, true, ◌≡◌, ◌≤◌, ◌⊎◌, ◌↔◌, arith}
use yawc.Close.{is_allowed, from_range, from_u16, to_u16}

from_range-to_u16 : (c : ℕ) → to_u16 (from_range c) ≡ c
unfolding from_range to_u16
from_range-to_u16 c = ground arith

-- Every code survives the conversion into a `CloseCode` and back.
pub to_u16-from_u16 : (c : ℕ) → to_u16 (from_u16 c) ≡ c
unfolding from_u16 to_u16
to_u16-from_u16 c = ground (arith, from_range-to_u16 c)

-- The codes that RFC 6455 lets an endpoint put into a close frame: the named ones but 1005, 1006
-- and 1015 (and the undefined 1004), and the ranges for libraries and private use.
abbrev pub MaySend : ℕ → Type 0
MaySend c = ((1000 ≤ c) × (c ≤ 1003)) ⊎ (((1007 ≤ c) × (c ≤ 1013)) ⊎ ((3000 ≤ c) × (c ≤ 4999)))

from_range_allowed : (c : ℕ) → (is_allowed (from_range c) ≡ true) ↔ ((3000 ≤ c) × (c ≤ 4999))
unfolding from_range is_allowed
from_range_allowed c = (λ h. ground arith, λ h. ground arith)

-- A code is allowed exactly when it lies in 1000 to 1003, 1007 to 1013 or 3000 to 4999.
pub is_allowed_iff : (c : ℕ) → (is_allowed (from_u16 c) ≡ true) ↔ MaySend c
unfolding from_u16 is_allowed
is_allowed_iff c =
    (λ h. ground (arith, from_range_allowed c), λ h. ground (arith, from_range_allowed c))
