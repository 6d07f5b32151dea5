-- ===== src/Frame/CloseFrames.antt =====
-- Close frames of src/frame.rs: what `Frame::close` writes, `close_code` and `close_reason` read.
use yawc.Shared.{ℕ, ◌+◌, ◌*◌, ◌/◌, ◌%◌, ◌^◌, ◌<◌, ◌≡◌, refl, Bool, true, some, List, arith}
use yawc.Error.{ok}
use yawc.Close
use yawc.Close.Codes.{to_u16-from_u16}
use yawc.Frame.{close_frame, close_code, close_reason}

two_bytes : (c : ℕ) → c < 2 ^ 16 → c / 256 % 256 * 256 + c % 256 ≡ c
two_bytes c h = omega arith

-- The code and the reason of a close frame come back, for every code of 16 bits and every reason
-- that is UTF-8.
pub close_frame_parts :
    (is_utf8 : List ℕ → Bool) (c : ℕ) (reason : List ℕ)
    → c < 2 ^ 16
    → is_utf8 reason ≡ true
    → (close_code (close_frame (Close.from_u16 c) reason) ≡ some (Close.from_u16 c))
      × (close_reason is_utf8 (close_frame (Close.from_u16 c) reason) ≡ ok (some reason))
unfolding close_code close_frame close_reason
close_frame_parts is_utf8 c reason h utf8 =
    (rw (to_u16-from_u16 c, two_bytes c h) refl, rw utf8 refl)
