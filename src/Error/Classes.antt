-- ===== src/Error/Classes.antt =====
-- The error classes of src/lib.rs do not overlap.
use yawc.Shared.{Bool, ◌+◌, ◌≤◌, ℕ, if◌then◌else◌, arith}
use yawc.Error.{
  WebSocketError, is_protocol_error, is_handshake_error, is_closed, is_data_error, is_io_error,
}

abbrev count_true : Bool → ℕ
count_true b = if b then 1 else 0

-- The number of classes that hold of an error.
abbrev pub classes : WebSocketError → ℕ
classes e =
    count_true (is_protocol_error e)
    + count_true (is_handshake_error e)
    + count_true (is_closed e)
    + count_true (is_data_error e)
    + count_true (is_io_error e)

-- Every error satisfies at most one of the five predicates `is_protocol_error`,
-- `is_handshake_error`, `is_closed`, `is_data_error` and `is_io_error`.
pub classes-le-one : (e : WebSocketError) → classes e ≤ 1
unfolding is_protocol_error is_handshake_error is_closed is_data_error is_io_error
classes-le-one WebSocketError.invalid_fragment = omega arith
classes-le-one e = omega arith
