-- ===== src/WsTypes.antt =====
-- components/xsp_ws_client/xsp_ws_client_types.c and include/xsp_ws_client_types.h: opcodes and
-- close statuses as the numbers of the wire.
pub mod Opcode
pub mod Status
use Opcode
use Status
use xsp.Prelude.{ℕ, Bool, true, false, ◌&&◌, ◌||◌, ◌==◌, ltb, leb, if◌then◌else◌}

unfoldable pub is_valid_frame_opcode : ℕ → Bool
is_valid_frame_opcode opcode =
    opcode == Opcode.continuation
    || opcode == Opcode.text
    || opcode == Opcode.binary
    || opcode == Opcode.connection_close
    || opcode == Opcode.ping
    || opcode == Opcode.pong

unfoldable pub is_data_frame_opcode : ℕ → Bool
is_data_frame_opcode opcode = ltb opcode 8

unfoldable pub is_control_frame_opcode : ℕ → Bool
is_control_frame_opcode opcode = leb 8 opcode

unfoldable pub is_valid_close_frame_status : ℕ → Bool
is_valid_close_frame_status status =
    if status == Status.normal_closure
      || status == Status.going_away
      || status == Status.protocol_error
      || status == Status.unsupported_data_type
      || status == Status.invalid_data
      || status == Status.policy_violation
      || status == Status.message_too_big
      || status == Status.mandatory_extension
      || status == Status.internal_server_error
    then true
    else leb Status.public_base status && leb status Status.private_max
