-- ===== src/WsTypes/Status.antt =====
-- components/xsp_ws_client/include/xsp_ws_client_types.h: the close statuses.
use xsp.Prelude.{ℕ}

abbrev pub no_status : ℕ
no_status = 0

abbrev pub normal_closure : ℕ
normal_closure = 1000

abbrev pub going_away : ℕ
going_away = 1001

abbrev pub protocol_error : ℕ
protocol_error = 1002

abbrev pub unsupported_data_type : ℕ
unsupported_data_type = 1003

abbrev pub invalid_data : ℕ
invalid_data = 1007

abbrev pub policy_violation : ℕ
policy_violation = 1008

abbrev pub message_too_big : ℕ
message_too_big = 1009

abbrev pub mandatory_extension : ℕ
mandatory_extension = 1010

abbrev pub internal_server_error : ℕ
internal_server_error = 1011

abbrev pub public_base : ℕ
public_base = 3000

abbrev pub private_max : ℕ
private_max = 4999

abbrev pub no_status_received : ℕ
no_status_received = 1005
