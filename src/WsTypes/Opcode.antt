-- ===== src/WsTypes/Opcode.antt =====
-- components/xsp_ws_client/include/xsp_ws_client_types.h: `xsp_ws_frame_opcode_t`. The program casts
-- any four-bit number to it, so an opcode is a number.
use xsp.Prelude.{ℕ}

abbrev pub continuation : ℕ
continuation = 0x0

abbrev pub text : ℕ
text = 0x1

abbrev pub binary : ℕ
binary = 0x2

abbrev pub connection_close : ℕ
connection_close = 0x8

abbrev pub ping : ℕ
ping = 0x9

abbrev pub pong : ℕ
pong = 0xa
