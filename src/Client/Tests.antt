-- ===== src/Client/Tests.antt =====
-- Frames and a handshake of xsp_ws_client.c, over transports that take all they are given, or deliver a string.
use xsp.Prelude.{
  Bool, false, ◌==◌, ◌&&◌, ℕ, ◌*◌, ◌≡◌, refl, true, List, [], ◌∷◌, ◌++◌, none, some, arith, length,
}
use xsp.Prelude.Int.{pos}
use xsp.Esp.{esp_ok}
use xsp.WsTypes.Opcode
use xsp.Client.{Transport, Client, state_ok}
use xsp.WsTypes.{is_valid_frame_opcode, is_control_frame_opcode}
use xsp.Client.Handshake.{
  Event, logged, on_header, strings, has_header, handle_all, http_event_handler, handle_header,
  is_accepted-has_header,
}
use xsp.Client.Read.{read_frame}
use xsp.Client.Read.Server.{got}
use xsp.Client.Read.Source.{source, source-Streams}
use xsp.Client.Read.Frames.{read_frame-server_frame}
use xsp.Client.Write.{frame_header, mask, write_payload, write_on, write_frame}
use xsp.Client.Write.Format.{client_frame}
use xsp.Client.Write.Masking.{Logs, Sends, write_frame-Sends}

abbrev sink : Transport (List ℕ)
sink = record {
  write = λ t bytes. (t ++ bytes, pos (length bytes));
  read = λ t size. (t, pos 0, []);
  poll_write = λ t. (t, pos 1);
  poll_read = λ t. (t, pos 0);
}

sink-Logs : Logs sink (λ t. t)
sink-Logs = record { took = λ t bytes h. refl }

abbrev connected : Client (List ℕ)
connected = record {
  state = state_ok;
  transport = some [];
  overread_data = none;
  overread_size = 0;
  overread_consumed = 0;
  overread_frees = 0;
}

abbrev hello : List ℕ
hello = 72 ∷ 101 ∷ 108 ∷ 108 ∷ 111 ∷ []

abbrev key : List ℕ
key = 0x37 ∷ 0xfa ∷ 0x21 ∷ 0x3d ∷ []

-- The masked frame of RFC 6455, section 5.7, with a buffer of four bytes.
masked_hello :
    write_frame sink 4 connected true Opcode.text hello key
    ≡ some (
      esp_ok,
      record connected {
        transport =
            some (0x81 ∷ 0x85 ∷ 0x37 ∷ 0xfa ∷ 0x21 ∷ 0x3d ∷ 0x7f ∷ 0x9f ∷ 0x4d ∷ 0x51 ∷ 0x58 ∷ []);
      },
    )
unfolding write_frame write_on write_payload frame_header mask
masked_hello = refl

write_frame-Sends_example :
    Sends sink
      (λ t. t)
      sink-Logs
      1
      (omega arith)
      connected
      []
      (client_frame true Opcode.text 0x37 0xfa 0x21 0x3d hello)
      (write_frame sink (4 * 1) connected true Opcode.text hello key)
write_frame-Sends_example =
    write_frame-Sends sink (λ t. t) sink-Logs 1 (omega arith) connected [] true Opcode.text hello
      0x37 0xfa 0x21 0x3d refl refl (omega arith) (omega arith)

abbrev stream : List ℕ
stream = 0x81 ∷ 0x05 ∷ 72 ∷ 101 ∷ 108 ∷ 108 ∷ 111 ∷ 0x89 ∷ []

read_frame-server_frame_example :
    (t' : List ℕ) × (read_frame source (record connected { transport = some stream }) 64
      ≡ some (esp_ok, got true Opcode.text hello, record connected { transport = some t' }))
    × (t' ≡ 0x89 ∷ [])
unfolding is_valid_frame_opcode is_control_frame_opcode
read_frame-server_frame_example =
    read_frame-server_frame source (λ t. t) source-Streams
      (record connected { transport = some stream }) stream 64 true Opcode.text hello (0x89 ∷ [])
      refl refl refl refl refl (λ h. omega arith) (omega arith) (omega arith) refl

-- A response that passes, for the expected value "x"; names are compared byte by byte.
abbrev equal : List ℕ → List ℕ → Bool
equal [] [] = true
equal (x ∷ xs) (y ∷ ys) = x == y && equal xs ys
equal _ _ = false

abbrev response : List Event
response =
    on_header strings.upgrade strings.websocket
    ∷ logged
    ∷ on_header strings.connection strings.upgrade
    ∷ on_header strings.sec_websocket_accept (120 ∷ [])
    ∷ []

is_accepted-has_header_here :
    (has_header equal (λ s. some s) strings.upgrade strings.websocket response ≡ true)
    × (has_header equal (λ s. some s) strings.connection strings.upgrade response ≡ true)
    × (has_header equal (λ s. some s) strings.sec_websocket_accept (120 ∷ []) response ≡ true)
unfolding handle_all http_event_handler handle_header
is_accepted-has_header_here =
    is_accepted-has_header equal (λ s. some s) (120 ∷ []) false response refl
