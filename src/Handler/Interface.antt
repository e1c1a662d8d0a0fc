-- ===== src/Handler/Interface.antt =====
-- What xsp_ws_client_handler.c uses of the client, and what its user gives it.
use xsp.Prelude.{ℕ, ◌<◌, ◌≡◌, Bool, true, List}
use xsp.Esp.{EspErr, is_ok}
use xsp.Client.{ClientState}
use xsp.Client.Read.{is_state_ok}

-- A frame behind the out-pointers of `xsp_ws_client_read_frame`, where that returned ESP_OK.
pub record Received : Type 0 where
  pub fin : Bool
  pub opcode : ℕ
  pub payload : List ℕ

-- The functions of xsp_ws_client.h, on a client's state `C`: `read_frame` with the size of its buffer,
-- `write_close_frame` without a reason, `poll_write` with the timeout 0.
pub record WsClient (C : Type 0) : Type 0 where
  pub get_state : C → ClientState
  pub has_buffered_read_data : C → Bool
  pub read_frame : C → ℕ → EspErr × Received × C
  pub write_frame : C → Bool → ℕ → List ℕ → EspErr × C
  pub write_close_frame : C → ℕ → EspErr × C
  pub poll_write : C → EspErr × C

-- A client that has failed stays so, and a frame that was not written is a failure.
pub record Fails {C : Type 0} (ops : WsClient C) : Type 0 where
  pub read_fails :
      (c : C) (n : ℕ)
      → is_state_ok (ops.get_state (ops.read_frame c n).2) ≡ true
      → is_state_ok (ops.get_state c) ≡ true
  pub write_fails :
      (c : C) (fin : Bool) (opcode : ℕ) (payload : List ℕ)
      → is_state_ok (ops.get_state (ops.write_frame c fin opcode payload).1) ≡ true
      → (is_state_ok (ops.get_state c) ≡ true)
        × (is_ok (ops.write_frame c fin opcode payload).0 ≡ true)
  pub close_fails :
      (c : C) (status : ℕ)
      → is_state_ok (ops.get_state (ops.write_close_frame c status).1) ≡ true
      → is_state_ok (ops.get_state c) ≡ true
  pub poll_fails :
      (c : C)
      → is_state_ok (ops.get_state (ops.poll_write c).1) ≡ true
      → is_state_ok (ops.get_state c) ≡ true

-- The bytes that are left of what the handshake read too much: a frame read takes some of them, and
-- nothing adds to them.
pub record Buffers {C : Type 0} (ops : WsClient C) (buffered : C → ℕ) : Type 0 where
  pub read_buffered :
      (c : C) (n : ℕ)
      → ops.has_buffered_read_data c ≡ true
      → buffered (ops.read_frame c n).2 < buffered c
  pub write_buffered :
      (c : C) (fin : Bool) (opcode : ℕ) (payload : List ℕ)
      → buffered (ops.write_frame c fin opcode payload).1 ≡ buffered c
  pub close_buffered :
      (c : C) (status : ℕ) → buffered (ops.write_close_frame c status).1 ≡ buffered c

-- A size and a pointer as arguments: the pointer is null, or points at so many bytes.
pub data Sized : Type 0 where
  negative : Sized
  null : ℕ → Sized
  at : List ℕ → Sized

-- The events of `xsp_ws_client_event_handler_t`.
pub data Event : Type 0 where
  client_closed : ℕ → Event
  data_frame_received : Bool → ℕ → List ℕ → Event
  ping_received : List ℕ → Event
  pong_received : List ℕ → Event
  message_sent : Bool → Event

-- What an event handler calls: the functions of the handler, and `xsp_loop_stop`.
pub data Call : Type 0 where
  call_send_message : Bool → Sized → Call
  call_close : ℕ → Call
  call_ping : Sized → Call
  call_stop : Call

-- An event handler's body, with a state of its own: calls in order, each depending on the results.
pub data Program (U : Type 0) : Type 0 where
  done : U → Program U
  then_call : Call → (EspErr → Program U) → Program U
