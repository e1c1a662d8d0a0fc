-- ===== src/Handler.antt =====
-- components/xsp_ws_client/xsp_ws_client_handler.c: the handler that runs a client in the loop.
--
-- The client is the interface `WsClient`, the loop's flags and all else are `State`. The log of what
-- has happened, newest first, is not in the source: nothing reads it.
pub mod Interface
pub mod Log
pub mod Invariant
pub mod Writes
pub mod Keeps
pub mod Rounds
pub mod Runs
pub mod Buffered
pub mod OverClient
pub mod Setup
mod Tests
mod ClientTests
mod SetupTests
use xsp.Prelude.{
  ℕ, zero, suc, ◌+◌, ◌-◌, ◌*◌, ◌^◌, Bool, true, false, not, ◌&&◌, ◌||◌, List, [], ◌∷◌, Option, none,
  some, ltb, leb, ◌==◌, if◌then◌else◌, length, take, drop, min,
}
use xsp.Prelude.Int.{ℤ, pos, negsuc}
use xsp.Esp.{EspErr, esp_ok, esp_fail, esp_err_invalid_arg, esp_err_invalid_state, is_ok}
use xsp.WsTypes.{is_valid_close_frame_status}
use xsp.WsTypes.Opcode
use xsp.WsTypes.Status
use xsp.Utf8.{validate}
use xsp.Client.Read.{is_state_ok}
use xsp.Loop.{State, WatchFor}
use xsp.Loop
use xsp.Handler.Interface.{
  WsClient, Received, Sized, negative, null, at, Event, client_closed, data_frame_received,
  ping_received, pong_received, message_sent, Call, call_send_message, call_close, call_ping,
  call_stop, Program, done, then_call,
}

-- `xsp_ws_client_handler_config_t` but for the timeouts.
pub record Config : Type 0 where
  pub max_frame_read_size : ℕ
  pub max_data_frame_write_size : ℕ

-- `xsp_ws_client_handler_t`; `send_message` has the `send_size` bytes.
pub record Handler : Type 0 where
  pub config : Config
  pub close_sent : Bool
  pub close_event_sent : Bool
  pub close_status : ℕ
  pub sending_message : Bool
  pub send_is_binary : Bool
  pub send_message : List ℕ
  pub send_size : ℕ
  pub send_written : ℕ

-- An event sent, a frame written with its result, a close frame written, a message accepted.
pub data Entry : Type 0 where
  event : Event → Entry
  wrote : Bool → ℕ → List ℕ → EspErr → Entry
  wrote_close : ℕ → EspErr → Entry
  accepted : Bool → List ℕ → Entry

pub record World (C U : Type 0) : Type 0 where
  pub client : C
  pub handler : Handler
  pub user : U
  pub log : List Entry

-- `validate_config` of a configuration that is given.
unfoldable pub validate_config : ℤ → ℤ → ℤ → ℤ → Bool
validate_config (pos read_size) (pos write_size) (pos read_timeout) (pos write_timeout) =
    not (ltb read_size 125) && not (ltb write_size 1)
validate_config _ _ _ _ = false

-- `xsp_ws_client_handler_init` from the fields on, of a checked configuration.
unfoldable pub init : Config → Handler
init config = record {
  config = config;
  close_sent = false;
  close_event_sent = false;
  close_status = Status.no_status;
  sending_message = false;
  send_is_binary = false;
  send_message = [];
  send_size = 0;
  send_written = 0;
}

-- The bytes that pass the check of a size and a pointer.
abbrev pub content : Sized → Option (List ℕ)
content negative = none
content (null zero) = some []
content (null (suc n)) = none
content (at bytes) = some bytes

abbrev pub is_data_opcode : ℕ → Bool
is_data_opcode opcode =
    opcode == Opcode.continuation || opcode == Opcode.text || opcode == Opcode.binary

-- The size of the next frame of the message, its opcode, payload, and whether it is the last.
abbrev pub write_size : Handler → ℕ
write_size h = min h.config.max_data_frame_write_size (h.send_size - h.send_written)

abbrev pub write_opcode : Handler → ℕ
write_opcode h =
    if h.send_written == 0
    then if h.send_is_binary then Opcode.binary else Opcode.text
    else Opcode.continuation

abbrev pub write_chunk : Handler → List ℕ
write_chunk h = take (write_size h) (drop h.send_written h.send_message)

abbrev pub write_fin : Handler → Bool
write_fin h = h.send_written + write_size h == h.send_size

module _ {C U : Type 0} where
  abbrev pub set_client : State (World C U) → C → State (World C U)
  set_client s client = record s { env = record s.env { client = client } }

  abbrev pub set_handler : State (World C U) → Handler → State (World C U)
  set_handler s handler = record s { env = record s.env { handler = handler } }

  abbrev pub add_entry : State (World C U) → Entry → State (World C U)
  add_entry s entry = record s { env = record s.env { log = entry ∷ s.env.log } }

  abbrev pub set_close_sent : State (World C U) → State (World C U)
  set_close_sent s = set_handler s (record s.env.handler { close_sent = true })

  abbrev pub set_close_status : ℕ → State (World C U) → State (World C U)
  set_close_status status s = set_handler s (record s.env.handler { close_status = status })

module _ {C U : Type 0} (ops : WsClient C) where
  abbrev pub is_client_ok : State (World C U) → Bool
  is_client_ok s = is_state_ok (ops.get_state s.env.client)

  unfoldable pub should_stop : State (World C U) → Bool
  should_stop s =
      Loop.should_stop s.is_running s.should_stop
      || s.env.handler.close_sent
      || not (is_client_ok s)

  -- `xsp_ws_client_write_frame` and `xsp_ws_client_write_close_frame` of the handler's client.
  unfoldable pub write_frame : Bool → ℕ → List ℕ → State (World C U) → EspErr × State (World C U)
  write_frame fin opcode payload s =
      let (err, client) = ops.write_frame s.env.client fin opcode payload in
      (err, add_entry (set_client s client) (wrote fin opcode payload err))

  unfoldable pub write_close_frame : ℕ → State (World C U) → State (World C U)
  write_close_frame status s =
      let (err, client) = ops.write_close_frame s.env.client status in
      add_entry (set_client s client) (wrote_close status err)

  unfoldable pub send_message : Bool → Sized → State (World C U) → EspErr × State (World C U)
  send_message binary message s = elim (content message) [
    | none ↦ (esp_err_invalid_arg, s)
    | some bytes ↦
        if not s.is_running || s.env.handler.sending_message
        then (esp_err_invalid_state, s)
        else if is_client_ok s
        then (
          esp_ok,
          add_entry
              (set_handler s (record s.env.handler {
                sending_message = true;
                send_is_binary = binary;
                send_message = bytes;
                send_size = length bytes;
                send_written = 0;
              }))
              (accepted binary bytes),
        )
        else (esp_fail, s)
  ]

  unfoldable pub close : ℕ → State (World C U) → EspErr × State (World C U)
  close close_status s =
      if not (is_valid_close_frame_status close_status)
      then (esp_err_invalid_arg, s)
      else if not s.is_running
      then (esp_err_invalid_state, s)
      else if not (is_client_ok s) || s.env.handler.close_sent
      then (esp_ok, s)
      else (esp_ok, set_close_sent (write_close_frame close_status s))

  unfoldable pub ping : Sized → State (World C U) → EspErr × State (World C U)
  ping payload s = elim (content payload) [
    | none ↦ (esp_err_invalid_arg, s)
    | some bytes ↦
        if ltb 125 (length bytes)
        then (esp_err_invalid_arg, s)
        else if not s.is_running
        then (esp_err_invalid_state, s)
        else write_frame true Opcode.ping bytes s
  ]

  abbrev pub perform : Call → State (World C U) → EspErr × State (World C U)
  perform (call_send_message binary message) s = send_message binary message s
  perform (call_close close_status) s = close close_status s
  perform (call_ping payload) s = ping payload s
  perform call_stop s = Loop.stop s

  -- The calls of an event handler, and its state behind them.
  unfoldable pub run_program : Program U → State (World C U) → State (World C U)
  run_program (done user) s = record s { env = record s.env { user = user } }
  run_program (then_call call k) s = let (err, s') = perform call s in run_program (k err) s'

  -- The payload of a close frame is answered, where none has been sent.
  unfoldable pub answer_close : List ℕ → State (World C U) → State (World C U)
  answer_close [] s =
      write_close_frame Status.no_status (set_close_status Status.no_status_received s)
  answer_close (b ∷ []) s =
      write_close_frame Status.protocol_error (set_close_status Status.protocol_error s)
  answer_close (b0 ∷ b1 ∷ reason) s =
      let close_status = b0 * 2 ^ 8 + b1 in
      if is_valid_close_frame_status close_status
      then if validate reason
        then (write_frame true Opcode.connection_close (b0 ∷ b1 ∷ reason)
            (set_close_status close_status s)).1
        else write_close_frame Status.invalid_data (set_close_status Status.invalid_data s)
      else write_close_frame Status.protocol_error (set_close_status Status.protocol_error s)

  -- Whether `on_loop_will_select` and `on_loop_can_write_fd` go round once more.
  abbrev pub has_read_work : State (World C U) → Bool
  has_read_work s = not (should_stop s) && ops.has_buffered_read_data s.env.client

  abbrev pub has_write_work : State (World C U) → Bool
  has_write_work s = not (should_stop s) && s.env.handler.sending_message

  -- The functions of `xsp_ws_client_event_handler_t`, of which some may be null.
  module _ (evt_handler : Event → Option (U → Program U)) where
    -- An event is sent, if its function is not null.
    unfoldable pub send_event : Event → State (World C U) → State (World C U)
    send_event e s = elim (evt_handler e) [
      | none ↦ add_entry s (event e)
      | some f ↦ run_program (f s.env.user) (add_entry s (event e))
    ]

    unfoldable pub maybe_send_close_event : State (World C U) → State (World C U)
    maybe_send_close_event s =
        if s.env.handler.close_event_sent
        then s
        else send_event (client_closed s.env.handler.close_status)
            (set_handler s (record s.env.handler { close_event_sent = true }))

    -- The `switch` of `do_read`.
    unfoldable pub on_frame : Received → State (World C U) → State (World C U)
    on_frame frame s =
        if is_data_opcode frame.opcode
        then send_event (data_frame_received frame.fin frame.opcode frame.payload) s
        else if frame.opcode == Opcode.connection_close
        then (if s.env.handler.close_sent then s else set_close_sent (answer_close frame.payload s))
        else if frame.opcode == Opcode.ping
        then send_event (ping_received frame.payload)
            (write_frame true Opcode.pong frame.payload s).1
        else if frame.opcode == Opcode.pong
        then send_event (pong_received frame.payload) s
        else s

    unfoldable pub if_stopped : State (World C U) → State (World C U)
    if_stopped s = if should_stop s then maybe_send_close_event s else s

    unfoldable pub do_read : State (World C U) → State (World C U)
    do_read s =
        let (err, frame, client) =
          ops.read_frame s.env.client s.env.handler.config.max_frame_read_size in
        if is_ok err
        then if_stopped (on_frame frame (set_client s client))
        else maybe_send_close_event (set_client s client)

    -- The `while` of `on_loop_will_select`; `none` for want of fuel.
    unfoldable pub read_buffered : ℕ → State (World C U) → Option (State (World C U))
    read_buffered zero s = if has_read_work s then none else some s
    read_buffered (suc fuel) s =
        let rest = read_buffered fuel (do_read s) in if has_read_work s then rest else some s

    -- `on_loop_will_select` behind it.
    unfoldable pub watch_for : State (World C U) → WatchFor × State (World C U)
    watch_for s =
        if should_stop s
        then (record { write = false; read = false }, maybe_send_close_event s)
        else (record { write = s.env.handler.sending_message; read = true }, s)

    unfoldable pub on_loop_will_select :
        ℕ → State (World C U) → Option (WatchFor × State (World C U))
    on_loop_will_select fuel s = elim (read_buffered fuel s) [
      | none ↦ none
      | some s' ↦ some (watch_for s')
    ]

    unfoldable pub send_message_completed : Bool → State (World C U) → State (World C U)
    send_message_completed success s =
        send_event (message_sent success)
          (set_handler s (record s.env.handler { sending_message = false }))

    -- `do_write` behind the write of the frame.
    unfoldable pub after_write : Bool → EspErr × State (World C U) → State (World C U)
    after_write fin (err, s) =
        if is_ok err
        then if fin then send_message_completed true s else s
        else send_message_completed false s

    unfoldable pub do_write : State (World C U) → State (World C U)
    do_write s =
        let h = s.env.handler in
        if_stopped (
          after_write (write_fin h) (
            write_frame (write_fin h) (write_opcode h) (write_chunk h)
              (set_handler s (record h { send_written = h.send_written + write_size h }))))

    -- The `while` of `on_loop_can_write_fd`; `none` for want of fuel.
    unfoldable pub on_loop_can_write_fd : ℕ → State (World C U) → Option (State (World C U))
    on_loop_can_write_fd zero s = if has_write_work s then none else some s
    on_loop_can_write_fd (suc fuel) s =
        let s' = do_write s in
        let (err, client) = ops.poll_write s'.env.client in
        let rest = on_loop_can_write_fd fuel (set_client s' client) in
        if has_write_work s then if is_ok err then rest else some (set_client s' client) else some s

    abbrev pub on_loop_can_read_fd : State (World C U) → State (World C U)
    on_loop_can_read_fd s = do_read s
