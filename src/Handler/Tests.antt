-- ===== src/Handler/Tests.antt =====
-- Runs of a handler over a client that delivers a list of frames and fails behind the last.
use xsp.Prelude.{
  ◌⊎◌, ℕ, suc, ◌+◌, ◌-◌, ◌<◌, ◌≡◌, refl, ap, true, false, List, [], ◌∷◌, Option, none, some, arith,
  ltb, if◌then◌else◌,
}
use mathlib.Core.Path.{subst}
use xsp.Prelude.Int.{pos}
use xsp.Esp.{EspErr, esp_ok, esp_fail, is_ok}
use xsp.WsTypes.Opcode
use xsp.WsTypes.Status
use xsp.WsTypes.{is_valid_close_frame_status}
use xsp.Utf8.{validate, validate_state}
use xsp.Client.{ClientState, state_ok, failed_no_close}
use xsp.Client.Read.{is_state_ok}
use xsp.Loop.{State, WatchFor}
use xsp.Loop
use xsp.Handler.Interface.{
  WsClient, Fails, Buffers, Received, at, Event, client_closed, ping_received, message_sent,
  call_send_message, call_close, Program, done, then_call,
}
use xsp.Handler.{
  Handler, World, Entry, event, wrote, wrote_close, accepted, init, validate_config, should_stop,
  write_frame, write_close_frame, send_message, close, run_program, send_event,
  maybe_send_close_event, answer_close, on_frame, if_stopped, do_read, on_loop_will_select,
  send_message_completed, after_write, do_write, on_loop_can_write_fd,
}
use xsp.Handler.Log.{
  count, is_close_event, is_close_frame, is_accept, is_sent_event, IsOrdered, received, confirmed,
}
use xsp.Handler.Invariant.{sent_so_far}
use xsp.Handler.Runs.{
  Step, step, can_write, called, Reaches, start, IsFresh, closes_once, delivers, delivers_in_part,
  answers_each,
}
use xsp.Handler.Buffered.{on_loop_will_select-ends}

record Script : Type 0 where
  state : ClientState
  frames : List Received
  buffered : ℕ

-- Behind the last frame a read fails.
abbrev next_frame : ClientState → ℕ → List Received → EspErr × Received × Script
next_frame st n [] = (
  esp_fail,
  record { fin = false; opcode = 0; payload = [] },
  record { state = failed_no_close; frames = []; buffered = 0 },
)
next_frame st n (f ∷ fs) = (esp_ok, f, record { state = st; frames = fs; buffered = n - 1 })

abbrev read_script : Script → EspErr × Received × Script
read_script c = next_frame c.state c.buffered c.frames

abbrev write_script : Script → EspErr × Script
write_script c = (if is_state_ok c.state then esp_ok else esp_fail, c)

abbrev script : WsClient Script
script = record {
  get_state = λ c. c.state;
  has_buffered_read_data = λ c. ltb 0 c.buffered;
  read_frame = λ c n. read_script c;
  write_frame = λ c fin opcode payload. write_script c;
  write_close_frame = λ c status. write_script c;
  poll_write = λ c. (esp_ok, c);
}

next_frame_ok :
    (st : ClientState) (n : ℕ) (fs : List Received)
    → is_state_ok (next_frame st n fs).2.state ≡ true
    → is_state_ok st ≡ true
next_frame_ok st n [] h = absurd (ground (arith, h))
next_frame_ok st n (f ∷ fs) h = h

next_frame_less :
    (st : ClientState) (n : ℕ) (fs : List Received)
    → ltb 0 n ≡ true
    → (next_frame st n fs).2.buffered < n
next_frame_less st n [] h = ground (arith, h)
next_frame_less st n (f ∷ fs) h = ground (arith, h)

script-Fails : Fails script
script-Fails = record {
  read_fails = λ c n. next_frame_ok c.state c.buffered c.frames;
  write_fails = λ c fin opcode payload h. (h, ap (λ b. is_ok (if b then esp_ok else esp_fail)) h);
  close_fails = λ c status h. h;
  poll_fails = λ c h. h;
}

script-Buffers : Buffers script (λ c. c.buffered)
script-Buffers = record {
  read_buffered = λ c n. next_frame_less c.state c.buffered c.frames;
  write_buffered = λ c fin opcode payload. refl;
  close_buffered = λ c status. refl;
}

-- A user that closes when a message has been sent, and otherwise counts the events.
abbrev closing : Event → Option (ℕ → Program ℕ)
closing (message_sent success) =
    some (λ n. then_call (call_close Status.normal_closure) (λ e. done (suc n)))
closing (client_closed status) = some (λ n. done (suc n))
closing (ping_received payload) = none
closing _ = some (λ n. done (suc n))

abbrev handler_of : Handler
handler_of = record {
  config = record { max_frame_read_size = 125; max_data_frame_write_size = 2 };
  close_sent = false;
  close_event_sent = false;
  close_status = Status.no_status;
  sending_message = false;
  send_is_binary = false;
  send_message = [];
  send_size = 0;
  send_written = 0;
}

abbrev world : List Received → ℕ → State (World Script ℕ)
world frames n = record {
  is_running = true;
  should_stop = false;
  env = record {
    client = record { state = state_ok; frames = frames; buffered = n };
    handler = handler_of;
    user = 0;
    log = [];
  };
}

world-IsFresh : (frames : List Received) (n : ℕ) → IsFresh (world frames n)
unfolding init
world-IsFresh frames n = (refl, omega arith, refl)

-- Three bytes in frames of two, then the close frame of the callback.
abbrev hey : List ℕ
hey = 104 ∷ 101 ∷ 121 ∷ []

abbrev sent_hey : List Entry
sent_hey =
    event (client_closed Status.no_status)
    ∷ wrote_close Status.normal_closure esp_ok
    ∷ event (message_sent true)
    ∷ wrote true Opcode.continuation (121 ∷ []) esp_ok
    ∷ wrote false Opcode.text (104 ∷ 101 ∷ []) esp_ok
    ∷ accepted false hey
    ∷ []

abbrev accepting : State (World Script ℕ)
accepting = record (world [] 0) {
  env = record (world [] 0).env {
    handler = record handler_of { sending_message = true; send_message = hey; send_size = 3 };
    log = accepted false hey ∷ [];
  };
}

abbrev closed_hey : State (World Script ℕ)
closed_hey = record (world [] 0) {
  env = record (world [] 0).env {
    handler = record handler_of {
      close_sent = true;
      close_event_sent = true;
      send_message = hey;
      send_size = 3;
      send_written = 3;
    };
    user = 2;
    log = sent_hey;
  };
}

accept_hey : send_message script false (at hey) (world [] 0) ≡ (esp_ok, accepting)
unfolding send_message
accept_hey = refl

write_hey : on_loop_can_write_fd script closing 2 accepting ≡ some closed_hey
unfolding on_loop_can_write_fd do_write after_write if_stopped maybe_send_close_event
    send_message_completed send_event run_program close write_frame write_close_frame should_stop
    Loop.should_stop is_valid_close_frame_status
write_hey = refl

hey_runs : Reaches script closing (world [] 0) closed_hey
hey_runs =
    step
      (step start (
        subst (λ r. Step script closing (world [] 0) r.1) accept_hey
          (called (call_send_message false (at hey)))))
      (can_write 2 write_hey)

closes_once_example :
    (count is_close_event sent_hey ≡ 1) × (count is_close_frame sent_hey ≡ 1) × IsOrdered sent_hey
closes_once_example =
    closes_once script script-Fails closing (world [] 0) closed_hey (world-IsFresh [] 0) hey_runs

delivers_example : (received sent_hey).1 ≡ (confirmed sent_hey).1
delivers_example =
    delivers script script-Fails closing (world [] 0) closed_hey (world-IsFresh [] 0) hey_runs

delivers_in_part_here :
    ((received (accepted false hey ∷ [])).0 ≡ sent_so_far accepting.env.handler)
    × ((accepting.env.handler.sending_message ≡ false)
        ⊎ (accepting.env.handler.send_written ≡ 0)
        ⊎ (0 < 3))
delivers_in_part_here =
    delivers_in_part script script-Fails closing (world [] 0) accepting (world-IsFresh [] 0)
      (step start (
        subst (λ r. Step script closing (world [] 0) r.1) accept_hey
          (called (call_send_message false (at hey)))))
      refl

hey_arrives : (received sent_hey).1 ≡ (Opcode.text, hey) ∷ []
hey_arrives = refl

answers_each_example : count is_accept sent_hey ≡ count is_sent_event sent_hey + 0
answers_each_example =
    answers_each script script-Fails closing (world [] 0) closed_hey (world-IsFresh [] 0) hey_runs

abbrev text_frame : Received
text_frame = record { fin = true; opcode = Opcode.text; payload = hey }

buffered_run :
    (r : WatchFor × State (World Script ℕ)) × (on_loop_will_select script closing 2
        (world (text_frame ∷ []) 2)
      ≡ some r)
buffered_run =
    on_loop_will_select-ends script (λ c. c.buffered) script-Buffers closing 2
      (world (text_frame ∷ []) 2) (omega arith)

-- A ping that is read behind the close frame, in the same round of the loop, is still answered.
abbrev ping_frame : Received
ping_frame = record { fin = true; opcode = Opcode.ping; payload = [] }

abbrev log_of : State (World Script ℕ) → List Entry
log_of s = s.env.log

pong_behind_close :
    log_of
      (do_read script closing (close script Status.normal_closure (world (ping_frame ∷ []) 0)).1)
    ≡ event (client_closed Status.no_status)
      ∷ event (ping_received [])
      ∷ wrote true Opcode.pong [] esp_ok
      ∷ wrote_close Status.normal_closure esp_ok
      ∷ []
unfolding close do_read on_frame if_stopped maybe_send_close_event send_event run_program
    write_frame write_close_frame should_stop Loop.should_stop is_valid_close_frame_status
pong_behind_close = refl

-- A client that has failed is sent no close frame.
abbrev failing : State (World Script ℕ)
failing = world [] 0

no_close_frame :
    log_of (close script Status.normal_closure (do_read script closing failing)).1
    ≡ event (client_closed Status.no_status) ∷ []
unfolding close do_read maybe_send_close_event send_event run_program is_valid_close_frame_status
no_close_frame = refl

-- The close frames of the peer: with a status and a reason, with half a status, and with none.
abbrev close_frame : List ℕ → Received
close_frame payload = record { fin = true; opcode = Opcode.connection_close; payload = payload }

abbrev read_close : List ℕ → State (World Script ℕ)
read_close payload = do_read script closing (world (close_frame payload ∷ []) 0)

echoes :
    log_of (read_close (3 ∷ 233 ∷ 104 ∷ []))
    ≡ event (client_closed Status.going_away)
      ∷ wrote true Opcode.connection_close (3 ∷ 233 ∷ 104 ∷ []) esp_ok
      ∷ []
unfolding do_read on_frame answer_close if_stopped maybe_send_close_event send_event run_program
    write_frame write_close_frame should_stop Loop.should_stop is_valid_close_frame_status validate
    validate_state xsp.Utf8.step xsp.Utf8.utf8d
echoes = refl

protocol_error :
    log_of (read_close (3 ∷ []))
    ≡ event (client_closed Status.protocol_error) ∷ wrote_close Status.protocol_error esp_ok ∷ []
unfolding do_read on_frame answer_close if_stopped maybe_send_close_event send_event run_program
    write_close_frame should_stop Loop.should_stop
protocol_error = refl

config_checked : validate_config (pos 125) (pos 1) (pos 0) (pos 0) ≡ true
unfolding validate_config
config_checked = refl

config_refused : validate_config (pos 124) (pos 1) (pos 0) (pos 0) ≡ false
unfolding validate_config
config_refused = refl

-- A message is accepted behind the close frame, and nothing sends it: the loop has no work left.
abbrev behind_close : State (World Script ℕ)
behind_close =
    (send_message script false (at hey) (close script Status.normal_closure (world [] 0)).1).1

accepted_behind_close :
    (log_of behind_close ≡ accepted false hey ∷ wrote_close Status.normal_closure esp_ok ∷ [])
    × (on_loop_can_write_fd script closing 0 behind_close ≡ some behind_close)
unfolding send_message close write_close_frame is_valid_close_frame_status on_loop_can_write_fd
    should_stop Loop.should_stop
accepted_behind_close = (refl, refl)
