-- ===== src/Handler/ClientTests.antt =====
-- The handler over the client of xsp_ws_client.c, over a transport that takes all and delivers nothing.
use xsp.Prelude.{
  ℕ, ◌<◌, ◌≡◌, refl, true, false, List, [], ◌∷◌, ◌++◌, Option, none, some, arith, length, inl,
}
use xsp.Prelude.Int.{pos}
use xsp.Client.{Transport, Client, state_ok}
use xsp.Loop.{State, WatchFor}
use xsp.Handler.Interface.{Fails, Event, Program}
use xsp.Handler.{World, on_loop_will_select}
use xsp.Handler.OverClient.{Connection, ws_client, ws_client-Fails, on_loop_will_select_returns}

abbrev silent : Transport (List ℕ)
silent = record {
  write = λ t bytes. (t ++ bytes, pos (length bytes));
  read = λ t size. (t, pos 0, []);
  poll_write = λ t. (t, pos 1);
  poll_read = λ t. (t, pos 0);
}

abbrev no_key : Client (List ℕ) → List ℕ
no_key client = 0 ∷ 0 ∷ 0 ∷ 0 ∷ []

-- A text frame that came with the response of the handshake.
abbrev connection : Connection (List ℕ)
connection = (
  record {
    state = state_ok;
    transport = some [];
    overread_data = some (0x81 ∷ 1 ∷ 65 ∷ []);
    overread_size = 3;
    overread_consumed = 0;
    overread_frees = 0;
  },
  record { connected = refl; kept = inl refl; bounded = omega arith },
)

abbrev running : State (World (Connection (List ℕ)) ℕ)
running = record {
  is_running = true;
  should_stop = false;
  env = record {
    client = connection;
    handler = record {
      config = record { max_frame_read_size = 125; max_data_frame_write_size = 2 };
      close_sent = false;
      close_event_sent = false;
      close_status = 0;
      sending_message = false;
      send_is_binary = false;
      send_message = [];
      send_size = 0;
      send_written = 0;
    };
    user = 0;
    log = [];
  };
}

some_room : 0 < 4
some_room = omega arith

ws_client-Fails_here : Fails (ws_client silent 4 some_room no_key)
ws_client-Fails_here = ws_client-Fails silent 4 some_room no_key

abbrev no_events : Event → Option (ℕ → Program ℕ)
no_events e = none

on_loop_will_select_returns_example :
    (r : WatchFor × State (World (Connection (List ℕ)) ℕ)) × (on_loop_will_select
        (ws_client silent 4 some_room no_key)
        no_events
        3
        running
      ≡ some r)
on_loop_will_select_returns_example =
    on_loop_will_select_returns silent 4 some_room no_key no_events connection.0 connection.1
      running refl
