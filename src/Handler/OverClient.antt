-- ===== src/Handler/OverClient.antt =====
-- The client of xsp_ws_client.c behind the interface that xsp_ws_client_handler.c uses.
--
-- A state is a client with its transport that is ready to be read from; the masking key of a frame is a
-- function of it, for the random bytes.
use xsp.Prelude.{
  if_both, option_both, ℕ, ◌-◌, ◌≤◌, ◌<◌, ◌≡◌, refl, ap, Bool, true, false, List, [], Option, none,
  some, arith, Bool-cases, if◌then◌else◌, inl, inr,
}
use xsp.Esp.{EspErr, is_ok}
use xsp.Client.{
  Transport, Client, ClientState, can_read, can_write, poll_write, has_buffered_read_data,
  after_poll_write, failed_no_close, poll_result_to_esp_err, is_ok_or_timeout,
}
use xsp.Client.Read.{is_state_ok, Frame, Answer, read_frame}
use xsp.Client.Write.{write_frame, write_close_frame}
use xsp.Client.Total.{left, IsReady, Good, read_frame-Good}
use xsp.Client.TotalWrites.{
  Follows, Returns, Writes, Writes-Returns, Follows-refl, write_frame-Writes,
  write_close_frame-Returns,
}
use xsp.Loop.{State, WatchFor}
use xsp.Handler.Interface.{WsClient, Received, Fails, Buffers, Event, Program}
use xsp.Handler.{World, on_loop_will_select}
use xsp.Handler.Buffered.{on_loop_will_select-ends}

abbrev pub Connection : Type 0 → Type 0
Connection T = (client : Client T) × IsReady client

abbrev given_or {ℓ} : {A : Type ℓ} → A → Option A → A
given_or a none = a
given_or a (some b) = b

-- The out-pointers behind a call; where it did not write them, nothing is read.
abbrev received_of : Frame → Received
received_of frame = record {
  fin = given_or false frame.fin;
  opcode = given_or 0 frame.opcode;
  payload = frame.payload;
}

module _ {T : Type 0} where
  abbrev after_write :
      (before : Client T) (r : Option (EspErr × Client T))
      → Returns before r
      → EspErr × Connection T
  after_write before none h = absurd h
  after_write before (some (err, after)) h = (err, (after, h.ready))

module _ {T : Type 0} (ops : Transport T) where
  -- A read that returns.
  abbrev Reads : Client T → Answer ops → Type 0
  Reads before none = ⊥
  Reads before (some (err, frame, after)) =
      IsReady after
      × (is_state_ok after.state ≡ true → is_state_ok before.state ≡ true)
      × (can_read before.state ≡ true → left after ≤ left before - 1)

  Good-Reads :
      (before : Client T) (r : Answer ops)
      → is_state_ok before.state ≡ true
      → Good ops (left before - 1) r
      → Reads before r
  Good-Reads before none ok g = g
  Good-Reads before (some r) ok g = (g.0, λ e. ok, λ e. g.1)

  state_can_read : (s : ClientState) → can_read s ≡ true → is_state_ok s ≡ true
  state_can_read s h = ground (arith, h)

  read_frame-Reads :
      (client : Client T) (size : ℕ) → IsReady client → Reads client (read_frame ops client size)
  unfolding read_frame
  read_frame-Reads client size r = elim (Bool-cases (can_read client.state)) [
    | inl ok ↦
        Good-Reads client _ (state_can_read client.state ok) (read_frame-Good ops client size r ok)
    | inr bad ↦
        option_both (Reads client) client.transport _ _
          (λ e. (r, λ ok. ok, λ ok. absurd (ground (arith, bad, ok))))
          (λ t e.
            if_both (Reads client) (can_read client.state) _ _
              (λ ok. absurd (ground (arith, bad, ok)))
              (λ e'. (r, λ ok. ok, λ ok. absurd (ground (arith, bad, ok)))))
  ]

  abbrev after_read :
      (before : Client T) (r : Answer ops) → Reads before r → EspErr × Received × Connection T
  after_read before none h = absurd h
  after_read before (some (err, frame, after)) h = (err, received_of frame, (after, h.0))

  polled_ok :
      (b : Bool) (s : ClientState)
      → is_state_ok (if b then s else failed_no_close) ≡ true
      → is_state_ok s ≡ true
  polled_ok true s e = e
  polled_ok false s e = absurd (ground (arith, e))

  module _ (buffer_size : ℕ) (room : 0 < buffer_size) (key : Client T → List ℕ) where
    poll_write-Returns :
        (client : Client T) → IsReady client → Returns client (some (poll_write ops client))
    unfolding poll_write after_poll_write
    poll_write-Returns client r =
        option_both (λ (p : EspErr × Client T). Follows client p.1) client.transport _ _
          (λ e. Follows-refl client r)
          (λ t e.
            if_both (λ (p : EspErr × Client T). Follows client p.1) (can_write client.state) _ _
              (λ ok. record {
                ready = record { connected = refl; kept = r.kept; bounded = r.bounded };
                same = refl;
                was_ok =
                    polled_ok (is_ok_or_timeout (poll_result_to_esp_err (ops.poll_write t).1))
                      client.state;
              })
              (λ bad. Follows-refl client r))

    write_frame-Returns :
        (client : Client T) (fin : Bool) (opcode : ℕ) (payload : List ℕ)
        → IsReady client
        → Returns client (write_frame ops buffer_size client fin opcode payload (key client))
    write_frame-Returns client fin opcode payload r =
        Writes-Returns client _
          (write_frame-Writes ops buffer_size room client fin opcode payload (key client) r)

    -- The client's functions as the handler calls them.
    pub ws_client : WsClient (Connection T)
    ws_client = record {
      get_state = λ c. c.0.state;
      has_buffered_read_data = λ c. has_buffered_read_data c.0;
      read_frame =
          λ c size. after_read c.0 (read_frame ops c.0 size) (read_frame-Reads c.0 size c.1);
      write_frame = λ c fin opcode payload.
          after_write c.0 (write_frame ops buffer_size c.0 fin opcode payload (key c.0))
            (write_frame-Returns c.0 fin opcode payload c.1);
      write_close_frame = λ c status.
          after_write c.0 (write_close_frame ops buffer_size c.0 status [] (key c.0))
            (write_close_frame-Returns ops buffer_size room c.0 status [] (key c.0) c.1);
      poll_write = λ c. after_write c.0 (some (poll_write ops c.0)) (poll_write-Returns c.0 c.1);
    }

    after_read_ok :
        (before : Client T) (r : Answer ops) (h : Reads before r)
        → is_state_ok (after_read before r h).2.0.state ≡ true
        → is_state_ok before.state ≡ true
    after_read_ok before none h e = absurd h
    after_read_ok before (some r) h e = h.1 e

    after_write_ok :
        (before : Client T) (r : Option (EspErr × Client T)) (h : Returns before r)
        → is_state_ok (after_write before r h).1.0.state ≡ true
        → is_state_ok before.state ≡ true
    after_write_ok before none h e = absurd h
    after_write_ok before (some r) h e = h.was_ok e

    after_write_all :
        (before : Client T) (r : Option (EspErr × Client T)) (h : Returns before r)
        → Writes before r
        → is_state_ok (after_write before r h).1.0.state ≡ true
        → is_ok (after_write before r h).0 ≡ true
    after_write_all before none h w e = absurd h
    after_write_all before (some r) h w e = w.1 e

    left-after_read :
        (before : Client T) (r : Answer ops) (h : Reads before r)
        → can_read before.state ≡ true
        → left (after_read before r h).2.0 ≤ left before - 1
    left-after_read before none h e = absurd h
    left-after_read before (some r) h e = h.2 e

    left-after_write :
        (before : Client T) (r : Option (EspErr × Client T)) (h : Returns before r)
        → left (after_write before r h).1.0 ≡ left before
    left-after_write before none h = absurd h
    left-after_write before (some r) h = h.same

    -- The client with its transport, whatever that does, fails for good, and does so when a call that
    -- writes a frame does not return ESP_OK, if the buffer for writing is not empty.
    pub ws_client-Fails : Fails ws_client
    unfolding ws_client
    ws_client-Fails = record {
      read_fails = λ c size e. after_read_ok c.0 _ (read_frame-Reads c.0 size c.1) e;
      write_fails = λ c fin opcode payload e. (
        after_write_ok c.0 _ (write_frame-Returns c.0 fin opcode payload c.1) e,
        after_write_all c.0 _ (write_frame-Returns c.0 fin opcode payload c.1)
            (write_frame-Writes ops buffer_size room c.0 fin opcode payload (key c.0) c.1) e,
      );
      close_fails = λ c status e.
          after_write_ok c.0 _
            (write_close_frame-Returns ops buffer_size room c.0 status [] (key c.0) c.1) e;
      poll_fails = λ c e. (poll_write-Returns c.0 c.1).was_ok e;
    }

    buffered_left :
        (client : Client T)
        → has_buffered_read_data client ≡ true
        → (can_read client.state ≡ true) × (0 < left client)
    unfolding has_buffered_read_data
    buffered_left client h = ground (arith, h)

    -- Each frame that is read while something is left of what the handshake read too much takes some of
    -- it, and nothing adds to it.
    pub ws_client-Buffers : Buffers ws_client (λ c. left c.0)
    unfolding ws_client
    ws_client-Buffers = record {
      read_buffered = λ c size h.
          let (ok, some_left) = buffered_left c.0 h in
          omega (arith, some_left, left-after_read c.0 _ (read_frame-Reads c.0 size c.1) ok);
      write_buffered = λ c fin opcode payload.
          left-after_write c.0 _ (write_frame-Returns c.0 fin opcode payload c.1);
      close_buffered = λ c status.
          left-after_write c.0 _
            (write_close_frame-Returns ops buffer_size room c.0 status [] (key c.0) c.1);
    }

    -- Over a client that is ready (it has a transport, it still has the data that was read too much if
    -- some of it is left, and it has not consumed more than there is), `on_loop_will_select` returns,
    -- whatever the transport and the user's event handlers do, within as many rounds as bytes are left of
    -- what the handshake read too much.
    pub on_loop_will_select_returns :
        {U : Type 0} (evt_handler : Event → Option (U → Program U)) (client : Client T)
        (ready : IsReady client) (s : State (World (Connection T) U))
        → s.env.client ≡ (client, ready)
        → (r : WatchFor × State (World (Connection T) U)) × (on_loop_will_select ws_client
              evt_handler
              (left client)
              s
            ≡ some r)
    on_loop_will_select_returns evt_handler client ready s given =
        on_loop_will_select-ends ws_client (λ c. left c.0) ws_client-Buffers evt_handler
          (left client) s (omega (arith, ap (λ (c : Connection T). left c.0) given))
