-- ===== src/Handler/Buffered.antt =====
-- The loop of on_loop_will_select and what the client has buffered.
use xsp.Prelude.{
  if_both, option_both, ℕ, zero, suc, ◌+◌, ◌*◌, ◌^◌, ◌≤◌, ◌<◌, ◌≡◌, refl, sym, ap, ◌∙◌, Bool, true,
  not, ◌&&◌, ◌||◌, List, [], ◌∷◌, Option, none, some, arith, ltb, ◌==◌, length,
}
use mathlib.Core.Path.{subst}
use xsp.Esp.{EspErr, is_ok}
use xsp.WsTypes.{is_valid_close_frame_status}
use xsp.WsTypes.Opcode
use xsp.WsTypes.Status
use xsp.Utf8.{validate}
use xsp.Loop.{State, WatchFor}
use xsp.Loop
use xsp.Handler.Interface.{
  WsClient, Buffers, Received, Sized, Event, Call, call_send_message, call_close, call_ping,
  call_stop, Program, done, then_call,
}
use xsp.Handler.{
  World, event, content, set_client, set_handler, add_entry, is_client_ok, should_stop, write_frame,
  write_close_frame, send_message, close, ping, perform, run_program, send_event,
  maybe_send_close_event, set_close_status, answer_close, on_frame, if_stopped, do_read,
  is_data_opcode, has_read_work, read_buffered, watch_for, on_loop_will_select,
}

has_read_work_lem : (b c : Bool) → (not b && c) ≡ true → c ≡ true
has_read_work_lem b c h = ground (arith, h)

module _ {C U : Type 0} (ops : WsClient C) (buffered : C → ℕ) (law : Buffers ops buffered) where
  abbrev left : State (World C U) → ℕ
  left s = buffered s.env.client

  -- A result behind which as much is buffered as before.
  abbrev Same : State (World C U) → EspErr × State (World C U) → Type 0
  Same s r = left r.1 ≡ left s

  abbrev SameState : State (World C U) → State (World C U) → Type 0
  SameState s t = left t ≡ left s

  write_frame-Same :
      (fin : Bool) (opcode : ℕ) (payload : List ℕ) (s : State (World C U))
      → left (write_frame ops fin opcode payload s).1 ≡ left s
  unfolding write_frame
  write_frame-Same fin opcode payload s = law.write_buffered s.env.client fin opcode payload

  write_close_frame-Same :
      (status : ℕ) (s : State (World C U)) → left (write_close_frame ops status s) ≡ left s
  unfolding write_close_frame
  write_close_frame-Same status s = law.close_buffered s.env.client status

  send_message-Same :
      (binary : Bool) (message : Sized) (s : State (World C U))
      → Same s (send_message ops binary message s)
  unfolding send_message
  send_message-Same binary message s =
      option_both (Same s) (content message) _ _ (λ e. refl)
        (λ bytes i.
          if_both (Same s) (not s.is_running || s.env.handler.sending_message) _ _ (λ e. refl)
            (λ e. if_both (Same s) (is_client_ok ops s) _ _ (λ e'. refl) (λ e'. refl)))

  close-Same : (status : ℕ) (s : State (World C U)) → Same s (close ops status s)
  unfolding close
  close-Same status s =
      if_both (Same s) (not (is_valid_close_frame_status status)) _ _ (λ e. refl)
        (λ e.
          if_both (Same s) (not s.is_running) _ _ (λ e'. refl)
            (λ e'.
              if_both (Same s) (not (is_client_ok ops s) || s.env.handler.close_sent) _ _
                (λ e''. refl) (λ e''. write_close_frame-Same status s)))

  ping-Same : (payload : Sized) (s : State (World C U)) → Same s (ping ops payload s)
  unfolding ping
  ping-Same payload s =
      option_both (Same s) (content payload) _ _ (λ e. refl)
        (λ bytes i.
          if_both (Same s) (ltb 125 (length bytes)) _ _ (λ e. refl)
            (λ e.
              if_both (Same s) (not s.is_running) _ _ (λ e'. refl)
                (λ e'. write_frame-Same true Opcode.ping bytes s)))

  stop-Same : (s : State (World C U)) → Same s (Loop.stop s)
  unfolding Loop.stop
  stop-Same s = if_both (Same s) s.is_running _ _ (λ e. refl) (λ e. refl)

  perform-Same : (call : Call) (s : State (World C U)) → Same s (perform ops call s)
  perform-Same (call_send_message binary message) s = send_message-Same binary message s
  perform-Same (call_close status) s = close-Same status s
  perform-Same (call_ping payload) s = ping-Same payload s
  perform-Same call_stop s = stop-Same s

  run_program-Same :
      (program : Program U) (s : State (World C U)) → left (run_program ops program s) ≡ left s
  unfolding run_program
  run_program-Same (done user) s = refl
  run_program-Same (then_call call k) s =
      run_program-Same (k (perform ops call s).0) (perform ops call s).1 ∙ perform-Same call s

  answer_close-Same :
      (payload : List ℕ) (s : State (World C U)) → left (answer_close ops payload s) ≡ left s
  unfolding answer_close
  answer_close-Same [] s =
      write_close_frame-Same Status.no_status (set_close_status Status.no_status_received s)
  answer_close-Same (b ∷ []) s =
      write_close_frame-Same Status.protocol_error (set_close_status Status.protocol_error s)
  answer_close-Same (b0 ∷ b1 ∷ reason) s =
      if_both (SameState s) (is_valid_close_frame_status (b0 * 2 ^ 8 + b1)) _ _
        (λ e.
          if_both (SameState s) (validate reason) _ _
            (λ e'.
              write_frame-Same true Opcode.connection_close (b0 ∷ b1 ∷ reason)
                (set_close_status (b0 * 2 ^ 8 + b1) s))
            (λ e'.
              write_close_frame-Same Status.invalid_data (set_close_status Status.invalid_data s)))
        (λ e.
          write_close_frame-Same Status.protocol_error (set_close_status Status.protocol_error s))

  module _ (evt_handler : Event → Option (U → Program U)) where
    send_event-Same :
        (e : Event) (s : State (World C U)) → left (send_event ops evt_handler e s) ≡ left s
    unfolding send_event
    send_event-Same e s =
        option_both (SameState s) (evt_handler e) _ _ (λ i. refl)
          (λ f i. run_program-Same (f s.env.user) (add_entry s (event e)))

    maybe_send_close_event-Same :
        (s : State (World C U)) → left (maybe_send_close_event ops evt_handler s) ≡ left s
    unfolding maybe_send_close_event
    maybe_send_close_event-Same s =
        if_both (SameState s) s.env.handler.close_event_sent _ _ (λ e. refl)
          (λ e.
            send_event-Same _ (set_handler s (record s.env.handler { close_event_sent = true })))

    if_stopped-Same : (s : State (World C U)) → left (if_stopped ops evt_handler s) ≡ left s
    unfolding if_stopped
    if_stopped-Same s =
        if_both (SameState s) (should_stop ops s) _ _ (λ e. maybe_send_close_event-Same s)
          (λ e. refl)

    on_frame-Same :
        (frame : Received) (s : State (World C U))
        → left (on_frame ops evt_handler frame s) ≡ left s
    unfolding on_frame
    on_frame-Same frame s =
        if_both (SameState s) (is_data_opcode frame.opcode) _ _ (λ e. send_event-Same _ s)
          (λ e.
            if_both (SameState s) (frame.opcode == Opcode.connection_close) _ _
              (λ e.
                if_both (SameState s) s.env.handler.close_sent _ _ (λ e. refl)
                  (λ e. answer_close-Same frame.payload s))
              (λ e.
                if_both (SameState s) (frame.opcode == Opcode.ping) _ _
                  (λ e. send_event-Same _ _ ∙ write_frame-Same true Opcode.pong frame.payload s)
                  (λ e.
                    if_both (SameState s) (frame.opcode == Opcode.pong) _ _
                      (λ e. send_event-Same _ s) (λ e. refl))))

    do_read_lem :
        (s : State (World C U))
        → ops.has_buffered_read_data s.env.client ≡ true
        → left (do_read ops evt_handler s) < left s
    unfolding do_read
    do_read_lem s some_left =
        subst (λ k. k < left s)
          (sym (
            if_both
              (λ (t : State (World C U)).
                left t
                ≡ buffered (ops.read_frame s.env.client s.env.handler.config.max_frame_read_size).2)
              (is_ok (ops.read_frame s.env.client s.env.handler.config.max_frame_read_size).0) _ _
              (λ e.
                if_stopped-Same _
                ∙ on_frame-Same _ (
                    set_client s
                      (ops.read_frame s.env.client s.env.handler.config.max_frame_read_size).2))
              (λ e. maybe_send_close_event-Same (
                set_client s
                  (ops.read_frame s.env.client s.env.handler.config.max_frame_read_size).2))))
          (law.read_buffered s.env.client _ some_left)

    abbrev Ends {ℓ} : {A : Type ℓ} → Option A → Type ℓ
    Ends {A} o = (a : A) × (o ≡ some a)

    read_buffered-Ends :
        (fuel : ℕ) (s : State (World C U))
        → left s ≤ fuel
        → Ends (read_buffered ops evt_handler fuel s)
    unfolding read_buffered
    read_buffered-Ends zero s h =
        if_both Ends (has_read_work ops s) _ _
          (λ work.
            absurd (omega (arith, h, do_read_lem s (has_read_work_lem (should_stop ops s) _ work))))
          (λ e. (s, refl))
    read_buffered-Ends (suc fuel) s h =
        if_both Ends (has_read_work ops s) _ _
          (λ work.
            read_buffered-Ends fuel (do_read ops evt_handler s)
              (omega (arith, h, do_read_lem s (has_read_work_lem (should_stop ops s) _ work))))
          (λ e. (s, refl))

    -- As many rounds as bytes are buffered are enough for the loop that reads them.
    pub on_loop_will_select-ends :
        (fuel : ℕ) (s : State (World C U))
        → buffered s.env.client ≤ fuel
        → (r : WatchFor × State (World C U)) × (on_loop_will_select ops evt_handler fuel s ≡ some r)
    unfolding on_loop_will_select
    on_loop_will_select-ends fuel s h =
        let (t, e) = read_buffered-Ends fuel s h in
        (
          watch_for ops evt_handler t,
          ap (λ o. elim o [ none ↦ none | some s' ↦ some (watch_for ops evt_handler s') ]) e,
        )
