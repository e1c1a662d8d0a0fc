-- ===== src/Handler/Keeps.antt =====
-- The invariant of a handler across the calls of its user.
use xsp.Prelude.{
  if_both, option_both, ℕ, ◌≡◌, refl, Bool, true, false, not, ◌||◌, List, Option, arith, ltb, ◌==◌,
  length,
}
use xsp.Esp.{EspErr}
use xsp.WsTypes.{is_valid_close_frame_status}
use xsp.WsTypes.Opcode
use xsp.Loop.{State, WatchFor}
use xsp.Loop
use xsp.Handler.Interface.{
  WsClient, Fails, Sized, Event, client_closed, Call, call_send_message, call_close, call_ping,
  call_stop, Program, done, then_call,
}
use xsp.Handler.{
  World, event, wrote, content, add_entry, is_client_ok, should_stop, write_frame,
  write_close_frame, send_message, set_close_sent, close, ping, perform, run_program, send_event,
  maybe_send_close_event, if_stopped,
}
use xsp.Handler.Invariant.{
  IsValid, IsNeutral, IsValid-weaken, IsValid-neutral, IsValid-close, IsValid-closed,
  IsValid-accept, wrote_ping-IsNeutral, wrote_close-IsNeutral,
}

module _ {C U : Type 0} (ops : WsClient C) (law : Fails ops) where
  -- The invariant of all that a handler works on.
  abbrev pub Keeps : State (World C U) → Type 0
  Keeps s = IsValid s.env.handler s.env.log (is_client_ok ops s)

  abbrev KeepsPair : EspErr × State (World C U) → Type 0
  KeepsPair r = Keeps r.1

  send_message-Keeps :
      (binary : Bool) (message : Sized) (s : State (World C U))
      → Keeps s
      → KeepsPair (send_message ops binary message s)
  unfolding send_message
  send_message-Keeps binary message s v =
      option_both KeepsPair (content message) _ _ (λ e. v)
        (λ bytes e.
          if_both KeepsPair (not s.is_running || s.env.handler.sending_message) _ _ (λ e. v)
            (λ free.
              if_both KeepsPair (is_client_ok ops s) _ _
                (λ e. IsValid-accept _ _ _ binary bytes (ground (arith, free)) v) (λ e. v)))

  -- A frame that is written and counts for nothing.
  pub write_frame-Keeps :
      (fin : Bool) (opcode : ℕ) (payload : List ℕ) (s : State (World C U))
      → ((err : EspErr) → IsNeutral (wrote fin opcode payload err))
      → (opcode == Opcode.connection_close) ≡ false
      → Keeps s
      → KeepsPair (write_frame ops fin opcode payload s)
  unfolding write_frame
  write_frame-Keeps fin opcode payload s n o v =
      IsValid-neutral _ _ _ _ (n _) o
        (IsValid-weaken _ _ _ _ (λ e. (law.write_fails s.env.client fin opcode payload e).0) v)

  write_close_frame-Keeps :
      (status : ℕ) (s : State (World C U))
      → s.env.handler.close_sent ≡ false
      → Keeps s
      → Keeps (set_close_sent (write_close_frame ops status s))
  unfolding write_close_frame
  write_close_frame-Keeps status s unsent v =
      IsValid-close s.env.handler s.env.log _ _ s.env.handler.close_status unsent
        (wrote_close-IsNeutral status _) refl
        (IsValid-weaken _ _ _ _ (λ e. law.close_fails s.env.client status e) v)

  close-Keeps : (status : ℕ) (s : State (World C U)) → Keeps s → KeepsPair (close ops status s)
  unfolding close
  close-Keeps status s v =
      if_both KeepsPair (not (is_valid_close_frame_status status)) _ _ (λ e. v)
        (λ e.
          if_both KeepsPair (not s.is_running) _ _ (λ e'. v)
            (λ e'.
              if_both KeepsPair (not (is_client_ok ops s) || s.env.handler.close_sent) _ _
                (λ e''. v) (λ unsent. write_close_frame-Keeps status s (ground (arith, unsent)) v)))

  ping-Keeps : (payload : Sized) (s : State (World C U)) → Keeps s → KeepsPair (ping ops payload s)
  unfolding ping
  ping-Keeps payload s v =
      option_both KeepsPair (content payload) _ _ (λ e. v)
        (λ bytes e.
          if_both KeepsPair (ltb 125 (length bytes)) _ _ (λ e. v)
            (λ e.
              if_both KeepsPair (not s.is_running) _ _ (λ e'. v)
                (λ e'.
                  write_frame-Keeps true Opcode.ping bytes s (wrote_ping-IsNeutral bytes) refl v)))

  stop-Keeps : (s : State (World C U)) → Keeps s → KeepsPair (Loop.stop s)
  unfolding Loop.stop
  stop-Keeps s v = if_both KeepsPair s.is_running _ _ (λ e. v) (λ e. v)

  pub perform-Keeps :
      (call : Call) (s : State (World C U)) → Keeps s → KeepsPair (perform ops call s)
  perform-Keeps (call_send_message binary message) s v = send_message-Keeps binary message s v
  perform-Keeps (call_close status) s v = close-Keeps status s v
  perform-Keeps (call_ping payload) s v = ping-Keeps payload s v
  perform-Keeps call_stop s v = stop-Keeps s v

  run_program-Keeps :
      (program : Program U) (s : State (World C U)) → Keeps s → Keeps (run_program ops program s)
  unfolding run_program
  run_program-Keeps (done user) s v = v
  run_program-Keeps (then_call call k) s v =
      run_program-Keeps (k (perform ops call s).0) (perform ops call s).1 (perform-Keeps call s v)

  module _ (evt_handler : Event → Option (U → Program U)) where
    -- Once the event is in the log.
    pub send_event-Keeps :
        (e : Event) (s : State (World C U))
        → Keeps (add_entry s (event e))
        → Keeps (send_event ops evt_handler e s)
    unfolding send_event
    send_event-Keeps e s v =
        option_both Keeps (evt_handler e) _ _ (λ i. v)
          (λ f i. run_program-Keeps (f s.env.user) (add_entry s (event e)) v)

    pub maybe_send_close_event-Keeps :
        (s : State (World C U)) → Keeps s → Keeps (maybe_send_close_event ops evt_handler s)
    unfolding maybe_send_close_event
    maybe_send_close_event-Keeps s v =
        if_both Keeps s.env.handler.close_event_sent _ _ (λ e. v)
          (λ unsent.
            send_event-Keeps (client_closed s.env.handler.close_status) _
              (IsValid-closed s.env.handler s.env.log _ s.env.handler.close_status unsent v))

    pub if_stopped-Keeps : (s : State (World C U)) → Keeps s → Keeps (if_stopped ops evt_handler s)
    unfolding if_stopped
    if_stopped-Keeps s v =
        if_both Keeps (should_stop ops s) _ _ (λ e. maybe_send_close_event-Keeps s v) (λ e. v)
