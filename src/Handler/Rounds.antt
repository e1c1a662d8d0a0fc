-- ===== src/Handler/Rounds.antt =====
-- The invariant of a handler across a read and a write.
use xsp.Prelude.{
  if_both, ℕ, ◌+◌, ◌*◌, ◌^◌, ◌≡◌, refl, Bool, true, false, List, [], ◌∷◌, Option, arith, ◌==◌,
}
use xsp.Esp.{EspErr, is_ok}
use xsp.WsTypes.{is_valid_close_frame_status}
use xsp.WsTypes.Opcode
use xsp.WsTypes.Status
use xsp.Utf8.{validate}
use xsp.Loop.{State, WatchFor}
use xsp.Loop
use xsp.Handler.Interface.{WsClient, Fails, Received, Event, Program}
use xsp.Handler.{
  World, set_client, is_client_ok, should_stop, write_frame, write_close_frame, set_close_sent,
  set_close_status, answer_close, on_frame, do_read, is_data_opcode, has_write_work,
  send_message_completed, after_write, do_write, write_fin, write_opcode, write_chunk,
}
use xsp.Handler.Invariant.{
  IsValid-weaken, IsValid-neutral, IsValid-close, data_frame-IsNeutral, ping_received-IsNeutral,
  pong_received-IsNeutral, wrote_pong-IsNeutral, wrote_close-IsNeutral, echo-IsNeutral,
}
use xsp.Handler.Writes.{IsValid-wrote, IsValid-completed, IsValid-failed}
use xsp.Handler.Keeps.{
  Keeps, write_frame-Keeps, send_event-Keeps, maybe_send_close_event-Keeps, if_stopped-Keeps,
}

not_true : (b : Bool) → (b ≡ true → ⊥) → b ≡ false
not_true true h = absurd (h refl)
not_true false h = refl

module _ {C U : Type 0} (ops : WsClient C) (law : Fails ops) where
  answered :
      (recorded status : ℕ) (s : State (World C U))
      → s.env.handler.close_sent ≡ false
      → Keeps ops law s
      → Keeps ops law (set_close_sent (write_close_frame ops status (set_close_status recorded s)))
  unfolding write_close_frame
  answered recorded status s unsent v =
      IsValid-close s.env.handler s.env.log _ _ recorded unsent (wrote_close-IsNeutral status _)
        refl (IsValid-weaken _ _ _ _ (λ e. law.close_fails s.env.client status e) v)

  echoed :
      (recorded : ℕ) (payload : List ℕ) (s : State (World C U))
      → s.env.handler.close_sent ≡ false
      → Keeps ops law s
      → Keeps ops law (
          set_close_sent
            (write_frame ops true Opcode.connection_close payload (set_close_status recorded s)).1)
  unfolding write_frame
  echoed recorded payload s unsent v =
      IsValid-close s.env.handler s.env.log _ _ recorded unsent (echo-IsNeutral payload _) refl (
        IsValid-weaken _ _ _ _
          (λ e. (law.write_fails s.env.client true Opcode.connection_close payload e).0) v)

  answer_close-Keeps :
      (payload : List ℕ) (s : State (World C U))
      → s.env.handler.close_sent ≡ false
      → Keeps ops law s
      → Keeps ops law (set_close_sent (answer_close ops payload s))
  unfolding answer_close
  answer_close-Keeps [] s unsent v = answered Status.no_status_received Status.no_status s unsent v
  answer_close-Keeps (b ∷ []) s unsent v =
      answered Status.protocol_error Status.protocol_error s unsent v
  answer_close-Keeps (b0 ∷ b1 ∷ reason) s unsent v =
      if_both (λ (t : State (World C U)). Keeps ops law (set_close_sent t))
        (is_valid_close_frame_status (b0 * 2 ^ 8 + b1)) _ _
        (λ e.
          if_both (λ (t : State (World C U)). Keeps ops law (set_close_sent t)) (validate reason) _
            _ (λ e'. echoed (b0 * 2 ^ 8 + b1) (b0 ∷ b1 ∷ reason) s unsent v)
            (λ e'. answered Status.invalid_data Status.invalid_data s unsent v))
        (λ e. answered Status.protocol_error Status.protocol_error s unsent v)

  has_write_work_lem :
      (s : State (World C U))
      → has_write_work ops s ≡ true
      → (is_client_ok ops s ≡ true)
        × (s.env.handler.close_sent ≡ false)
        × (s.env.handler.sending_message ≡ true)
  unfolding should_stop Loop.should_stop
  has_write_work_lem s work = (ground (arith, work), ground (arith, work), ground (arith, work))

  -- What the write of the next frame returns.
  abbrev write_result : State (World C U) → EspErr
  write_result s =
      let h = s.env.handler in
      (ops.write_frame s.env.client (write_fin h) (write_opcode h) (write_chunk h)).0

  module _ (evt_handler : Event → Option (U → Program U)) where
    on_frame-Keeps :
        (frame : Received) (s : State (World C U))
        → Keeps ops law s
        → Keeps ops law (on_frame ops evt_handler frame s)
    unfolding on_frame
    on_frame-Keeps frame s v =
        if_both (Keeps ops law) (is_data_opcode frame.opcode) _ _
          (λ e.
            send_event-Keeps ops law evt_handler _ s
              (IsValid-neutral _ _ _ _ (data_frame-IsNeutral _ _ _) refl v))
          (λ e.
            if_both (Keeps ops law) (frame.opcode == Opcode.connection_close) _ _
              (λ e.
                if_both (Keeps ops law) s.env.handler.close_sent _ _ (λ e. v)
                  (λ unsent. answer_close-Keeps frame.payload s unsent v))
              (λ e.
                if_both (Keeps ops law) (frame.opcode == Opcode.ping) _ _
                  (λ e. send_event-Keeps ops law evt_handler _ _ (
                    IsValid-neutral _ _ _ _ (ping_received-IsNeutral _) refl (
                      write_frame-Keeps ops law true Opcode.pong frame.payload s
                        (wrote_pong-IsNeutral frame.payload) refl v)))
                  (λ e.
                    if_both (Keeps ops law) (frame.opcode == Opcode.pong) _ _
                      (λ e.
                        send_event-Keeps ops law evt_handler _ s
                          (IsValid-neutral _ _ _ _ (pong_received-IsNeutral _) refl v))
                      (λ e. v))))

    pub do_read-Keeps :
        (s : State (World C U)) → Keeps ops law s → Keeps ops law (do_read ops evt_handler s)
    unfolding do_read
    do_read-Keeps s v =
        if_both (Keeps ops law)
          (is_ok (ops.read_frame s.env.client s.env.handler.config.max_frame_read_size).0) _ _
          (λ e. if_stopped-Keeps ops law evt_handler _ (on_frame-Keeps _ _ read))
          (λ e. maybe_send_close_event-Keeps ops law evt_handler _ read)
      where
        read :
            Keeps ops law (
              set_client s (ops.read_frame s.env.client s.env.handler.config.max_frame_read_size).2)
        read = IsValid-weaken _ _ _ _ (λ e. law.read_fails s.env.client _ e) v

    pub do_write-Keeps :
        (s : State (World C U))
        → has_write_work ops s ≡ true
        → Keeps ops law s
        → Keeps ops law (do_write ops evt_handler s)
    unfolding do_write after_write write_frame send_message_completed
    do_write-Keeps s work v = if_stopped-Keeps ops law evt_handler _ (
        if_both (Keeps ops law) (is_ok (write_result s)) _ _
          (λ ok.
            if_both (Keeps ops law) (write_fin s.env.handler) _ _
              (λ end. send_event-Keeps ops law evt_handler _ _ (
                IsValid-completed s.env.handler s.env.log _ _ (write_result s) v
                  (has_write_work_lem s work).0 (has_write_work_lem s work).1
                  (has_write_work_lem s work).2 ok end))
              (λ more.
                IsValid-wrote s.env.handler s.env.log _ _ (write_result s) v
                  (has_write_work_lem s work).0 (has_write_work_lem s work).1
                  (has_write_work_lem s work).2 ok (more)))
          (λ bad. send_event-Keeps ops law evt_handler _ _ (
            IsValid-failed s.env.handler s.env.log _ _ (write_result s) v
              (not_true _ (λ e. ground (
                arith,
                bad,
                (law.write_fails s.env.client (write_fin s.env.handler) (write_opcode s.env.handler)
                    (write_chunk s.env.handler) e).1,
              )))
              (has_write_work_lem s work).1 (has_write_work_lem s work).2 bad)))
