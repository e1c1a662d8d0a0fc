-- ===== src/Handler/Runs.antt =====
-- Every run of a handler: the loop calls it and its user does, in any order.
use xsp.Prelude.{
  if_both, ◌<◌, ◌⊎◌, inl, inr, Bool-cases, length, false, ℕ, zero, suc, ◌+◌, ◌≤◌, ◌≡◌, refl, sym,
  Bool, true, [], Option, none, some, arith,
}
use mathlib.Core.Path.{subst}
use xsp.Esp.{is_ok}
use xsp.Loop.{State, WatchFor}
use xsp.Handler.Interface.{WsClient, Fails, Event, Call, Program}
use xsp.Handler.{
  init, World, set_client, is_client_ok, should_stop, perform, do_read, has_read_work,
  has_write_work, read_buffered, watch_for, on_loop_will_select, do_write, on_loop_can_write_fd,
}
use xsp.Handler.Log.{
  is_close_frame, count, is_close_event, is_accept, is_sent_event, IsOrdered, received, confirmed,
}
use xsp.Handler.Invariant.{once, sent_so_far, IsValid, IsValid-weaken}
use xsp.Handler.Keeps.{Keeps, perform-Keeps, maybe_send_close_event-Keeps}
use xsp.Handler.Rounds.{do_read-Keeps, do_write-Keeps}

-- A predicate of the state behind a loop that ended.
abbrev Ended {ℓ} : {A : Type ℓ} → (A → Type 0) → Option A → Type 0
Ended P none = Unit
Ended P (some a) = P a

module _ {C U : Type 0} where
  -- A handler that has just been initialised.
  abbrev pub IsFresh : State (World C U) → Type 0
  IsFresh s =
      (s.env.log ≡ [])
      × (1 ≤ s.env.handler.config.max_data_frame_write_size)
      × (s.env.handler ≡ init s.env.handler.config)

module _ {C U : Type 0} (ops : WsClient C) (evt_handler : Event → Option (U → Program U)) where
  -- What happens between two states: the loop calls one of the handler's three functions, and that
  -- returns; a function of the handler is called from elsewhere in the loop; the loop starts, or is told
  -- to stop, or stops.
  pub data Step : State (World C U) → State (World C U) → Type 0 where
    will_select :
        {s t : State (World C U)} (fuel : ℕ) {watched : WatchFor}
        → on_loop_will_select ops evt_handler fuel s ≡ some (watched, t)
        → Step s t
    can_write :
        {s t : State (World C U)} (fuel : ℕ)
        → on_loop_can_write_fd ops evt_handler fuel s ≡ some t
        → Step s t
    can_read : {s : State (World C U)} → Step s (do_read ops evt_handler s)
    called : {s : State (World C U)} (call : Call) → Step s (perform ops call s).1
    flags :
        {s : State (World C U)} (is_running should_stop : Bool)
        → Step s (record s { is_running = is_running; should_stop = should_stop })

  pub data Reaches (s : State (World C U)) : State (World C U) → Type 0 where
    start : Reaches s s
    step : {t u : State (World C U)} → Reaches s t → Step t u → Reaches s u

module _ {C U : Type 0} (ops : WsClient C) (law : Fails ops)
    (evt_handler : Event → Option (U → Program U)) where
  poll-Keeps :
      (s : State (World C U))
      → Keeps ops law s
      → Keeps ops law (set_client s (ops.poll_write s.env.client).1)
  poll-Keeps s v = IsValid-weaken _ _ _ _ (λ e. law.poll_fails s.env.client e) v

  read_buffered-Keeps :
      (fuel : ℕ) (s : State (World C U))
      → Keeps ops law s
      → Ended (Keeps ops law) (read_buffered ops evt_handler fuel s)
  unfolding read_buffered
  read_buffered-Keeps zero s v =
      if_both (Ended (Keeps ops law)) (has_read_work ops s) _ _ (λ e. tt) (λ e. v)
  read_buffered-Keeps (suc fuel) s v =
      if_both (Ended (Keeps ops law)) (has_read_work ops s) _ _
        (λ e. read_buffered-Keeps fuel _ (do_read-Keeps ops law evt_handler s v)) (λ e. v)

  watch_for-Keeps :
      (s : State (World C U)) → Keeps ops law s → Keeps ops law (watch_for ops evt_handler s).1
  unfolding watch_for
  watch_for-Keeps s v =
      if_both (λ (r : WatchFor × State (World C U)). Keeps ops law r.1) (should_stop ops s) _ _
        (λ e. maybe_send_close_event-Keeps ops law evt_handler s v) (λ e. v)

  after_read-Keeps :
      (r : Option (State (World C U)))
      → Ended (Keeps ops law) r
      → Ended
          (λ a. Keeps ops law a.1)
          (elim r [ none ↦ none | some s' ↦ some (watch_for ops evt_handler s') ])
  after_read-Keeps none v = tt
  after_read-Keeps (some s) v = watch_for-Keeps s v

  on_loop_will_select-Keeps :
      (fuel : ℕ) (s : State (World C U))
      → Keeps ops law s
      → Ended (λ a. Keeps ops law a.1) (on_loop_will_select ops evt_handler fuel s)
  unfolding on_loop_will_select
  on_loop_will_select-Keeps fuel s v =
      after_read-Keeps (read_buffered ops evt_handler fuel s) (read_buffered-Keeps fuel s v)

  on_loop_can_write_fd-Keeps :
      (fuel : ℕ) (s : State (World C U))
      → Keeps ops law s
      → Ended (Keeps ops law) (on_loop_can_write_fd ops evt_handler fuel s)
  unfolding on_loop_can_write_fd
  on_loop_can_write_fd-Keeps zero s v =
      if_both (Ended (Keeps ops law)) (has_write_work ops s) _ _ (λ e. tt) (λ e. v)
  on_loop_can_write_fd-Keeps (suc fuel) s v =
      if_both (Ended (Keeps ops law)) (has_write_work ops s) _ _
        (λ work.
          let w =
            poll-Keeps (do_write ops evt_handler s) (do_write-Keeps ops law evt_handler s work v) in
          if_both (Ended (Keeps ops law))
            (is_ok (ops.poll_write (do_write ops evt_handler s).env.client).0) _ _
            (λ e. on_loop_can_write_fd-Keeps fuel _ w) (λ e. w))
        (λ e. v)

  Step-Keeps :
      (s t : State (World C U)) → Step ops evt_handler s t → Keeps ops law s → Keeps ops law t
  Step-Keeps s t (will_select fuel e) v =
      subst (Ended (λ a. Keeps ops law a.1)) e (on_loop_will_select-Keeps fuel s v)
  Step-Keeps s t (can_write fuel e) v =
      subst (Ended (Keeps ops law)) e (on_loop_can_write_fd-Keeps fuel s v)
  Step-Keeps s t can_read v = do_read-Keeps ops law evt_handler s v
  Step-Keeps s t (called call) v = perform-Keeps ops law call s v
  Step-Keeps s t (flags r b) v = v

  fresh-Keeps : (s : State (World C U)) → IsFresh s → Keeps ops law s
  unfolding init
  fresh-Keeps s (e, h, i) =
      subst (λ l. IsValid s.env.handler l (is_client_ok ops s)) (sym e)
        (subst (λ x. IsValid x [] (is_client_ok ops s)) (sym i)
          (record {
            config = h;
            closed_once = refl;
            close_once = refl;
            answered = refl;
            ordered = tt;
            delivered = refl;
            on_the_way = λ a. refl;
            sending = λ a. absurd (ground (arith, a));
          }))

  Reaches-Keeps :
      (s t : State (World C U)) → Reaches ops evt_handler s t → Keeps ops law s → Keeps ops law t
  Reaches-Keeps s t start v = v
  Reaches-Keeps s t (step {t = m} r k) v = Step-Keeps m t k (Reaches-Keeps s m r v)

  -- However the loop and its users call a handler that was just initialised: the close event is in the
  -- log once if the handler has its flag set and else never, so is a close frame, and no data frame is
  -- written behind a close frame.
  pub closes_once :
      (s t : State (World C U))
      → IsFresh s
      → Reaches ops evt_handler s t
      → (count is_close_event t.env.log ≡ once t.env.handler.close_event_sent)
        × (count is_close_frame t.env.log ≡ once t.env.handler.close_sent)
        × IsOrdered t.env.log
  closes_once s t f r =
      let v = Reaches-Keeps s t r (fresh-Keeps s f) in (v.closed_once, v.close_once, v.ordered)

  -- However the loop and its users call a handler that was just initialised: a receiver of the data
  -- frames that were written has exactly the messages whose sending was reported a success, in order,
  -- each with its opcode and bytes.
  pub delivers :
      (s t : State (World C U))
      → IsFresh s
      → Reaches ops evt_handler s t
      → (received t.env.log).1 ≡ (confirmed t.env.log).1
  delivers s t f r = (Reaches-Keeps s t r (fresh-Keeps s f)).delivered

  -- However the loop and its users call a handler that was just initialised, as long as the client has
  -- not failed: a receiver of the data frames that were written is between messages, or within the one
  -- being sent with what was written of it, which is less than all.
  pub delivers_in_part :
      (s t : State (World C U))
      → IsFresh s
      → Reaches ops evt_handler s t
      → is_client_ok ops t ≡ true
      → ((received t.env.log).0 ≡ sent_so_far t.env.handler)
        × ((t.env.handler.sending_message ≡ false)
            ⊎ (t.env.handler.send_written ≡ 0)
            ⊎ (t.env.handler.send_written < length t.env.handler.send_message))
  delivers_in_part s t f r lives =
      let v = Reaches-Keeps s t r (fresh-Keeps s f) in
      (
        v.on_the_way lives,
        elim (Bool-cases t.env.handler.sending_message) [
          | inr idle ↦ inl idle
          | inl busy ↦ inr (part _ _ _ (v.sending busy).size (v.sending busy).not_all)
        ],
      )
    where
      part : (n m k : ℕ) → m ≡ k → (0 < n → n < m) → (n ≡ 0) ⊎ (n < k)
      part zero m k e h = inl refl
      part (suc n) m k e h = inr (omega (arith, e, h (omega arith)))

  -- However the loop and its users call a handler that was just initialised: every message that was
  -- accepted has been answered by one message-sent event, but for the one being sent.
  pub answers_each :
      (s t : State (World C U))
      → IsFresh s
      → Reaches ops evt_handler s t
      → count is_accept t.env.log
        ≡ count is_sent_event t.env.log + once t.env.handler.sending_message
  answers_each s t f r = (Reaches-Keeps s t r (fresh-Keeps s f)).answered
