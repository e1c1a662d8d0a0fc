-- ===== src/Handler/Writes.antt =====
-- The invariant of a handler across the frames of a message.
use xsp.Prelude.{
  ℕ, zero, suc, ◌+◌, ◌≡◌, ◌≢◌, sym, ap, ◌∙◌, Bool, true, false, ◌&&◌, List, ◌∷◌, ◌++◌, arith, ltb,
  ◌==◌, if◌then◌else◌, take, drop, Bool-cases, inl, inr, take-add, take_all,
}
use mathlib.Core.Path.{ap₂}
use xsp.Esp.{EspErr, is_ok}
use xsp.WsTypes.Opcode
use xsp.Handler.Interface.{message_sent}
use xsp.Handler.{Handler, Entry, event, wrote, write_size, write_opcode, write_chunk, write_fin}
use xsp.Handler.Log.{
  count, is_close_frame, IsOrdered, Message, between, within, broken, finish, receive, received,
  message_opcode, confirm_last, confirmed,
}
use xsp.Handler.Invariant.{once, sent_so_far, IsValid}

-- What has been sent of the message when the next frame is.
abbrev sent_next : Handler → List ℕ
sent_next h = take (h.send_written + write_size h) h.send_message

take_next :
    (written size : ℕ) (bytes : List ℕ)
    → written ≡ 0
    → take size (drop written bytes) ≡ take (written + size) bytes
take_next zero size bytes e = ap (λ k. take k bytes) (omega arith)
take_next (suc n) size bytes e = absurd (omega (arith, e))

receive_started :
    (fin : Bool) (opcode first : ℕ) (bytes chunk : List ℕ) (messages : List Message)
    → (opcode == Opcode.continuation) ≡ true
    → receive fin opcode chunk (within first bytes, messages)
      ≡ finish fin first (bytes ++ chunk) messages
receive_started fin opcode first bytes chunk messages e =
    ap (λ b. if b then finish fin first (bytes ++ chunk) messages else (broken, messages)) e

receive_fresh :
    (fin : Bool) (opcode : ℕ) (chunk : List ℕ) (messages : List Message)
    → (opcode == Opcode.continuation) ≡ false
    → receive fin opcode chunk (between, messages) ≡ finish fin opcode chunk messages
receive_fresh fin opcode chunk messages e =
    ap (λ b. if b then (broken, messages) else finish fin opcode chunk messages) e

fresh_opcode :
    (h : Handler)
    → ltb 0 h.send_written ≡ false
    → (write_opcode h ≡ message_opcode h.send_is_binary)
      × ((write_opcode h == Opcode.continuation) ≡ false)
fresh_opcode h fresh = (ground (arith, fresh), ground (arith, fresh))

started_opcode :
    (h : Handler) → ltb 0 h.send_written ≡ true → (write_opcode h == Opcode.continuation) ≡ true
started_opcode h started = ground (arith, started)

at_chunk :
    (h : Handler) (b : Bool)
    → h.sending_message ≡ true
    → ltb 0 h.send_written ≡ b
    → sent_so_far h ≡ (
        if b
        then within (message_opcode h.send_is_binary) (take h.send_written h.send_message)
        else between)
at_chunk h b busy e =
    ap₂
      (λ x y.
        if x && y
        then within (message_opcode h.send_is_binary) (take h.send_written h.send_message)
        else between)
      busy e

receive-write_chunk :
    (h : Handler) (messages : List Message)
    → h.sending_message ≡ true
    → receive (write_fin h) (write_opcode h) (write_chunk h) (sent_so_far h, messages)
      ≡ finish (write_fin h) (message_opcode h.send_is_binary) (sent_next h) messages
receive-write_chunk h messages busy = elim (Bool-cases (ltb 0 h.send_written)) [
  | inl started ↦
      ap (λ st. receive (write_fin h) (write_opcode h) (write_chunk h) (st, messages))
        (at_chunk h true busy started)
      ∙ receive_started (write_fin h) (write_opcode h) _ _ (write_chunk h) messages
          (started_opcode h started)
      ∙ ap (λ b. finish (write_fin h) (message_opcode h.send_is_binary) b messages)
          (sym (take-add h.send_written (write_size h) h.send_message))
  | inr fresh ↦
      ap (λ st. receive (write_fin h) (write_opcode h) (write_chunk h) (st, messages))
        (at_chunk h false busy fresh)
      ∙ receive_fresh (write_fin h) (write_opcode h) (write_chunk h) messages
          (fresh_opcode h fresh).1
      ∙ ap₂ (λ o b. finish (write_fin h) o b messages) (fresh_opcode h fresh).0
          (take_next h.send_written (write_size h) h.send_message (ground (arith, fresh)))
]

ltb-write_opcode : (h : Handler) → ltb (write_opcode h) 8 ≡ true
ltb-write_opcode h = ground arith

close-write_opcode : (h : Handler) → (write_opcode h == Opcode.connection_close) ≡ false
close-write_opcode h = ground arith

received-wrote :
    (h : Handler) (log : List Entry) (err : EspErr)
    → is_ok err ≡ true
    → (received log).0 ≡ sent_so_far h
    → h.sending_message ≡ true
    → received (wrote (write_fin h) (write_opcode h) (write_chunk h) err ∷ log)
      ≡ finish (write_fin h) (message_opcode h.send_is_binary) (sent_next h) (received log).1
received-wrote h log err ok e busy =
    ap₂
      (λ a b.
        if a && b
        then receive (write_fin h) (write_opcode h) (write_chunk h) (received log)
        else received log)
      ok (ltb-write_opcode h)
    ∙ ap (λ x. receive (write_fin h) (write_opcode h) (write_chunk h) (x, (received log).1)) e
    ∙ receive-write_chunk h (received log).1 busy

-- The handler when the frame has been written.
abbrev pub moved : Handler → Handler
moved h = record h { send_written = h.send_written + write_size h }

abbrev pub wrote_next : Handler → EspErr → Entry
wrote_next h err = wrote (write_fin h) (write_opcode h) (write_chunk h) err

wrote-IsOrdered :
    (h : Handler) (log : List Entry) (alive : Bool) (err : EspErr)
    → IsValid h log alive
    → h.close_sent ≡ false
    → IsOrdered (wrote_next h err ∷ log)
wrote-IsOrdered h log alive err v unsent = (λ d. v.close_once ∙ ap once unsent, v.ordered)

wrote-close :
    (h : Handler) (log : List Entry) (err : EspErr)
    → count is_close_frame (wrote_next h err ∷ log) ≡ count is_close_frame log
wrote-close h log err =
    ap (λ b. if b then suc (count is_close_frame log) else count is_close_frame log)
      (close-write_opcode h)

-- A frame that is not the last.
pub IsValid-wrote :
    (h : Handler) (log : List Entry) (alive alive' : Bool) (err : EspErr)
    → IsValid h log alive
    → alive ≡ true
    → h.close_sent ≡ false
    → h.sending_message ≡ true
    → is_ok err ≡ true
    → write_fin h ≡ false
    → IsValid (moved h) (wrote_next h err ∷ log) alive'
IsValid-wrote h log alive alive' err v lives unsent busy ok more = record {
  config = v.config;
  closed_once = v.closed_once;
  close_once = wrote-close h log err ∙ v.close_once;
  answered = v.answered;
  ordered = wrote-IsOrdered h log alive err v unsent;
  delivered = ap (λ r. r.1) now ∙ v.delivered;
  on_the_way = λ a. ap (λ r. r.0) now ∙ sym (at_chunk (moved h) true busy grows);
  sending = λ a.
      let s = v.sending busy in
      record {
        last = s.last;
        size = s.size;
        below = omega (arith, s.below);
        not_all = λ i. omega (arith, s.below, rests);
      };
}
  where
    rests : h.send_written + write_size h ≢ h.send_size
    rests = ground (arith, more)

    grows : ltb 0 (h.send_written + write_size h) ≡ true
    grows = ground (arith, rests, v.config, (v.sending busy).below)

    now :
        received (wrote_next h err ∷ log)
        ≡ finish false (message_opcode h.send_is_binary) (sent_next h) (received log).1
    now =
        received-wrote h log err ok (v.on_the_way lives) busy
        ∙ ap (λ b. finish b (message_opcode h.send_is_binary) (sent_next h) (received log).1) more

-- The last frame, and the event that says so.
pub IsValid-completed :
    (h : Handler) (log : List Entry) (alive alive' : Bool) (err : EspErr)
    → IsValid h log alive
    → alive ≡ true
    → h.close_sent ≡ false
    → h.sending_message ≡ true
    → is_ok err ≡ true
    → write_fin h ≡ true
    → IsValid
        (record (moved h) { sending_message = false })
        (event (message_sent true) ∷ wrote_next h err ∷ log)
        alive'
IsValid-completed h log alive alive' err v lives unsent busy ok end = record {
  config = v.config;
  closed_once = v.closed_once;
  close_once = wrote-close h log err ∙ v.close_once;
  answered = omega (arith, v.answered, ap once busy);
  ordered = (λ d. absurd (ground arith), wrote-IsOrdered h log alive err v unsent);
  delivered =
      ap (λ r. r.1) now
      ∙ ap₂ (λ b ms. (message_opcode h.send_is_binary, b) ∷ ms) whole v.delivered
      ∙ sym (ap (λ c. (confirm_last (c, (confirmed log).1)).1) (v.sending busy).last);
  on_the_way = λ a. ap (λ r. r.0) now;
  sending = λ a. absurd (ground (arith, a));
}
  where
    whole : sent_next h ≡ h.send_message
    whole =
        take_all (h.send_written + write_size h) h.send_message
          (ground (arith, end, (v.sending busy).size))

    now :
        received (wrote_next h err ∷ log)
        ≡ finish true (message_opcode h.send_is_binary) (sent_next h) (received log).1
    now =
        received-wrote h log err ok (v.on_the_way lives) busy
        ∙ ap (λ b. finish b (message_opcode h.send_is_binary) (sent_next h) (received log).1) end

-- A frame that could not be written, and the event that says so.
pub IsValid-failed :
    (h : Handler) (log : List Entry) (alive alive' : Bool) (err : EspErr)
    → IsValid h log alive
    → alive' ≡ false
    → h.close_sent ≡ false
    → h.sending_message ≡ true
    → is_ok err ≡ false
    → IsValid
        (record (moved h) { sending_message = false })
        (event (message_sent false) ∷ wrote_next h err ∷ log)
        alive'
IsValid-failed h log alive alive' err v dies unsent busy bad = record {
  config = v.config;
  closed_once = v.closed_once;
  close_once = wrote-close h log err ∙ v.close_once;
  answered = omega (arith, v.answered, ap once busy);
  ordered = (λ d. absurd (ground arith), wrote-IsOrdered h log alive err v unsent);
  delivered =
      ap (λ r. r.1)
        (ap
          (λ b.
            if b && ltb (write_opcode h) 8
            then receive (write_fin h) (write_opcode h) (write_chunk h) (received log)
            else received log)
          bad)
      ∙ v.delivered;
  on_the_way = λ a. absurd (ground (arith, a, dies));
  sending = λ a. absurd (ground (arith, a));
}
