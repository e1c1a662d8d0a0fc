-- ===== src/Handler/Invariant.antt =====
-- The invariant of a handler and its log, and each entry that the handler adds.
use xsp.Prelude.{
  ℕ, suc, ◌+◌, ◌≤◌, ◌<◌, ◌≡◌, refl, sym, ap, ◌∙◌, Bool, true, false, ◌&&◌, List, ◌∷◌, some, arith,
  ltb, if◌then◌else◌, length, take,
}
use xsp.Esp.{EspErr, is_ok}
use xsp.WsTypes.Opcode
use xsp.Handler.Interface.{client_closed, data_frame_received, ping_received, pong_received}
use xsp.Handler.{Handler, Entry, event, wrote, wrote_close, accepted}
use xsp.Handler.Log.{
  count, is_close_event, is_close_frame, is_data_frame, is_accept, is_sent_event, IsOrdered,
  Message, Stream, between, within, received, message_opcode, confirmed,
}

abbrev pub once : Bool → ℕ
once true = 1
once false = 0

-- Where the receiver is in the message that is being sent.
abbrev pub sent_so_far : Handler → Stream
sent_so_far h =
    if h.sending_message && ltb 0 h.send_written
    then within (message_opcode h.send_is_binary) (take h.send_written h.send_message)
    else between

-- While a message is being sent: the last one that was accepted, not yet sent in full.
pub record IsSending (h : Handler) (log : List Entry) : Type 0 where
  pub last : (confirmed log).0 ≡ some (message_opcode h.send_is_binary, h.send_message)
  pub size : h.send_size ≡ length h.send_message
  pub below : h.send_written ≤ h.send_size
  pub not_all : 0 < h.send_written → h.send_written < h.send_size

-- `alive` says that the client has not failed.
pub record IsValid (h : Handler) (log : List Entry) (alive : Bool) : Type 0 where
  pub config : 1 ≤ h.config.max_data_frame_write_size
  pub closed_once : count is_close_event log ≡ once h.close_event_sent
  pub close_once : count is_close_frame log ≡ once h.close_sent
  pub answered : count is_accept log ≡ count is_sent_event log + once h.sending_message
  pub ordered : IsOrdered log
  pub delivered : (received log).1 ≡ (confirmed log).1
  pub on_the_way : alive ≡ true → (received log).0 ≡ sent_so_far h
  pub sending : h.sending_message ≡ true → IsSending h log

pub IsValid-weaken :
    (h : Handler) (log : List Entry) (a b : Bool)
    → (b ≡ true → a ≡ true)
    → IsValid h log a
    → IsValid h log b
IsValid-weaken h log a b i v = record {
  config = v.config;
  closed_once = v.closed_once;
  close_once = v.close_once;
  answered = v.answered;
  ordered = v.ordered;
  delivered = v.delivered;
  on_the_way = λ e. v.on_the_way (i e);
  sending = v.sending;
}

-- An entry that counts for nothing.
pub record IsNeutral (e : Entry) : Type 0 where
  no_close_event : is_close_event e ≡ false
  no_data_frame : is_data_frame e ≡ false
  no_accept : is_accept e ≡ false
  no_sent_event : is_sent_event e ≡ false
  receives : (log : List Entry) → received (e ∷ log) ≡ received log
  confirms : (log : List Entry) → confirmed (e ∷ log) ≡ confirmed log

pub data_frame-IsNeutral :
    (fin : Bool) (opcode : ℕ) (payload : List ℕ)
    → IsNeutral (event (data_frame_received fin opcode payload))
data_frame-IsNeutral fin opcode payload = record {
  no_close_event = refl;
  no_data_frame = refl;
  no_accept = refl;
  no_sent_event = refl;
  receives = λ log. refl;
  confirms = λ log. refl;
}

pub ping_received-IsNeutral : (payload : List ℕ) → IsNeutral (event (ping_received payload))
ping_received-IsNeutral payload = record {
  no_close_event = refl;
  no_data_frame = refl;
  no_accept = refl;
  no_sent_event = refl;
  receives = λ log. refl;
  confirms = λ log. refl;
}

pub pong_received-IsNeutral : (payload : List ℕ) → IsNeutral (event (pong_received payload))
pong_received-IsNeutral payload = record {
  no_close_event = refl;
  no_data_frame = refl;
  no_accept = refl;
  no_sent_event = refl;
  receives = λ log. refl;
  confirms = λ log. refl;
}

receive_nothing : (b : Bool) (x y : Stream × List Message) → (if b && false then x else y) ≡ y
receive_nothing false x y = refl
receive_nothing true x y = refl

pub wrote_ping-IsNeutral :
    (payload : List ℕ) (err : EspErr) → IsNeutral (wrote true Opcode.ping payload err)
wrote_ping-IsNeutral payload err = record {
  no_close_event = refl;
  no_data_frame = refl;
  no_accept = refl;
  no_sent_event = refl;
  receives = λ log. receive_nothing (is_ok err) _ (received log);
  confirms = λ log. refl;
}

pub wrote_pong-IsNeutral :
    (payload : List ℕ) (err : EspErr) → IsNeutral (wrote true Opcode.pong payload err)
wrote_pong-IsNeutral payload err = record {
  no_close_event = refl;
  no_data_frame = refl;
  no_accept = refl;
  no_sent_event = refl;
  receives = λ log. receive_nothing (is_ok err) _ (received log);
  confirms = λ log. refl;
}

pub wrote_close-IsNeutral : (status : ℕ) (err : EspErr) → IsNeutral (wrote_close status err)
wrote_close-IsNeutral status err = record {
  no_close_event = refl;
  no_data_frame = refl;
  no_accept = refl;
  no_sent_event = refl;
  receives = λ log. refl;
  confirms = λ log. refl;
}

pub echo-IsNeutral :
    (payload : List ℕ) (err : EspErr) → IsNeutral (wrote true Opcode.connection_close payload err)
echo-IsNeutral payload err = record {
  no_close_event = refl;
  no_data_frame = refl;
  no_accept = refl;
  no_sent_event = refl;
  receives = λ log. receive_nothing (is_ok err) _ (received log);
  confirms = λ log. refl;
}

count_none :
    (p : Entry → Bool) (e : Entry) (log : List Entry)
    → p e ≡ false
    → count p (e ∷ log) ≡ count p log
count_none p e log h = rw h refl

count_one :
    (p : Entry → Bool) (e : Entry) (log : List Entry)
    → p e ≡ true
    → count p (e ∷ log) ≡ suc (count p log)
count_one p e log h = rw h refl

pub IsValid-neutral :
    (h : Handler) (log : List Entry) (alive : Bool) (e : Entry)
    → IsNeutral e
    → is_close_frame e ≡ false
    → IsValid h log alive
    → IsValid h (e ∷ log) alive
IsValid-neutral h log alive e n o v = record {
  config = v.config;
  closed_once = count_none is_close_event e log n.no_close_event ∙ v.closed_once;
  close_once = count_none is_close_frame e log o ∙ v.close_once;
  answered =
      count_none is_accept e log n.no_accept
      ∙ v.answered
      ∙ ap (λ k. k + once h.sending_message) (sym (count_none is_sent_event e log n.no_sent_event));
  ordered = (λ d. absurd (ground (arith, n.no_data_frame, d)), v.ordered);
  delivered = ap (λ r. r.1) (n.receives log) ∙ v.delivered ∙ sym (ap (λ r. r.1) (n.confirms log));
  on_the_way = λ a. ap (λ r. r.0) (n.receives log) ∙ v.on_the_way a;
  sending = λ a.
      let s = v.sending a in
      record {
        last = ap (λ r. r.0) (n.confirms log) ∙ s.last;
        size = s.size;
        below = s.below;
        not_all = s.not_all;
      };
}

-- A close frame, the first.
pub IsValid-close :
    (h : Handler) (log : List Entry) (alive : Bool) (e : Entry) (status : ℕ)
    → h.close_sent ≡ false
    → IsNeutral e
    → is_close_frame e ≡ true
    → IsValid h log alive
    → IsValid (record h { close_status = status; close_sent = true }) (e ∷ log) alive
IsValid-close h log alive e status unsent n c v = record {
  config = v.config;
  closed_once = count_none is_close_event e log n.no_close_event ∙ v.closed_once;
  close_once = count_one is_close_frame e log c ∙ ap suc (v.close_once ∙ ap once unsent);
  answered =
      count_none is_accept e log n.no_accept
      ∙ v.answered
      ∙ ap (λ k. k + once h.sending_message) (sym (count_none is_sent_event e log n.no_sent_event));
  ordered = (λ d. absurd (ground (arith, n.no_data_frame, d)), v.ordered);
  delivered = ap (λ r. r.1) (n.receives log) ∙ v.delivered ∙ sym (ap (λ r. r.1) (n.confirms log));
  on_the_way = λ a. ap (λ r. r.0) (n.receives log) ∙ v.on_the_way a;
  sending = λ a.
      let s = v.sending a in
      record {
        last = ap (λ r. r.0) (n.confirms log) ∙ s.last;
        size = s.size;
        below = s.below;
        not_all = s.not_all;
      };
}

pub IsValid-closed :
    (h : Handler) (log : List Entry) (alive : Bool) (status : ℕ)
    → h.close_event_sent ≡ false
    → IsValid h log alive
    → IsValid (record h { close_event_sent = true }) (event (client_closed status) ∷ log) alive
IsValid-closed h log alive status unsent v = record {
  config = v.config;
  closed_once = ap suc (v.closed_once ∙ ap once unsent);
  close_once = v.close_once;
  answered = v.answered;
  ordered = (λ d. absurd (ground arith), v.ordered);
  delivered = v.delivered;
  on_the_way = v.on_the_way;
  sending = λ a.
      let s = v.sending a in
      record { last = s.last; size = s.size; below = s.below; not_all = s.not_all };
}

pub IsValid-accept :
    (h : Handler) (log : List Entry) (alive binary : Bool) (bytes : List ℕ)
    → h.sending_message ≡ false
    → IsValid h log alive
    → IsValid
        (record h {
          sending_message = true;
          send_is_binary = binary;
          send_message = bytes;
          send_size = length bytes;
          send_written = 0;
        })
        (accepted binary bytes ∷ log)
        alive
IsValid-accept h log alive binary bytes idle v = record {
  config = v.config;
  closed_once = v.closed_once;
  close_once = v.close_once;
  answered = omega (arith, v.answered, ap once idle);
  ordered = (λ d. absurd (ground arith), v.ordered);
  delivered = v.delivered;
  on_the_way = λ a.
      v.on_the_way a
      ∙ ap
          (λ b.
            if b && ltb 0 h.send_written
            then within (message_opcode h.send_is_binary) (take h.send_written h.send_message)
            else between)
          idle;
  sending = λ a. record {
    last = refl;
    size = refl;
    below = omega arith;
    not_all = λ i. absurd (omega (arith, i));
  };
}
