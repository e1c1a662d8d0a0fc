-- ===== src/Handler/Log.antt =====
-- What the log of a handler says: what was sent and what a receiver of the data frames makes of them.
use xsp.Prelude.{
  ℕ, suc, ◌≡◌, Bool, true, false, ◌&&◌, List, [], ◌∷◌, ◌++◌, Option, none, some, ltb, ◌==◌,
  if◌then◌else◌,
}
use xsp.Esp.{is_ok}
use xsp.WsTypes.Opcode
use xsp.Handler.Interface.{client_closed, message_sent}
use xsp.Handler.{Entry, event, wrote, wrote_close, accepted}

abbrev pub count : (Entry → Bool) → List Entry → ℕ
count p [] = 0
count p (e ∷ log) = if p e then suc (count p log) else count p log

abbrev pub is_close_event : Entry → Bool
is_close_event (event (client_closed status)) = true
is_close_event _ = false

abbrev pub is_close_frame : Entry → Bool
is_close_frame (wrote_close status err) = true
is_close_frame (wrote fin opcode payload err) = opcode == Opcode.connection_close
is_close_frame _ = false

abbrev pub is_data_frame : Entry → Bool
is_data_frame (wrote fin opcode payload err) = ltb opcode 8
is_data_frame _ = false

abbrev pub is_accept : Entry → Bool
is_accept (accepted binary bytes) = true
is_accept _ = false

abbrev pub is_sent_event : Entry → Bool
is_sent_event (event (message_sent success)) = true
is_sent_event _ = false

-- No data frame behind a close frame.
abbrev pub IsOrdered : List Entry → Type 0
IsOrdered [] = Unit
IsOrdered (e ∷ log) = (is_data_frame e ≡ true → count is_close_frame log ≡ 0) × IsOrdered log

-- An opcode and the bytes.
abbrev pub Message : Type 0
Message = ℕ × List ℕ

-- A receiver of the data frames: between messages, in one, or behind a frame that breaks the order.
pub data Stream : Type 0 where
  between : Stream
  within : ℕ → List ℕ → Stream
  broken : Stream

abbrev pub finish : Bool → ℕ → List ℕ → List Message → Stream × List Message
finish true first bytes messages = (between, (first, bytes) ∷ messages)
finish false first bytes messages = (within first bytes, messages)

abbrev pub receive : Bool → ℕ → List ℕ → Stream × List Message → Stream × List Message
receive fin opcode payload (between, messages) =
    if opcode == Opcode.continuation then (broken, messages) else finish fin opcode payload messages
receive fin opcode payload (within first bytes, messages) =
    if opcode == Opcode.continuation
    then finish fin first (bytes ++ payload) messages
    else (broken, messages)
receive fin opcode payload (broken, messages) = (broken, messages)

-- What it makes of the data frames that were written, the newest message first.
abbrev pub received : List Entry → Stream × List Message
received [] = (between, [])
received (wrote fin opcode payload err ∷ log) =
    if is_ok err && ltb opcode 8 then receive fin opcode payload (received log) else received log
received (_ ∷ log) = received log

abbrev pub message_opcode : Bool → ℕ
message_opcode binary = if binary then Opcode.binary else Opcode.text

abbrev pub confirm_last : Option Message × List Message → Option Message × List Message
confirm_last (none, messages) = (none, messages)
confirm_last (some m, messages) = (some m, m ∷ messages)

-- The last message that was accepted, and those whose sending was reported a success.
abbrev pub confirmed : List Entry → Option Message × List Message
confirmed [] = (none, [])
confirmed (accepted binary bytes ∷ log) = (some (message_opcode binary, bytes), (confirmed log).1)
confirmed (event (message_sent true) ∷ log) = confirm_last (confirmed log)
confirmed (_ ∷ log) = confirmed log
