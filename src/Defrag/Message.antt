-- ===== src/Defrag/Message.antt =====
-- Whole messages: what a run of calls of xsp_ws_client_defrag.c delivers.
use xsp.Prelude.{
  ℕ, ◌+◌, ◌≤◌, ◌≡◌, ◌≢◌, sym, ap, ◌∙◌, Bool, true, List, some, arith, length, inl, inr, Bool-cases,
  ◌==◌,
}
use xsp.Prelude.Int.{int_max}
use xsp.Esp.{EspErr, esp_ok, is_ok}
use xsp.WsTypes.Opcode
use xsp.Utf8.{accept, validate_state}
use xsp.Utf8.Step.{Bytes}
use xsp.Utf8.Sound.{Encodes, accept_iff}
use xsp.Defrag.Spec
use xsp.Defrag.Spec.{Phase, idle, collecting, discarding, Message, Reply, is_bad_text}
use xsp.Defrag.{Block, Defrag, Output, returned, on_valid_frame}
use xsp.Defrag.Invariant.{contents, phase, message, IsValid, Refines, Reallocates, allocates}
use xsp.Defrag.Refine.{on_valid_frame-Refines}

-- What a completed message is: it came with the last frame, its opcode is no continuation, it fits,
-- and its text is UTF-8.
pub record IsSound (max : ℕ) (fin : Bool) (m : Message) : Type 0 where
  pub final : fin ≡ true
  pub starts : m.0 ≢ Opcode.continuation
  pub fits : length m.1 ≤ max
  pub text : m.0 ≡ Opcode.text → validate_state accept m.1 ≡ accept

-- A phase in which a message that has begun did not begin with a continuation.
abbrev Proper : Phase → Type 0
Proper (collecting first bytes) = first ≢ Opcode.continuation
Proper _ = Unit

step-IsSound :
    (max : ℕ) (al : Bool) (ph : Phase) (fin : Bool) (opcode : ℕ) (payload : List ℕ) (m : Message)
    → Proper ph
    → (Spec.step max al ph fin opcode payload).1 ≡ some m
    → ((Spec.step max al ph fin opcode payload).0 ≡ esp_ok) × IsSound max fin m
unfolding Spec.step
step-IsSound max al idle fin opcode payload m pr h = ground arith
step-IsSound max al (collecting first bytes) fin opcode payload m pr h = ground arith
step-IsSound max al (discarding e) fin opcode payload m pr h = ground arith

phase-Proper : (d : Defrag) → Proper (phase d)
phase-Proper d = elim (Bool-cases (is_ok d.message_error)) [
  | inr failed ↦ rw failed tt
  | inl sound ↦ rw sound (elim (Bool-cases (d.message_opcode == Opcode.continuation)) [
    | inl e ↦ rw e tt
    | inr n ↦ rw n (ground arith)
  ])
]

message-contents :
    (out : Output) (m : Message) → message out ≡ some m → contents out.message_data ≡ m.1
message-contents out m h = ground arith

module _ (realloc : Block → ℕ → Block) (law : Reallocates realloc) where
  -- Whenever a call hands over a message, from a valid defragmenter with room for the largest
  -- message in an `int`, it returned ESP_OK at a final frame, and the message is no continuation, is
  -- within the configured size, is of the size reported, and drives the automaton to ACCEPT if it
  -- is text.
  pub delivered-IsSound :
      (d : Defrag) (fin : Bool) (opcode : ℕ) (payload : List ℕ)
      → IsValid d
      → d.max_message_size + length payload ≤ int_max
      → (rv : EspErr) (out : Output) (after : Defrag) (m : Message)
      → on_valid_frame realloc d fin opcode payload ≡ returned rv (some out) after
      → message out ≡ some m
      → (rv ≡ esp_ok) × IsSound d.max_message_size fin m × (out.message_size ≡ length m.1)
  delivered-IsSound d fin opcode payload v small rv out after m e h = (
    cc (e, r.returns, sound.0),
    sound.1,
    omega (arith, r.sizes, ap length (message-contents r.out m there), out_size),
  )
    where
      al : Bool
      al = allocates realloc d payload

      r :
          Refines d.max_message_size fin
            (Spec.step d.max_message_size al (phase d) fin opcode payload)
            (on_valid_frame realloc d fin opcode payload)
      r = on_valid_frame-Refines realloc law d fin opcode payload v small

      out_size : out.message_size ≡ r.out.message_size
      out_size = cc (e, r.returns)

      there : message r.out ≡ some m
      there = cc (e, r.returns, h)

      sound :
          ((Spec.step d.max_message_size al (phase d) fin opcode payload).0 ≡ esp_ok)
          × IsSound d.max_message_size fin m
      sound =
          step-IsSound d.max_message_size al (phase d) fin opcode payload m (phase-Proper d)
            (sym r.delivers ∙ there)

  -- So a text message made of bytes that a call hands over is the UTF-8 encoding of a list of
  -- scalar values, under the same conditions.
  pub delivered_text :
      (d : Defrag) (fin : Bool) (opcode : ℕ) (payload : List ℕ)
      → IsValid d
      → d.max_message_size + length payload ≤ int_max
      → (rv : EspErr) (out : Output) (after : Defrag) (m : Message)
      → on_valid_frame realloc d fin opcode payload ≡ returned rv (some out) after
      → message out ≡ some m
      → m.0 ≡ Opcode.text
      → Bytes m.1
      → Encodes m.1
  delivered_text d fin opcode payload v small rv out after m e h t w =
      (accept_iff m.1 w).0
        ((delivered-IsSound d fin opcode payload v small rv out after m e h).1.text t)
