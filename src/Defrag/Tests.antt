-- ===== src/Defrag/Tests.antt =====
-- Runs of xsp_ws_client_defrag.c, with a `realloc` that fills with zeros.
use xsp.Prelude.{ℕ, ◌≡◌, refl, true, false, List, [], ◌∷◌, none, some, arith, length}
use xsp.Prelude.Int.{pos}
use xsp.Esp.{esp_ok, esp_fail, esp_err_invalid_response, esp_err_invalid_size}
use xsp.WsTypes.Opcode
use xsp.Utf8.{accept, utf8d, step, validate_state}
use xsp.Utf8.Scalar.{encode, encode_all}
use xsp.Utf8.Sound.{Encodes}
use xsp.Defrag.{
  Defrag, init, check_sequence, check_text, fail, finish, grow, append_payload, after_sequence,
  on_valid_frame,
}
use xsp.Defrag.Spec
use xsp.Defrag.Spec.{idle}
use xsp.Defrag.Invariant.{phase, IsValid, Refines, allocates}
use xsp.Defrag.Refine.{on_valid_frame-Refines}
use xsp.Defrag.Realloc.{resize, resize-Reallocates}
use xsp.Defrag.Message.{IsSound, delivered-IsSound, delivered_text}
use xsp.Defrag.Assembly.{
  Frame, feed, fragments, whole, in_order, refused, reassembles, discards_until_final,
}

-- Messages of at most six bytes.
abbrev fresh : Defrag
fresh = record {
  max_message_size = 6;
  message_error = esp_ok;
  message_opcode = Opcode.continuation;
  message_utf8_state = accept;
  message_size = 0;
  message_data = none;
}

init-fresh : (init (some (pos 6)) true ≡ some fresh) × (init (some (pos 0)) true ≡ none)
unfolding init
init-fresh = (refl, refl)

fresh-IsValid : IsValid fresh
fresh-IsValid = record {
  size = refl;
  null = λ h. refl;
  within = omega arith;
  empty = λ h. refl;
  failed = λ h. ground arith;
  utf8 = λ h. ground arith;
}

-- The euro sign, cut in its middle.
abbrev first_half : List ℕ
first_half = 0xe2 ∷ 0x82 ∷ []

abbrev second_half : List ℕ
second_half = 0xac ∷ []

euro-Encodes : Encodes (0xe2 ∷ 0x82 ∷ 0xac ∷ [])
unfolding encode encode_all
euro-Encodes = (0x20ac ∷ [], (omega arith, tt), refl)

abbrev failed : Defrag
failed = record fresh { message_error = esp_fail }

on_valid_frame-Refines_example :
    Refines 6 true
      (Spec.step 6 (allocates resize fresh first_half) (phase fresh) true Opcode.text first_half)
      (on_valid_frame resize fresh true Opcode.text first_half)
on_valid_frame-Refines_example =
    on_valid_frame-Refines resize resize-Reallocates fresh true Opcode.text first_half fresh-IsValid
      (omega arith)

reassembles_here :
    (after : Defrag) × (feed resize fresh (fragments Opcode.text first_half (second_half ∷ []))
      ≡ some
          (in_order (second_half ∷ []) (Opcode.text, whole first_half (second_half ∷ [])), after))
    × (phase after ≡ idle)
    × IsValid after
unfolding whole
reassembles_here =
    reassembles resize resize-Reallocates (λ b n. refl) fresh Opcode.text first_half
      (second_half ∷ []) fresh-IsValid refl (ground arith) (omega arith) (omega arith) (omega arith)
      (λ h. euro-Encodes)

-- The whole run, by evaluation.
run_example :
    ((feed resize fresh (fragments Opcode.text first_half (second_half ∷ [])))
      ≡ some (
        (esp_ok, none) ∷ (esp_ok, some (Opcode.text, 0xe2 ∷ 0x82 ∷ 0xac ∷ [])) ∷ [],
        record fresh { message_utf8_state = accept },
      ))
    × (feed resize fresh (fragments Opcode.text first_half [])
        ≡ some ((esp_err_invalid_response, none) ∷ [], record fresh { message_utf8_state = 24 }))
    × (feed resize fresh (fragments Opcode.binary (1 ∷ 2 ∷ 3 ∷ 4 ∷ 5 ∷ 6 ∷ 7 ∷ []) ([] ∷ []))
        ≡ some ((esp_err_invalid_size, none) ∷ (esp_err_invalid_size, none) ∷ [], fresh))
unfolding feed fragments on_valid_frame check_sequence check_text append_payload after_sequence fail
    finish grow validate_state step utf8d
run_example = (refl, refl, refl)

abbrev seven : List ℕ
seven = 7 ∷ []

delivered-IsSound_example :
    (esp_ok ≡ esp_ok) × IsSound 6 true (Opcode.binary, 7 ∷ []) × (length seven ≡ length seven)
unfolding on_valid_frame check_sequence check_text append_payload after_sequence fail finish grow
delivered-IsSound_example =
    delivered-IsSound resize resize-Reallocates fresh true Opcode.binary (7 ∷ []) fresh-IsValid
      (omega arith) esp_ok
      (record {
        done = true;
        message_opcode = some Opcode.binary;
        message_size = 1;
        message_data = some (7 ∷ []);
      })
      (record fresh { message_utf8_state = accept }) (Opcode.binary, 7 ∷ []) refl refl

delivered_text_here : Encodes (72 ∷ [])
unfolding on_valid_frame check_sequence check_text append_payload after_sequence fail finish grow
    validate_state step utf8d
delivered_text_here =
    delivered_text resize resize-Reallocates fresh true Opcode.text (72 ∷ []) fresh-IsValid
      (omega arith) esp_ok
      (record {
        done = true;
        message_opcode = some Opcode.text;
        message_size = 1;
        message_data = some (72 ∷ []);
      })
      (record fresh { message_utf8_state = accept }) (Opcode.text, 72 ∷ []) refl refl refl
      (omega arith)

abbrev lost : Frame
lost = record { fin = false; opcode = Opcode.binary; payload = 1 ∷ [] }

abbrev last : Frame
last = record { fin = true; opcode = Opcode.text; payload = 72 ∷ [] }

discards_until_final_here :
    (after : Defrag) × (feed resize failed (lost ∷ last ∷ [])
      ≡ some ((esp_fail, none) ∷ (esp_fail, none) ∷ [], after))
    × (phase after ≡ idle)
    × IsValid after
unfolding refused
discards_until_final_here = discards_until_final resize failed (lost ∷ []) last refl (refl, tt) refl
