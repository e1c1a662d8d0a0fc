-- ===== src/Defrag/Refine.antt =====
-- The calls of xsp_ws_client_defrag.c do what `Defrag.Spec` says, and keep the invariant.
use xsp.Prelude.{
  ℕ, ◌+◌, ◌≤◌, ◌≡◌, ◌≢◌, refl, Bool, true, false, List, [], ◌++◌, arith, length, Bool-cases, inl,
  inr, ◌==◌, ==_iff,
}
use native.Mathlib.Decide.{ℕ_discrete}
use xsp.Prelude.Int.{int_max}
use xsp.Esp.{esp_fail, esp_err_invalid_response, is_ok}
use xsp.WsTypes.Opcode
use xsp.Utf8.{accept, validate_state}
use xsp.Utf8.Step.{validate_state-append}
use xsp.Defrag.Spec
use xsp.Defrag.Spec.{
  Phase, idle, collecting, discarding, Message, Reply, refuse, store, collect, is_bad_text,
}
use xsp.Defrag.{
  Block, Defrag, Outcome, proceed, goto_fail, check_sequence, check_text, fail, after_sequence,
  on_valid_frame,
}
use xsp.Defrag.Invariant.{
  contents, phase, IsValid, Refines, fail-Refines, Reallocates, allocates, Holds,
}
use xsp.Defrag.Store.{append_payload-Refines}

check_sequence_fails :
    (d : Defrag) (opcode : ℕ)
    → ((d.message_opcode == Opcode.continuation) ≡ (opcode == Opcode.continuation))
    → check_sequence d opcode ≡ goto_fail (record d { message_error = esp_fail })
unfolding check_sequence
check_sequence_fails d opcode h = ground arith

check_sequence_first :
    (d : Defrag) (opcode : ℕ)
    → d.message_opcode ≡ Opcode.continuation
    → opcode ≢ Opcode.continuation
    → check_sequence d opcode
      ≡ proceed (record d { message_opcode = opcode; message_utf8_state = accept })
unfolding check_sequence
check_sequence_first d opcode h n = ground arith

check_sequence_later :
    (d : Defrag) (opcode : ℕ)
    → d.message_opcode ≢ Opcode.continuation
    → opcode ≡ Opcode.continuation
    → check_sequence d opcode ≡ proceed d
unfolding check_sequence
check_sequence_later d opcode n h = ground arith

on_valid_frame_sound :
    (realloc : Block → ℕ → Block) (d : Defrag) (fin : Bool) (opcode : ℕ) (payload : List ℕ)
    → is_ok d.message_error ≡ true
    → on_valid_frame realloc d fin opcode payload
      ≡ after_sequence realloc (check_sequence d opcode) fin payload
unfolding on_valid_frame
on_valid_frame_sound realloc d fin opcode payload h = rw h

pub on_valid_frame_failed :
    (realloc : Block → ℕ → Block) (d : Defrag) (fin : Bool) (opcode : ℕ) (payload : List ℕ)
    → is_ok d.message_error ≡ false
    → on_valid_frame realloc d fin opcode payload ≡ fail d fin
unfolding on_valid_frame
on_valid_frame_failed realloc d fin opcode payload h = rw h

module _ (realloc : Block → ℕ → Block) (law : Reallocates realloc) where
  -- What the checks leave of the invariant, before the payload's text is checked.
  record Begun (d : Defrag) : Type 0 where
    held : Holds d
    sound : is_ok d.message_error ≡ true
    begun : d.message_opcode ≢ Opcode.continuation
    utf8 :
        d.message_opcode ≡ Opcode.text
        → d.message_utf8_state ≡ validate_state accept (contents d.message_data)

  abbrev RefinesCollect : Defrag → List ℕ → Bool → Outcome → Type 0
  RefinesCollect d payload fin o =
      Refines d.max_message_size fin
        (collect d.max_message_size (allocates realloc d payload) d.message_opcode
          (contents d.message_data ++ payload) fin)
        o

  -- The automaton's state for the whole message so far.
  abbrev state_after : Defrag → List ℕ → ℕ
  state_after d payload = validate_state accept (contents d.message_data ++ payload)

  run_whole :
      (d : Defrag) (payload : List ℕ)
      → Begun d
      → d.message_opcode ≡ Opcode.text
      → validate_state d.message_utf8_state payload ≡ state_after d payload
  run_whole d payload b e = rw (b.utf8 e, validate_state-append)

  check_text_bad :
      (d : Defrag) (fin : Bool) (payload : List ℕ)
      → Begun d
      → is_bad_text d.message_opcode fin (contents d.message_data ++ payload) ≡ true
      → check_text d fin payload
        ≡ goto_fail (record d {
          message_utf8_state = state_after d payload;
          message_error = esp_err_invalid_response;
        })
  unfolding check_text
  check_text_bad d fin payload b bad = ground (arith, run_whole d payload b)

  check_text_good :
      (d : Defrag) (fin : Bool) (payload : List ℕ)
      → Begun d
      → is_bad_text d.message_opcode fin (contents d.message_data ++ payload) ≡ false
      → d.message_opcode ≡ Opcode.text
      → check_text d fin payload ≡ proceed (record d { message_utf8_state = state_after d payload })
  unfolding check_text
  check_text_good d fin payload b good e = ground (arith, run_whole d payload b)

  check_text_skip :
      (d : Defrag) (fin : Bool) (payload : List ℕ)
      → d.message_opcode ≢ Opcode.text
      → check_text d fin payload ≡ proceed d
  unfolding check_text
  check_text_skip d fin payload n = ground arith

  after_sequence-Refines :
      (d : Defrag) (fin : Bool) (payload : List ℕ)
      → Begun d
      → d.message_size + length payload ≤ int_max
      → RefinesCollect d payload fin (after_sequence realloc (proceed d) fin payload)
  unfolding after_sequence
  after_sequence-Refines d fin payload b small =
      elim (Bool-cases (is_bad_text d.message_opcode fin (contents d.message_data ++ payload))) [
        | inl bad ↦
            rw (bad, check_text_bad d fin payload b bad, after_sequence)
              (fail-Refines
                (record d {
                  message_utf8_state = state_after d payload;
                  message_error = esp_err_invalid_response;
                })
                fin refl)
        | inr good ↦ rw good (elim (ℕ_discrete d.message_opcode Opcode.text) [
          | yes e ↦
              rw (check_text_good d fin payload b good e, after_sequence)
                (append_payload-Refines realloc law
                  (record d { message_utf8_state = state_after d payload }) fin payload
                  (record {
                    held = record { size = b.held.size; null = b.held.null };
                    sound = b.sound;
                    begun = b.begun;
                    checked = λ _. refl;
                  })
                  small)
          | no n ↦
              rw (check_text_skip d fin payload n, after_sequence)
                (append_payload-Refines realloc law d fin payload
                  (record {
                    held = b.held;
                    sound = b.sound;
                    begun = b.begun;
                    checked = λ q. absurd (n q);
                  })
                  small)
        ])
      ]

  fresh-Begun :
      (d : Defrag) (opcode : ℕ)
      → IsValid d
      → is_ok d.message_error ≡ true
      → d.message_size ≡ 0
      → opcode ≢ Opcode.continuation
      → Begun (record d { message_opcode = opcode; message_utf8_state = accept })
  unfolding validate_state
  fresh-Begun d opcode v sound z n = record {
    held = record { size = v.size; null = v.null };
    sound = sound;
    begun = n;
    utf8 = λ _. rw (v.null z);
  }

  -- Without an error pending, by what has been collected.
  first_frame :
      (d : Defrag) (fin : Bool) (opcode : ℕ) (payload : List ℕ)
      → IsValid d
      → is_ok d.message_error ≡ true
      → d.message_opcode ≡ Opcode.continuation
      → d.max_message_size + length payload ≤ int_max
      → Refines d.max_message_size fin
          (Spec.step d.max_message_size (allocates realloc d payload) idle fin opcode payload)
          (after_sequence realloc (check_sequence d opcode) fin payload)
  unfolding Spec.step after_sequence fail
  first_frame d fin opcode payload v sound e small =
      elim (Bool-cases (opcode == Opcode.continuation)) [
        | inl c ↦
            rw (check_sequence_fails d opcode (ground arith), c)
              (fail-Refines (record d { message_error = esp_fail }) fin refl)
        | inr n ↦
            rw (check_sequence_first d opcode e (ground arith), n)
              (rw nothing at (
                after_sequence-Refines
                  (record d { message_opcode = opcode; message_utf8_state = accept }) fin payload
                  (fresh-Begun d opcode v sound (v.empty e) (ground arith))
                  (omega (arith, v.within))))
      ]
    where
      nothing : contents d.message_data ≡ []
      nothing = rw (v.null (v.empty e))

  later_frame :
      (d : Defrag) (fin : Bool) (opcode : ℕ) (payload : List ℕ)
      → IsValid d
      → is_ok d.message_error ≡ true
      → d.message_opcode ≢ Opcode.continuation
      → d.max_message_size + length payload ≤ int_max
      → Refines d.max_message_size fin
          (Spec.step d.max_message_size
            (allocates realloc d payload)
            (collecting d.message_opcode (contents d.message_data))
            fin
            opcode
            payload)
          (after_sequence realloc (check_sequence d opcode) fin payload)
  unfolding Spec.step after_sequence fail
  later_frame d fin opcode payload v sound ne small =
      elim (Bool-cases (opcode == Opcode.continuation)) [
        | inr n ↦
            rw (check_sequence_fails d opcode (ground arith), n)
              (fail-Refines (record d { message_error = esp_fail }) fin refl)
        | inl c ↦
            rw (check_sequence_later d opcode ne (ground arith), c)
              (after_sequence-Refines d fin payload
                (record {
                  held = record { size = v.size; null = v.null };
                  sound = sound;
                  begun = ne;
                  utf8 = v.utf8;
                })
                (omega (arith, v.within)))
      ]

  -- With room for the largest message in an `int`, each call behind the argument checks returns the
  -- code, the message and the phase of the specification, and keeps the invariant.
  pub on_valid_frame-Refines :
      (d : Defrag) (fin : Bool) (opcode : ℕ) (payload : List ℕ)
      → IsValid d
      → d.max_message_size + length payload ≤ int_max
      → Refines d.max_message_size fin
          (Spec.step d.max_message_size (allocates realloc d payload) (phase d) fin opcode payload)
          (on_valid_frame realloc d fin opcode payload)
  on_valid_frame-Refines d fin opcode payload v small = elim (Bool-cases (is_ok d.message_error)) [
    | inr failed ↦
        rw (failed, on_valid_frame_failed realloc d fin opcode payload failed)
          (unfold Spec.step in fail-Refines d fin failed)
    | inl sound ↦
        rw (sound, on_valid_frame_sound realloc d fin opcode payload sound)
          (elim (Bool-cases (d.message_opcode == Opcode.continuation)) [
            | inl e ↦ rw e (first_frame d fin opcode payload v sound ((==_iff _ _).0 e) small)
            | inr n ↦ rw n (later_frame d fin opcode payload v sound (ground arith) small)
          ])
  ]
