-- ===== src/Defrag/Spec.antt =====
-- What components/xsp_ws_client/include/xsp_ws_client_defrag.h promises, over the bytes collected so
-- far: no sizes, no blocks and no automaton's state between the calls.
use xsp.Prelude.{
  ℕ, Bool, not, ◌&&◌, ◌||◌, List, ◌++◌, Option, none, some, ltb, ◌==◌, if◌then◌else◌, length,
}
use xsp.Esp.{
  EspErr, esp_ok, esp_fail, esp_err_no_mem, esp_err_invalid_size, esp_err_invalid_response,
}
use xsp.WsTypes.Opcode
use xsp.Utf8.{accept, reject, validate_state}

pub data Phase : Type 0 where
  idle : Phase
  collecting : ℕ → List ℕ → Phase
  discarding : EspErr → Phase

-- The opcode of a message's first frame, and its bytes.
abbrev pub Message : Type 0
Message = ℕ × List ℕ

-- The code returned, the message completed, and what comes next.
abbrev pub Reply : Type 0
Reply = EspErr × Option Message × Phase

abbrev pub refuse : EspErr → Bool → Reply
refuse e fin = (e, none, if fin then idle else discarding e)

-- Text that no further bytes, or at the end no bytes at all, make valid.
abbrev pub is_bad_text : ℕ → Bool → List ℕ → Bool
is_bad_text opcode fin bytes =
    opcode == Opcode.text
    && (validate_state accept bytes == reject
        || (fin && not (validate_state accept bytes == accept)))

module _ (max_message_size : ℕ) (allocated : Bool) where
  abbrev pub store : ℕ → List ℕ → Bool → Reply
  store opcode bytes fin =
      if ltb max_message_size (length bytes)
      then refuse esp_err_invalid_size fin
      else if ltb 0 (length bytes) && not allocated
      then refuse esp_err_no_mem fin
      else if fin
      then (esp_ok, some (opcode, bytes), idle)
      else (esp_ok, none, collecting opcode bytes)

  abbrev pub collect : ℕ → List ℕ → Bool → Reply
  collect opcode bytes fin =
      if is_bad_text opcode fin bytes
      then refuse esp_err_invalid_response fin
      else store opcode bytes fin

  -- One data frame.
  unfoldable pub step : Phase → Bool → ℕ → List ℕ → Reply
  step idle fin opcode payload =
      if opcode == Opcode.continuation then refuse esp_fail fin else collect opcode payload fin
  step (collecting first bytes) fin opcode payload =
      if opcode == Opcode.continuation
      then collect first (bytes ++ payload) fin
      else refuse esp_fail fin
  step (discarding e) fin opcode payload = refuse e fin
