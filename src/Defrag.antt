-- ===== src/Defrag.antt =====
-- components/xsp_ws_client/xsp_ws_client_defrag.c: data frames in, whole messages out.
--
-- A block of memory is the list of its bytes, and a null pointer is `none`. `realloc` is the C
-- library's: an argument, of which `Defrag.Refine` assumes what the C standard says.
pub mod Realloc
pub mod Spec
pub mod Invariant
pub mod Store
pub mod Refine
pub mod Message
pub mod Assembly
mod Tests
use xsp.Prelude.{
  ℕ, ◌+◌, Bool, true, false, not, ◌&&◌, ◌||◌, List, [], ◌++◌, Option, none, some, ltb, leb, ◌==◌,
  if◌then◌else◌, length, take, memcpy,
}
use xsp.Prelude.Int.{ℤ, pos, negsuc, int_max}
use xsp.Esp.{
  EspErr, esp_ok, esp_fail, esp_err_no_mem, esp_err_invalid_arg, esp_err_invalid_size,
  esp_err_invalid_response, is_ok,
}
use xsp.WsTypes.{is_data_frame_opcode}
use xsp.WsTypes.Opcode
use xsp.Utf8.{accept, reject, validate_state}

abbrev pub Block : Type 0
Block = Option (List ℕ)

-- `xsp_ws_client_defrag_t`, with its configuration's one field.
pub record Defrag : Type 0 where
  pub max_message_size : ℕ
  pub message_error : EspErr
  pub message_opcode : ℕ
  pub message_utf8_state : ℕ
  pub message_size : ℕ
  pub message_data : Block

-- `xsp_ws_client_defrag_init`; the last argument says whether `malloc` succeeds.
pub init : Option ℤ → Bool → Option Defrag
init none allocated = none
init (some (negsuc n)) allocated = none
init (some (pos n)) allocated =
    if ltb n 1
    then none
    else if allocated
    then some (record {
      max_message_size = n;
      message_error = esp_ok;
      message_opcode = Opcode.continuation;
      message_utf8_state = accept;
      message_size = 0;
      message_data = none;
    })
    else none

-- What a call writes through its four out-pointers; `*message_opcode` only with a message.
pub record Output : Type 0 where
  pub done : Bool
  pub message_opcode : Option ℕ
  pub message_size : ℕ
  pub message_data : Block

pub data Outcome : Type 0 where
  returned : EspErr → Option Output → Defrag → Outcome
  -- A signed addition overflows.
  undefined : Outcome

-- Where the function stands after a check: on, or at the label `fail`.
pub data Checked : Type 0 where
  proceed : Defrag → Checked
  goto_fail : Defrag → Checked

pub check_sequence : Defrag → ℕ → Checked
check_sequence d opcode =
    if d.message_opcode == Opcode.continuation
    then if opcode == Opcode.continuation
      then goto_fail (record d { message_error = esp_fail })
      else proceed (record d { message_opcode = opcode; message_utf8_state = accept })
    else if opcode == Opcode.continuation
    then proceed d
    else goto_fail (record d { message_error = esp_fail })

pub check_text : Defrag → Bool → List ℕ → Checked
check_text d fin payload =
    let state = validate_state d.message_utf8_state payload in
    let d' = record d { message_utf8_state = state } in
    if d.message_opcode == Opcode.text
    then if state == reject || (fin && not (state == accept))
      then goto_fail (record d' { message_error = esp_err_invalid_response })
      else proceed d'
    else proceed d

-- The code behind the label `fail`.
pub fail : Defrag → Bool → Outcome
fail d fin =
    returned d.message_error
      (some (record { done = fin; message_opcode = none; message_size = 0; message_data = none }))
      (record d {
        message_opcode = Opcode.continuation;
        message_size = 0;
        message_data = none;
        message_error = if fin then esp_ok else d.message_error;
      })

-- The code from "Success!" on.
pub finish : Defrag → Bool → ℕ → Block → Outcome
finish d fin new_size new_data =
    if fin
    then returned esp_ok
        (some (record {
          done = fin;
          message_opcode = some d.message_opcode;
          message_size = new_size;
          message_data = new_data;
        }))
        (record d { message_opcode = Opcode.continuation; message_size = 0; message_data = none })
    else returned esp_ok
        (some (record { done = fin; message_opcode = none; message_size = 0; message_data = none }))
        (record d { message_size = new_size; message_data = new_data })

module _ (realloc : Block → ℕ → Block) where
  -- The allocation and the copy: `none` if the allocation failed.
  pub grow : Defrag → List ℕ → ℕ → Option Block
  grow d payload new_size =
      if ltb 0 new_size
      then elim (realloc d.message_data new_size) [
        | none ↦ none
        | some block ↦ some (some (memcpy block d.message_size payload))
      ]
      else some none

  pub append_payload : Defrag → Bool → List ℕ → Outcome
  unfolding fail finish grow
  append_payload d fin payload =
      let new_size = d.message_size + length payload in
      if ltb int_max new_size
      then undefined
      else if ltb d.max_message_size new_size
      then fail (record d { message_error = esp_err_invalid_size }) fin
      else elim (grow d payload new_size) [
        | none ↦ fail (record d { message_error = esp_err_no_mem }) fin
        | some new_data ↦ finish d fin new_size new_data
      ]

  pub after_sequence : Checked → Bool → List ℕ → Outcome
  after_sequence (goto_fail d) fin payload = fail d fin
  after_sequence (proceed d) fin payload = elim (check_text d fin payload) [
    | goto_fail d' ↦ fail d' fin
    | proceed d' ↦ append_payload d' fin payload
  ]

  -- The function behind its argument checks: the payload's `payload_size` bytes are the list.
  unfoldable pub on_valid_frame : Defrag → Bool → ℕ → List ℕ → Outcome
  unfolding check_sequence check_text append_payload after_sequence
  on_valid_frame d fin opcode payload =
      if is_ok d.message_error
      then after_sequence (check_sequence d opcode) fin payload
      else fail d fin

  -- `xsp_ws_client_defrag_on_data_frame`, which reads the first `payload_size` bytes of `payload`.
  -- The last argument says that none of the four out-pointers is null.
  pub on_data_frame : Defrag → Bool → ℕ → ℤ → Block → Bool → Outcome
  unfolding on_valid_frame is_data_frame_opcode
  on_data_frame d fin opcode (negsuc n) payload outputs = returned esp_err_invalid_arg none d
  on_data_frame d fin opcode (pos n) none outputs =
      if not (is_data_frame_opcode opcode) || not (n == 0) || not outputs
      then returned esp_err_invalid_arg none d
      else on_valid_frame d fin opcode []
  on_data_frame d fin opcode (pos n) (some bytes) outputs =
      if not (is_data_frame_opcode opcode) || not outputs
      then returned esp_err_invalid_arg none d
      else on_valid_frame d fin opcode (take n bytes)
