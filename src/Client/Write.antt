-- ===== src/Client/Write.antt =====
-- components/xsp_ws_client/xsp_ws_client.c: frames written.
pub mod Format
pub mod Masking
use xsp.Prelude.{
  ℕ, zero, suc, ◌+◌, ◌*◌, ◌/◌, ◌%◌, ◌^◌, Bool, true, false, not, ◌&&◌, ◌||◌, List, [], ◌∷◌, ◌++◌,
  Option, none, some, ltb, leb, ◌==◌, if◌then◌else◌, length, take, drop, get_or,
}
use Prim.Native.Nat.{bit_or, bit_xor}
use xsp.Prelude.Int.{ℤ, pos, negsuc}
use xsp.Esp.{EspErr, esp_ok, esp_fail, esp_err_invalid_arg, esp_err_invalid_state}
use xsp.WsTypes.{is_valid_close_frame_status}
use xsp.WsTypes.Opcode
use xsp.Client.{Transport, Client, failed_no_close, can_write, is_size}

-- The header that `write_frame_header` builds. `0x80 | payload_size` is a sum, as the size is at most
-- 125 there.
unfoldable pub frame_header : Bool → ℕ → ℕ → List ℕ → List ℕ
frame_header fin opcode payload_size masking_key =
    bit_or (if fin then 0x80 else 0) opcode % 256
    ∷ ((if leb payload_size 125
          then (0x80 + payload_size) ∷ []
          else if leb payload_size 0xffff
          then 0xfe ∷ (payload_size / 2 ^ 8 % 256) ∷ (payload_size % 256) ∷ []
          else 0xff
            ∷ 0
            ∷ 0
            ∷ 0
            ∷ 0
            ∷ (payload_size / 2 ^ 24 % 256)
            ∷ (payload_size / 2 ^ 16 % 256)
            ∷ (payload_size / 2 ^ 8 % 256)
            ∷ (payload_size % 256)
            ∷ [])
        ++ masking_key)

-- Bytes from index `i` on, each with its byte of the key.
unfoldable pub mask : List ℕ → ℕ → List ℕ → List ℕ
mask masking_key i [] = []
mask masking_key i (byte ∷ bytes) =
    bit_xor byte (get_or masking_key (i % 4) 0) ∷ mask masking_key (i + 1) bytes

module _ {T : Type 0} (ops : Transport T) (buffer_size : ℕ) where
  -- The loop of `xsp_ws_client_write_frame`, whose buffer has
  -- CONFIG_XSP_WS_CLIENT_WRITE_FRAME_BUFFER_SIZE bytes: whether all was written. `none` is for want of
  -- fuel.
  unfoldable pub write_payload : ℕ → List ℕ → T → List ℕ → Option (Bool × T)
  write_payload fuel masking_key t [] = some (true, t)
  write_payload zero masking_key t (byte ∷ bytes) = none
  write_payload (suc fuel) masking_key t (byte ∷ bytes) =
      let chunk = take buffer_size (byte ∷ bytes) in
      let (t', result) = ops.write t (mask masking_key 0 chunk) in
      let rest = write_payload fuel masking_key t' (drop buffer_size (byte ∷ bytes)) in
      if is_size result (length chunk) then rest else some (false, t')

  -- A failed write leaves the client in this state.
  abbrev pub fail_write : Client T → T → EspErr × Client T
  fail_write client t = (esp_fail, record client { transport = some t; state = failed_no_close })

  -- The function behind its checks of the arguments and of the state.
  unfoldable pub write_on : Client T → T → Bool → ℕ → List ℕ → List ℕ → Option (EspErr × Client T)
  write_on client t fin opcode payload masking_key =
      let header = frame_header fin opcode (length payload) masking_key in
      let (t', result) = ops.write t header in
      let written = write_payload (length payload) masking_key t' payload in
      if is_size result (length header)
      then elim written [
        | none ↦ none
        | some (true, t'') ↦ some (esp_ok, record client { transport = some t'' })
        | some (false, t'') ↦ some (fail_write client t'')
      ]
      else some (fail_write client t')

  -- `xsp_ws_client_write_frame`, whose timeout is not negative, with the `payload_size` bytes.
  unfoldable pub write_frame : Client T → Bool → ℕ → List ℕ → List ℕ → Option (EspErr × Client T)
  write_frame client fin opcode payload masking_key = elim client.transport [
    | none ↦ some (esp_err_invalid_state, client)
    | some t ↦
        if can_write client.state
        then write_on client t fin opcode payload masking_key
        else some (esp_fail, client)
  ]

  -- `xsp_ws_client_write_close_frame`; no reason is the empty one.
  unfoldable pub write_close_frame : Client T → ℕ → List ℕ → List ℕ → Option (EspErr × Client T)
  write_close_frame client status reason masking_key =
      if status == 0
      then if ltb 0 (length reason)
        then some (esp_err_invalid_arg, client)
        else write_frame client true Opcode.connection_close [] masking_key
      else if not (is_valid_close_frame_status status) || ltb 123 (length reason)
      then some (esp_err_invalid_arg, client)
      else write_frame client true Opcode.connection_close
          ((status / 2 ^ 8 % 256) ∷ (status % 256) ∷ reason) masking_key
