-- ===== src/Esp.antt =====
-- The codes of `esp_err_t` that components/ returns.
use xsp.Prelude.{Bool, true, false}

pub data EspErr : Type 0 where
  esp_ok esp_fail : EspErr
  esp_err_no_mem esp_err_invalid_arg esp_err_invalid_state : EspErr
  esp_err_invalid_size esp_err_timeout esp_err_invalid_response : EspErr

-- `err == ESP_OK`
abbrev pub is_ok : EspErr → Bool
is_ok esp_ok = true
is_ok _ = false
