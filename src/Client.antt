-- ===== src/Client.antt =====
-- components/xsp_ws_client/xsp_ws_client.c: the frames that the client writes and reads.
--
-- The transport is ESP-IDF's: the operations of `Transport`, on a state of its own. A timeout is passed
-- on to it and has no part here. The random masking key is an argument.
pub mod Write
pub mod Read
pub mod Handshake
pub mod Url
pub mod Session
pub mod Total
pub mod Frees
pub mod TotalWrites
mod Tests
use xsp.Prelude.{
  ℕ, ◌+◌, ◌*◌, ◌/◌, ◌%◌, ◌^◌, Bool, true, false, not, ◌&&◌, ◌||◌, List, [], ◌∷◌, ◌++◌, Option, none,
  some, ltb, leb, ◌==◌, if◌then◌else◌, length, take,
}
use xsp.Prelude.Int.{ℤ, pos, negsuc}
use Prim.Native.Nat.{bit_or}
use xsp.Esp.{EspErr, esp_ok, esp_fail, esp_err_timeout, esp_err_invalid_arg, esp_err_invalid_state}

-- `xsp_ws_client_state_t`
pub data ClientState : Type 0 where
  closed state_ok failed failed_no_close : ClientState

-- `esp_transport_write`, `esp_transport_read` with the bytes read, and the two polls: the state behind
-- the call, and what it returns.
pub record Transport (T : Type 0) : Type 0 where
  pub write : T → List ℕ → T × ℤ
  pub read : T → ℕ → T × ℤ × List ℕ
  pub poll_write : T → T × ℤ
  pub poll_read : T → T × ℤ

-- The fields of `xsp_ws_client_t` that the calls for frames use, and, for what is proved of the memory,
-- how often these calls have freed `overread_data`.
pub record Client (T : Type 0) : Type 0 where
  pub state : ClientState
  pub transport : Option T
  pub overread_data : Option (List ℕ)
  pub overread_size : ℕ
  pub overread_consumed : ℕ
  pub overread_frees : ℕ

unfoldable pub is_ok_or_timeout : EspErr → Bool
is_ok_or_timeout esp_ok = true
is_ok_or_timeout esp_err_timeout = true
is_ok_or_timeout _ = false

abbrev pub can_write : ClientState → Bool
can_write state_ok = true
can_write failed = true
can_write _ = false

abbrev pub can_read : ClientState → Bool
can_read state_ok = true
can_read _ = false

unfoldable pub poll_result_to_esp_err : ℤ → EspErr
poll_result_to_esp_err (pos n) = if n == 0 then esp_err_timeout else esp_ok
poll_result_to_esp_err (negsuc n) = if n == 0 then esp_fail else esp_ok

-- Whether a call returned this size.
abbrev pub is_size : ℤ → ℕ → Bool
is_size (pos m) n = m == n
is_size (negsuc m) n = false

module _ {T : Type 0} where
  -- What the two functions below make of the transport's answer.
  unfoldable pub after_poll_write : Client T → T × ℤ → EspErr × Client T
  unfolding is_ok_or_timeout
  after_poll_write client (t, result) =
      let err = poll_result_to_esp_err result in
      (
        err,
        record client {
          transport = some t;
          state = if is_ok_or_timeout err then client.state else failed_no_close;
        },
      )

  pub after_poll_read : Client T → T × ℤ → EspErr × Client T
  after_poll_read client (t, result) =
      (poll_result_to_esp_err result, record client { transport = some t })

module _ {T : Type 0} (ops : Transport T) where
  -- `xsp_ws_client_poll_write` and `xsp_ws_client_poll_read`, whose timeout is not negative.
  unfoldable pub poll_write : Client T → EspErr × Client T
  unfolding after_poll_write
  poll_write client = elim client.transport [
    | none ↦ (esp_err_invalid_state, client)
    | some t ↦
        if can_write client.state
        then after_poll_write client (ops.poll_write t)
        else (esp_fail, client)
  ]

  unfoldable pub poll_read : Client T → EspErr × Client T
  unfolding after_poll_read
  poll_read client = elim client.transport [
    | none ↦ (esp_err_invalid_state, client)
    | some t ↦
        if can_read client.state
        then if ltb client.overread_consumed client.overread_size
          then (esp_ok, client)
          else after_poll_read client (ops.poll_read t)
        else (esp_fail, client)
  ]

-- `xsp_ws_client_has_buffered_read_data` of a client.
unfoldable pub has_buffered_read_data : {T : Type 0} → Client T → Bool
has_buffered_read_data client = elim client.transport [
  | none ↦ false
  | some t ↦ can_read client.state && ltb client.overread_consumed client.overread_size
]
