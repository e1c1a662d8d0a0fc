-- ===== src/Client/Read.antt =====
-- components/xsp_ws_client/xsp_ws_client.c: frames read.
pub mod Source
pub mod Stream
pub mod Server
pub mod Frames
use xsp.Prelude.{
  ℕ, zero, suc, ◌+◌, ◌-◌, ◌*◌, ◌/◌, ◌%◌, ◌^◌, Bool, true, false, not, ◌&&◌, ◌||◌, List, [], ◌++◌,
  Option, none, some, ltb, leb, ◌==◌, if◌then◌else◌, length, take, drop, get_or, min,
}
use xsp.Prelude.Int.{ℤ, pos, negsuc}
use xsp.Esp.{EspErr, esp_ok, esp_fail, esp_err_invalid_state}
use xsp.WsTypes.{is_valid_frame_opcode, is_control_frame_opcode}
use xsp.Client.{Transport, Client, ClientState, state_ok, failed, failed_no_close, can_read}

-- Whether the client has not failed.
abbrev pub is_state_ok : ClientState → Bool
is_state_ok state_ok = true
is_state_ok _ = false

-- What `xsp_ws_client_read_frame` has written through its out-pointers when it returns; the payload
-- only if all of it was read.
pub record Frame : Type 0 where
  pub fin : Option Bool
  pub opcode : Option ℕ
  pub payload_size : Option ℕ
  pub payload : List ℕ

abbrev pub no_frame : Frame
no_frame = record { fin = none; opcode = none; payload_size = none; payload = [] }

-- How many bytes `esp_transport_read` says it read; 0 where the source has `result <= 0`.
abbrev pub read_count : ℤ → ℕ
read_count (pos n) = n
read_count (negsuc n) = 0

-- Four bytes of a size that fits in an `int`, most significant first.
abbrev pub size_of : List ℕ → ℕ
size_of header =
    get_or header 4 0 * 2 ^ 24
    + get_or header 5 0 * 2 ^ 16
    + get_or header 6 0 * 2 ^ 8
    + get_or header 7 0

abbrev pub is_too_big : List ℕ → Bool
is_too_big header =
    not (get_or header 0 0 == 0)
    || not (get_or header 1 0 == 0)
    || not (get_or header 2 0 == 0)
    || not (get_or header 3 0 == 0)
    || not (get_or header 4 0 / 0x80 % 2 == 0)

abbrev pub is_fin : ℕ → Bool
is_fin first = first / 0x80 % 2 == 1

-- Whether the first byte of a frame breaks a rule: reserved bits, an opcode that is none, a fragment
-- of a control frame.
unfoldable pub is_bad : ℕ → Bool
is_bad first =
    not (first / 16 % 8 == 0)
    || not (is_valid_frame_opcode (first % 16))
    || (is_control_frame_opcode (first % 16) && not (is_fin first))

module _ {T : Type 0} (ops : Transport T) where
  -- The loop of `read_data`: the bytes so far and how many are still wanted. The result is `none` for
  -- the source's -1; the outer `none` is for want of fuel.
  unfoldable pub read_more : ℕ → T → List ℕ → ℕ → Option (Option (List ℕ) × T)
  read_more fuel t done zero = some (some done, t)
  read_more zero t done (suc wanted) = none
  read_more (suc fuel) t done (suc wanted) =
      let (t', result, bytes) = ops.read t (suc wanted) in
      let rest = read_more fuel t' (done ++ bytes) (suc wanted - read_count result) in
      if read_count result == 0
      then some (if ltb 0 (length done) then some done else none, t')
      else rest

  -- The part of `read_data` that takes what the handshake read too much; `none` where more was consumed
  -- than there is, and memcpy gets a negative size.
  unfoldable pub take_overread : Client T → ℕ → Option (List ℕ × Client T)
  take_overread client size = elim client.overread_data [
    | none ↦ some ([], client)
    | some block ↦
        if ltb client.overread_size client.overread_consumed
        then none
        else let size_read = min size (client.overread_size - client.overread_consumed) in
          let consumed = client.overread_consumed + size_read in
          some (
            take size_read (drop client.overread_consumed block),
            record client {
              overread_consumed = consumed;
              overread_data = if consumed == client.overread_size then none else some block;
              overread_frees =
                  if consumed == client.overread_size
                  then client.overread_frees + 1
                  else client.overread_frees;
            },
          )
  ]

  -- `read_data` behind that.
  unfoldable pub read_rest : ℕ → T → List ℕ × Client T → Option (Option (List ℕ) × T × Client T)
  read_rest size t (early, client) = elim (read_more size t early (size - length early)) [
    | none ↦ none
    | some (bytes, t') ↦ some (bytes, t', record client { transport = some t' })
  ]

  -- `read_data` at a client with the transport `t`; `none` also where memcpy gets a negative size.
  unfoldable pub read_data : Client T → T → ℕ → Option (Option (List ℕ) × T × Client T)
  read_data client t size = elim (take_overread client size) [
    | none ↦ none
    | some taken ↦ read_rest size t taken
  ]

  abbrev pub Answer : Type 0
  Answer = Option (EspErr × Frame × Client T)

  abbrev pub give_up : Frame → Client T → Answer
  give_up frame client = some (esp_fail, frame, record client { state = failed_no_close })

  -- On with exactly `size` bytes, or out with the client failed.
  unfoldable pub read_exactly : Client T → T → ℕ → Frame → (List ℕ → T → Client T → Answer) → Answer
  read_exactly client t size frame go_on = elim (read_data client t size) [
    | none ↦ none
    | some (none, t', client') ↦ give_up frame client'
    | some (some bytes, t', client') ↦
        if length bytes == size then go_on bytes t' client' else give_up frame client'
  ]

  -- The state is set to failed, and reading goes on.
  abbrev pub fail_if : Bool → Client T → Client T
  fail_if fails client = record client { state = if fails then failed else client.state }

  -- Behind the payload.
  abbrev pub on_payload : Frame → List ℕ → T → Client T → Answer
  on_payload frame bytes t client = some (
    if is_state_ok client.state then esp_ok else esp_fail,
    record frame { payload = bytes },
    client,
  )

  -- From `*payload_size = size` on.
  unfoldable pub read_payload : ℕ → Frame → ℕ → T → Client T → Answer
  unfolding read_exactly
  read_payload buffer_size frame size t client =
      let frame' = record frame { payload_size = some size } in
      if ltb buffer_size size
      then give_up frame' client
      else read_exactly client t size frame' (on_payload frame')

  -- Behind `header2`, of two bytes and of eight.
  abbrev pub on_size2 : ℕ → Frame → List ℕ → T → Client T → Answer
  on_size2 buffer_size frame header t client =
      let size = get_or header 0 0 * 2 ^ 8 + get_or header 1 0 in
      read_payload buffer_size frame size t (fail_if (leb size 125) client)

  abbrev pub on_size8 : ℕ → Frame → List ℕ → T → Client T → Answer
  on_size8 buffer_size frame header t client =
      if is_too_big header
      then give_up frame client
      else read_payload buffer_size frame (size_of header) t
          (fail_if (leb (size_of header) 0xffff) client)

  -- From `int size = header1[1]` on.
  unfoldable pub read_size : ℕ → Frame → Bool → ℕ → T → Client T → Answer
  unfolding read_exactly
  read_size buffer_size frame is_control size t client =
      if size == 126
      then read_exactly (fail_if is_control client) t 2 frame (on_size2 buffer_size frame)
      else if size == 127
      then read_exactly (fail_if is_control client) t 8 frame (on_size8 buffer_size frame)
      else read_payload buffer_size frame size t client

  -- With the two bytes of `header1` taken apart.
  unfoldable pub on_header : ℕ → Bool → ℕ → Bool → Bool → ℕ → T → Client T → Answer
  on_header buffer_size fin opcode bad masked size t client =
      let frame = record no_frame { fin = some fin; opcode = some opcode } in
      if masked
      then give_up frame (fail_if bad client)
      else read_size buffer_size frame (is_control_frame_opcode opcode) size t (fail_if bad client)

  -- From the two bytes of `header1` on.
  unfoldable pub read_header : ℕ → List ℕ → T → Client T → Answer
  unfolding on_header
  read_header buffer_size header t client =
      let first = get_or header 0 0 in
      on_header buffer_size (is_fin first) (first % 16) (is_bad first)
        (get_or header 1 0 / 0x80 % 2 == 1) (get_or header 1 0) t client

  -- `xsp_ws_client_read_frame` behind its argument checks, with a payload buffer of `buffer_size`
  -- bytes.
  unfoldable pub read_frame : Client T → ℕ → Answer
  unfolding read_exactly
  read_frame client buffer_size = elim client.transport [
    | none ↦ some (esp_err_invalid_state, no_frame, client)
    | some t ↦
        if can_read client.state
        then read_exactly client t 2 no_frame (read_header buffer_size)
        else some (esp_fail, no_frame, client)
  ]
