-- ===== src/Client/Read/Server.antt =====
-- The frames of a server as RFC 6455 has them, and what xsp_ws_client.c reads of them.
use xsp.Prelude.{
  ℕ, ◌+◌, ◌*◌, ◌/◌, ◌%◌, ◌^◌, ◌≤◌, ◌<◌, ◌≡◌, refl, ap, ◌∙◌, Bool, true, false, not, ◌&&◌, List, [],
  ◌∷◌, ◌++◌, Option, none, some, arith, leb, ◌==◌, ==_iff, ==-eq_false, ltb-eq_false, if◌then◌else◌,
  length, length-append, take, drop, take-length-append, drop-length-append,
}
use xsp.Prelude.Int.{int_max}
use xsp.Esp.{EspErr, esp_ok, esp_fail}
use xsp.WsTypes.{is_valid_frame_opcode, is_control_frame_opcode}
use xsp.Client.{Transport, Client, state_ok}
use xsp.Client.Read.{
  fail_if, give_up, on_size2, on_size8, is_fin, is_bad, on_header, on_payload, Frame, no_frame,
  is_state_ok, read_payload, read_size, read_header,
}
use xsp.Client.Read.Stream.{Streams, read_exactly-Streams}

-- The size field and the bytes behind it, the shortest way.
abbrev pub size_field : ℕ → ℕ
size_field size = if leb size 125 then size else if leb size 0xffff then 126 else 127

abbrev pub size_bytes : ℕ → List ℕ
size_bytes size =
    if leb size 125
    then []
    else if leb size 0xffff
    then (size / 2 ^ 8) ∷ (size % 2 ^ 8) ∷ []
    else 0
      ∷ 0
      ∷ 0
      ∷ 0
      ∷ (size / 2 ^ 24)
      ∷ (size / 2 ^ 16 % 2 ^ 8)
      ∷ (size / 2 ^ 8 % 2 ^ 8)
      ∷ (size % 2 ^ 8)
      ∷ []

-- A frame without a mask.
abbrev pub server_frame : Bool → ℕ → List ℕ → List ℕ
server_frame fin opcode payload =
    ((if fin then 0x80 else 0) + opcode)
    ∷ size_field (length payload)
    ∷ (size_bytes (length payload) ++ payload)

abbrev pub got : Bool → ℕ → List ℕ → Frame
got fin opcode payload = record {
  fin = some fin;
  opcode = some opcode;
  payload_size = some (length payload);
  payload = payload;
}

abbrev pub started : Bool → ℕ → Frame
started fin opcode = record no_frame { fin = some fin; opcode = some opcode }

valid_small : (opcode : ℕ) → is_valid_frame_opcode opcode ≡ true → opcode < 16
unfolding is_valid_frame_opcode
valid_small opcode v = ground arith

fin_bit :
    (fin : Bool) (opcode : ℕ) → opcode < 16 → is_fin ((if fin then 0x80 else 0) + opcode) ≡ fin
fin_bit true opcode h = (==_iff _ _).1 (omega arith)
fin_bit false opcode h = ==-eq_false _ _ (omega arith)

opcode_bits :
    (fin : Bool) (opcode : ℕ) → opcode < 16 → ((if fin then 0x80 else 0) + opcode) % 16 ≡ opcode
opcode_bits true opcode h = omega arith
opcode_bits false opcode h = omega arith

reserved_bits :
    (fin : Bool) (opcode : ℕ) → opcode < 16 → ((if fin then 0x80 else 0) + opcode) / 16 % 8 ≡ 0
reserved_bits true opcode h = omega arith
reserved_bits false opcode h = omega arith

not_bad :
    (fin : Bool) (opcode : ℕ)
    → is_valid_frame_opcode opcode ≡ true
    → (is_control_frame_opcode opcode && not fin) ≡ false
    → is_bad ((if fin then 0x80 else 0) + opcode) ≡ false
unfolding is_bad
not_bad fin opcode v c =
    let h = valid_small opcode v in
    rw
      (
        (==_iff _ _).1 (reserved_bits fin opcode h),
        opcode_bits fin opcode h,
        v,
        fin_bit fin opcode h,
      )
      c

module _ {T : Type 0} (ops : Transport T) (pending : T → List ℕ) (law : Streams ops pending) where
  abbrev pub Gets : Frame → Client T → List ℕ → Option (EspErr × Frame × Client T) → Type 0
  Gets frame client rest answer =
      (t' : T) × (answer ≡ some (esp_ok, frame, record client { transport = some t' }))
      × (pending t' ≡ rest)

  pub read_payload-Gets :
      (buffer_size : ℕ) (fin : Bool) (opcode : ℕ) (payload rest : List ℕ) (t : T)
      (client : Client T)
      → client.state ≡ state_ok
      → client.overread_data ≡ none
      → length payload ≤ buffer_size
      → pending t ≡ payload ++ rest
      → Gets
          (got fin opcode payload)
          client
          rest
          (read_payload ops buffer_size (started fin opcode) (length payload) t client)
  unfolding read_payload
  read_payload-Gets buffer_size fin opcode payload rest t client ok none_early fits p =
      let (t', e, q) =
        read_exactly-Streams ops pending law client t (length payload) frame (on_payload ops frame)
          none_early enough in
      (
        t',
        rw (ltb-eq_false buffer_size (length payload) fits) (e ∙ whole t'),
        q ∙ ap (drop (length payload)) p ∙ drop-length-append payload rest,
      )
    where
      frame : Frame
      frame = record (started fin opcode) { payload_size = some (length payload) }

      enough : length payload ≤ length (pending t)
      enough = omega (arith, ap length p, length-append payload rest)

      taken : take (length payload) (pending t) ≡ payload
      taken = ap (take (length payload)) p ∙ take-length-append payload rest

      whole :
          (t' : T)
          → ◌≡◌ {A = Option (EspErr × Frame × Client T)}
              (some (
                if is_state_ok client.state then esp_ok else esp_fail,
                record (got fin opcode payload) { payload = take (length payload) (pending t) },
                record client { transport = some t' },
              ))
              (some (esp_ok, got fin opcode payload, record client { transport = some t' }))
      whole t' =
          ap
            (λ s. some (
              if is_state_ok s then esp_ok else esp_fail,
              record (got fin opcode payload) { payload = take (length payload) (pending t) },
              record client { transport = some t' },
            ))
            ok
          ∙ ap
              (λ bytes. some (
                esp_ok,
                record (got fin opcode payload) { payload = bytes },
                record client { transport = some t' },
              ))
              taken

  -- The first two bytes of a frame that keeps the rules.
  pub read_header_good :
      (buffer_size : ℕ) (fin : Bool) (opcode size : ℕ) (t : T) (client : Client T)
      → is_valid_frame_opcode opcode ≡ true
      → (is_control_frame_opcode opcode && not fin) ≡ false
      → size < 0x80
      → read_header ops buffer_size (((if fin then 0x80 else 0) + opcode) ∷ size ∷ []) t client
        ≡ read_size ops buffer_size
            (started fin opcode)
            (is_control_frame_opcode opcode)
            size
            t
            client
  unfolding read_header on_header
  read_header_good buffer_size fin opcode size t client v c s =
      ap
        (λ f.
          on_header ops buffer_size f (first % 16) (is_bad first) (size / 0x80 % 2 == 1) size t
            client)
        (fin_bit fin opcode small)
      ∙ ap
          (λ o. on_header ops buffer_size fin o (is_bad first) (size / 0x80 % 2 == 1) size t client)
          (opcode_bits fin opcode small)
      ∙ ap (λ b. on_header ops buffer_size fin opcode b (size / 0x80 % 2 == 1) size t client)
          (not_bad fin opcode v c)
      ∙ ap (λ m. on_header ops buffer_size fin opcode false m size t client) {y = false}
          (==-eq_false (size / 0x80 % 2) 1 (omega arith))
    where
      first : ℕ
      first = (if fin then 0x80 else 0) + opcode

      small : opcode < 16
      small = valid_small opcode v

  pub read_size_small :
      (buffer_size : ℕ) (frame : Frame) (control : Bool) (size : ℕ) (t : T) (client : Client T)
      → size ≤ 125
      → read_size ops buffer_size frame control size t client
        ≡ read_payload ops buffer_size frame size t client
  unfolding read_size
  read_size_small buffer_size frame control size t client h =
      rw (==-eq_false size 126 (omega arith), ==-eq_false size 127 (omega arith)) refl

  pub on_size2_lem :
      (buffer_size : ℕ) (frame : Frame) (size : ℕ) (t : T) (client : Client T)
      → 125 < size
      → on_size2 ops buffer_size frame ((size / 2 ^ 8) ∷ (size % 2 ^ 8) ∷ []) t client
        ≡ read_payload ops buffer_size frame size t client
  on_size2_lem buffer_size frame size t client h =
      ap (λ n. read_payload ops buffer_size frame n t (fail_if ops (leb n 125) client)) {y = size}
        (omega arith)
      ∙ ap (λ b. read_payload ops buffer_size frame size t (fail_if ops b client)) {y = false}
          (ground arith)

  pub on_size8_lem :
      (buffer_size : ℕ) (frame : Frame) (size : ℕ) (t : T) (client : Client T)
      → 0xffff < size
      → size ≤ int_max
      → on_size8 ops buffer_size frame
          (0
            ∷ 0
            ∷ 0
            ∷ 0
            ∷ (size / 2 ^ 24)
            ∷ (size / 2 ^ 16 % 2 ^ 8)
            ∷ (size / 2 ^ 8 % 2 ^ 8)
            ∷ (size % 2 ^ 8)
            ∷ [])
          t
          client
        ≡ read_payload ops buffer_size frame size t client
  on_size8_lem buffer_size frame size t client h k =
      ap
        (λ b.
          if b
          then give_up ops frame client
          else read_payload ops buffer_size frame joined t (fail_if ops (leb joined 0xffff) client))
        {y = false} (rw ((==_iff (size / 2 ^ 24 / 0x80 % 2) 0).1 (omega arith)) refl)
      ∙ ap (λ n. read_payload ops buffer_size frame n t (fail_if ops (leb n 0xffff) client))
          {y = size} (omega arith)
      ∙ ap (λ b. read_payload ops buffer_size frame size t (fail_if ops b client)) {y = false}
          (ground arith)
    where
      joined : ℕ
      joined =
          size / 2 ^ 24 * 2 ^ 24
          + size / 2 ^ 16 % 2 ^ 8 * 2 ^ 16
          + size / 2 ^ 8 % 2 ^ 8 * 2 ^ 8
          + size % 2 ^ 8
