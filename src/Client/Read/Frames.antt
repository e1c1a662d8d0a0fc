-- ===== src/Client/Read/Frames.antt =====
-- What xsp_ws_client.c reads when a server sends a frame.
use xsp.Prelude.{
  append_assoc, ℕ, ◌/◌, ◌%◌, ◌^◌, ◌≤◌, ◌<◌, ◌≡◌, refl, sym, ap, ◌∙◌, Bool, true, false, not, ◌&&◌,
  List, ◌∷◌, ◌++◌, Option, none, some, arith, leb, if◌then◌else◌, length, take, drop,
}
use mathlib.Core.Path.{subst}
use native.Mathlib.Decide.{dec_lt}
use xsp.Prelude.Int.{int_max}
use xsp.Esp.{EspErr, esp_ok, esp_fail, esp_err_invalid_state}
use xsp.WsTypes.{is_valid_frame_opcode, is_control_frame_opcode}
use xsp.Client.{Transport, Client, state_ok, can_read}
use xsp.Client.Read.{
  Frame, no_frame, read_exactly, read_size, read_header, read_frame, on_size2, on_size8,
}
use xsp.Client.Read.Stream.{Streams, read_exactly-Streams}
use xsp.Client.Read.Server.{
  size_field, size_bytes, server_frame, got, started, Gets, read_payload-Gets, read_header_good,
  read_size_small, on_size2_lem, on_size8_lem,
}

leb-eq_true : (a b : ℕ) → a ≤ b → leb a b ≡ true
leb-eq_true a b h = ground arith

leb-eq_false : (a b : ℕ) → b < a → leb a b ≡ false
leb-eq_false a b h = ground arith

no_control :
    {size : ℕ} (control : Bool) → 125 < size → (control ≡ true → size ≤ 125) → control ≡ false
no_control true h k = absurd (omega (arith, k refl))
no_control false h k = refl

module _ {T : Type 0} (ops : Transport T) (pending : T → List ℕ) (law : Streams ops pending) where
  module _ (buffer_size : ℕ) (fin : Bool) (opcode : ℕ) (payload rest : List ℕ) (client : Client T)
      (ok : client.state ≡ state_ok) (no_early : client.overread_data ≡ none)
      (room : length payload ≤ buffer_size) where
    abbrev frame : Frame
    frame = started fin opcode

    abbrev Result : Option (EspErr × Frame × Client T) → Type 0
    Result = Gets ops pending law (got fin opcode payload) client rest

    small_size :
        (control : Bool) (t : T)
        → length payload ≤ 125
        → pending t ≡ payload ++ rest
        → Result (read_size ops buffer_size frame control (length payload) t client)
    small_size control t le p =
        subst Result
          (sym (
            read_size_small ops pending law buffer_size frame control (length payload) t client le))
          (read_payload-Gets ops pending law buffer_size fin opcode payload rest t client ok
            no_early room p)

    medium_size :
        (t : T)
        → 125 < length payload
        → pending t ≡ (length payload / 2 ^ 8) ∷ (length payload % 2 ^ 8) ∷ (payload ++ rest)
        → Result (read_size ops buffer_size frame false 126 t client)
    unfolding read_size
    medium_size t gt p =
        let (t', e, q) =
          read_exactly-Streams ops pending law client t 2 frame (on_size2 ops buffer_size frame)
            no_early (omega (arith, ap length p)) in
        let c = record client { transport = some t' } in
        subst Result
          (sym (
            e
            ∙ ap (λ bytes. on_size2 ops buffer_size frame (take 2 bytes) t' c) p
            ∙ on_size2_lem ops pending law buffer_size frame (length payload) t' c gt))
          (read_payload-Gets ops pending law buffer_size fin opcode payload rest t' c ok no_early
            room (q ∙ ap (drop 2) p))

    large_size :
        (t : T)
        → 0xffff < length payload
        → length payload ≤ int_max
        → pending t
          ≡ 0
            ∷ 0
            ∷ 0
            ∷ 0
            ∷ (length payload / 2 ^ 24)
            ∷ (length payload / 2 ^ 16 % 2 ^ 8)
            ∷ (length payload / 2 ^ 8 % 2 ^ 8)
            ∷ (length payload % 2 ^ 8)
            ∷ (payload ++ rest)
        → Result (read_size ops buffer_size frame false 127 t client)
    unfolding read_size
    large_size t gt le p =
        let (t', e, q) =
          read_exactly-Streams ops pending law client t 8 frame (on_size8 ops buffer_size frame)
            no_early (omega (arith, ap length p)) in
        let c = record client { transport = some t' } in
        subst Result
          (sym (
            e
            ∙ ap (λ bytes. on_size8 ops buffer_size frame (take 8 bytes) t' c) p
            ∙ on_size8_lem ops pending law buffer_size frame (length payload) t' c gt le))
          (read_payload-Gets ops pending law buffer_size fin opcode payload rest t' c ok no_early
            room (q ∙ ap (drop 8) p))

    -- The size field and all behind it.
    read_size-Gets :
        (control : Bool) (t : T)
        → length payload ≤ int_max
        → (control ≡ true → length payload ≤ 125)
        → pending t ≡ size_bytes (length payload) ++ (payload ++ rest)
        → Result (read_size ops buffer_size frame control (size_field (length payload)) t client)
    read_size-Gets control t small short p = elim (dec_lt 125 (length payload)) [
      | no le ↦ rw (leb-eq_true (length payload) 125 (omega arith)) (
          small_size control t (omega arith)
            (rw (leb-eq_true (length payload) 125 (omega arith)) at p))
      | yes gt ↦
          rw (leb-eq_false (length payload) 125 gt, no_control control gt short)
            (elim (dec_lt 0xffff (length payload)) [
              | no le ↦
                  rw (leb-eq_true (length payload) 0xffff (omega arith))
                    (medium_size t gt (p ∙ ground arith))
              | yes big ↦
                  rw (leb-eq_false (length payload) 0xffff big)
                    (large_size t big small (p ∙ ground arith))
            ])
    ]

  read_frame_open :
      (client : Client T) (t : T) (buffer_size : ℕ)
      → client.transport ≡ some t
      → client.state ≡ state_ok
      → read_frame ops client buffer_size
        ≡ read_exactly ops client t 2 no_frame (read_header ops buffer_size)
  unfolding read_frame
  read_frame_open client t buffer_size e ok =
      ap
        (λ o. elim o [
          | none ↦ some (esp_err_invalid_state, no_frame, client)
          | some t ↦
              if can_read client.state
              then read_exactly ops client t 2 no_frame (read_header ops buffer_size)
              else some (esp_fail, no_frame, client)
        ])
        e
      ∙ ap
          (λ s.
            if can_read s
            then read_exactly ops client t 2 no_frame (read_header ops buffer_size)
            else some (esp_fail, no_frame, client))
          ok

  size_field-small : (size : ℕ) → size_field size < 0x80
  size_field-small size = ground arith

  -- From a transport that delivers a stream, whatever the pieces, an open client that read nothing
  -- too early reads a server's frame, when its opcode is one of RFC 6455, a control frame is final and
  -- has at most 125 bytes, and the payload fits in the buffer and an `int`: the call returns ESP_OK
  -- with the frame's flag, opcode, size and payload, the client is as before, and the transport is
  -- behind the frame.
  pub read_frame-server_frame :
      (client : Client T) (t : T) (buffer_size : ℕ) (fin : Bool) (opcode : ℕ)
      (payload rest : List ℕ)
      → client.transport ≡ some t
      → client.state ≡ state_ok
      → client.overread_data ≡ none
      → is_valid_frame_opcode opcode ≡ true
      → (is_control_frame_opcode opcode && not fin) ≡ false
      → (is_control_frame_opcode opcode ≡ true → length payload ≤ 125)
      → length payload ≤ buffer_size
      → length payload ≤ int_max
      → pending t ≡ server_frame fin opcode payload ++ rest
      → (t' : T) × (read_frame ops client buffer_size
          ≡ some (esp_ok, got fin opcode payload, record client { transport = some t' }))
        × (pending t' ≡ rest)
  read_frame-server_frame client t buffer_size fin opcode payload rest e ok no_early v c short room
        small p =
      let (t', r, q) =
        read_exactly-Streams ops pending law client t 2 no_frame (read_header ops buffer_size)
          no_early (omega (arith, ap length p)) in
      let client' = record client { transport = some t' } in
      subst (Gets ops pending law (got fin opcode payload) client rest)
        (sym (
          read_frame_open client t buffer_size e ok
          ∙ r
          ∙ ap (λ bytes. read_header ops buffer_size (take 2 bytes) t' client') p
          ∙ read_header_good ops pending law buffer_size fin opcode (size_field (length payload)) t'
              client' v c (size_field-small (length payload))))
        (read_size-Gets buffer_size fin opcode payload rest client' ok no_early room
          (is_control_frame_opcode opcode) t' small short
          (q ∙ ap (drop 2) p ∙ append_assoc (size_bytes (length payload)) payload rest))
