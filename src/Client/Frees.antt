-- ===== src/Client/Frees.antt =====
-- What reads and writes of xsp_ws_client.c free of what the handshake read too much.
use xsp.Prelude.{
  if_both, option_both, ℕ, ◌+◌, ◌≤◌, ◌≡◌, refl, ap, Bool, true, false, not, ◌||◌, List, [], Option,
  none, some, arith, ltb, ◌==◌, if◌then◌else◌, length, min, get_or, ◌/◌, ◌%◌, ◌-◌,
}
use xsp.Esp.{EspErr, esp_ok}
use xsp.WsTypes.Opcode
use xsp.WsTypes.{is_valid_close_frame_status}
use xsp.Client.{Transport, Client, can_read, can_write, is_size, poll_write, poll_read}
use xsp.Client.Read.{
  Frame, is_too_big, take_overread, read_more, read_rest, read_data, Answer, give_up, read_exactly,
  fail_if, read_payload, on_size2, on_size8, read_size, on_header, read_header, read_frame,
  no_frame,
}
use xsp.Client.Write.{
  fail_write, write_on, write_frame, write_close_frame, frame_header, write_payload,
}

-- How many blocks of data that was read too much there are.
abbrev pub held : Option (List ℕ) → ℕ
held none = 0
held (some bytes) = 1

-- Each block that is gone was freed once, and nothing else was.
pub record Conserves {T : Type 0} (before after : Client T) : Type 0 where
  pub conserved :
      held after.overread_data + after.overread_frees
      ≡ held before.overread_data + before.overread_frees
  pub grows : before.overread_frees ≤ after.overread_frees

abbrev pub After : {T R : Type 0} → Client T → Option (R × Client T) → Type 0
After before none = Unit
After before (some (r, after)) = Conserves before after

-- The same of a call that reads a frame.
abbrev pub AfterRead : {T : Type 0} → Client T → Option (EspErr × Frame × Client T) → Type 0
AfterRead before none = Unit
AfterRead before (some (err, frame, after)) = Conserves before after

taken_block :
    (b : Bool) (block : List ℕ) (frees : ℕ)
    → (held (if b then none else some block) + (if b then frees + 1 else frees) ≡ 1 + frees)
      × (frees ≤ (if b then frees + 1 else frees))
taken_block true block frees = (omega arith, omega arith)
taken_block false block frees = (omega arith, omega arith)

module _ {T : Type 0} where
  pub Conserves-refl : (client : Client T) → Conserves client client
  Conserves-refl client = record { conserved = refl; grows = omega arith }

module _ {T : Type 0} (ops : Transport T) (before : Client T) where
  took-Conserves :
      (client : Client T) (gone : Bool) (block : List ℕ) (consumed : ℕ)
      → client.overread_data ≡ some block
      → Conserves before client
      → Conserves before (record client {
        overread_consumed = consumed;
        overread_data = if gone then none else some block;
        overread_frees = if gone then client.overread_frees + 1 else client.overread_frees;
      })
  took-Conserves client gone block consumed e k =
      let (one, fewer) = taken_block gone block client.overread_frees in
      record {
        conserved = omega (arith, k.conserved, ap held e, one);
        grows = omega (arith, k.grows, fewer);
      }

  take_overread-After :
      (client : Client T) (size : ℕ)
      → Conserves before client
      → After before (take_overread ops client size)
  unfolding take_overread
  take_overread-After client size k =
      option_both (After before) client.overread_data _ _ (λ e. k)
        (λ block e.
          if_both (After before) (ltb client.overread_size client.overread_consumed) _ _ (λ e'. tt)
            (λ e'.
              took-Conserves client _ block
                (client.overread_consumed
                  + min size (client.overread_size - client.overread_consumed))
                e k))

  -- What `read_exactly` makes of what was read.
  finish_read :
      ℕ
      → Frame
      → (List ℕ → T → Client T → Answer ops)
      → Option (Option (List ℕ) × T × Client T)
      → Answer ops
  finish_read size frame go_on o = elim o [
    | none ↦ none
    | some (none, t, client) ↦ give_up ops frame client
    | some (some bytes, t, client) ↦
        if length bytes == size then go_on bytes t client else give_up ops frame client
  ]

  abbrev Goes : (List ℕ → T → Client T → Answer ops) → Type 0
  Goes go_on =
      (bytes : List ℕ) (t : T) (client : Client T)
      → Conserves before client
      → AfterRead before (go_on bytes t client)

  give_up-AfterRead :
      (frame : Frame) (client : Client T)
      → Conserves before client
      → AfterRead before (give_up ops frame client)
  give_up-AfterRead frame client k = record { conserved = k.conserved; grows = k.grows }

  read_rest-AfterRead :
      (size : ℕ) (t : T) (frame : Frame) (go_on : List ℕ → T → Client T → Answer ops)
      (p : List ℕ × Client T)
      → Conserves before p.1
      → Goes go_on
      → AfterRead before (finish_read size frame go_on (read_rest ops size t p))
  unfolding read_rest finish_read
  read_rest-AfterRead size t frame go_on (early, client) k g =
      with_bytes (read_more ops size t early (size - length early))
    where
      with_bytes :
          (o : Option (Option (List ℕ) × T))
          → AfterRead before (
              finish_read size frame go_on (elim o [
                | none ↦ none
                | some (bytes, t') ↦ some (bytes, t', record client { transport = some t' })
              ]))
      with_bytes none = tt
      with_bytes (some (none, t')) = record { conserved = k.conserved; grows = k.grows }
      with_bytes (some (some bytes, t')) =
          if_both (AfterRead before) (length bytes == size) _ _
            (λ e'.
              g bytes t' (record client { transport = some t' })
                (record { conserved = k.conserved; grows = k.grows }))
            (λ e'. record { conserved = k.conserved; grows = k.grows })

  read_exactly-AfterRead :
      (client : Client T) (t : T) (size : ℕ) (frame : Frame)
      (go_on : List ℕ → T → Client T → Answer ops)
      → Conserves before client
      → Goes go_on
      → AfterRead before (read_exactly ops client t size frame go_on)
  unfolding read_exactly read_data finish_read
  read_exactly-AfterRead client t size frame go_on k g =
      with_taken (take_overread ops client size) (take_overread-After client size k)
    where
      with_taken :
          (o : Option (List ℕ × Client T))
          → After before o
          → AfterRead before (
              finish_read size frame go_on
                (elim o [ none ↦ none | some p ↦ read_rest ops size t p ]))
      with_taken none h = tt
      with_taken (some p) h = read_rest-AfterRead size t frame go_on p h g

  fail_if-Conserves :
      (b : Bool) (client : Client T)
      → Conserves before client
      → Conserves before (fail_if ops b client)
  fail_if-Conserves b client k = record { conserved = k.conserved; grows = k.grows }

  read_payload-AfterRead :
      (buffer_size : ℕ) (frame : Frame) (size : ℕ) (t : T) (client : Client T)
      → Conserves before client
      → AfterRead before (read_payload ops buffer_size frame size t client)
  unfolding read_payload
  read_payload-AfterRead buffer_size frame size t client k =
      if_both (AfterRead before) (ltb buffer_size size) _ _
        (λ e. give_up-AfterRead (record frame { payload_size = some size }) client k)
        (λ e. read_exactly-AfterRead client t size _ _ k (λ bytes t' after h. h))

  read_size-AfterRead :
      (buffer_size : ℕ) (frame : Frame) (is_control : Bool) (size : ℕ) (t : T) (client : Client T)
      → Conserves before client
      → AfterRead before (read_size ops buffer_size frame is_control size t client)
  unfolding read_size
  read_size-AfterRead buffer_size frame is_control size t client k =
      if_both (AfterRead before) (size == 126) _ _
        (λ e.
          read_exactly-AfterRead (fail_if ops is_control client) t 2 frame
            (on_size2 ops buffer_size frame) (fail_if-Conserves is_control client k)
            (λ bytes t' after h.
              read_payload-AfterRead buffer_size frame _ t' _ (fail_if-Conserves _ after h)))
        (λ e.
          if_both (AfterRead before) (size == 127) _ _
            (λ e'.
              read_exactly-AfterRead (fail_if ops is_control client) t 8 frame
                (on_size8 ops buffer_size frame) (fail_if-Conserves is_control client k)
                (λ bytes t' after h.
                  if_both (AfterRead before) (is_too_big bytes) _ _
                    (λ e''. give_up-AfterRead frame after h)
                    (λ e''.
                      read_payload-AfterRead buffer_size frame _ t' _
                        (fail_if-Conserves _ after h))))
            (λ e'. read_payload-AfterRead buffer_size frame size t client k))

  read_header-AfterRead :
      (buffer_size : ℕ) (header : List ℕ) (t : T) (client : Client T)
      → Conserves before client
      → AfterRead before (read_header ops buffer_size header t client)
  unfolding read_header on_header
  read_header-AfterRead buffer_size header t client k =
      if_both (AfterRead before) (get_or header 1 0 / 0x80 % 2 == 1) _ _
        (λ e. record { conserved = k.conserved; grows = k.grows })
        (λ e. read_size-AfterRead buffer_size _ _ _ t _ (fail_if-Conserves _ client k))

module _ {T : Type 0} (ops : Transport T) where
  -- A read of a frame frees the block exactly when the client no longer has it.
  pub read_frame-Conserves :
      (client : Client T) (size : ℕ) → AfterRead client (read_frame ops client size)
  unfolding read_frame
  read_frame-Conserves client size =
      option_both (AfterRead client) client.transport _ _ (λ e. Conserves-refl client)
        (λ t e.
          if_both (AfterRead client) (can_read client.state) _ _
            (λ e'.
              read_exactly-AfterRead ops client client t 2 no_frame (read_header ops size)
                (Conserves-refl client)
                (λ bytes t' after h. read_header-AfterRead ops client size bytes t' after h))
            (λ e'. Conserves-refl client))

  pub poll_write-Conserves : (client : Client T) → Conserves client (poll_write ops client).1
  unfolding poll_write
  poll_write-Conserves client =
      option_both (λ (r : EspErr × Client T). Conserves client r.1) client.transport _ _
        (λ e. Conserves-refl client)
        (λ t e.
          if_both (λ (r : EspErr × Client T). Conserves client r.1) (can_write client.state) _ _
            (λ e'. record { conserved = refl; grows = omega arith }) (λ e'. Conserves-refl client))

  pub poll_read-Conserves : (client : Client T) → Conserves client (poll_read ops client).1
  unfolding poll_read
  poll_read-Conserves client =
      option_both (λ (r : EspErr × Client T). Conserves client r.1) client.transport _ _
        (λ e. Conserves-refl client)
        (λ t e.
          if_both (λ (r : EspErr × Client T). Conserves client r.1) (can_read client.state) _ _
            (λ e'.
              if_both (λ (r : EspErr × Client T). Conserves client r.1)
                (ltb client.overread_consumed client.overread_size) _ _
                (λ e''. Conserves-refl client)
                (λ e''. record { conserved = refl; grows = omega arith }))
            (λ e'. Conserves-refl client))

  pub write_frame-Conserves :
      (buffer_size : ℕ) (client : Client T) (fin : Bool) (opcode : ℕ) (payload key : List ℕ)
      → After client (write_frame ops buffer_size client fin opcode payload key)
  unfolding write_frame write_on
  write_frame-Conserves buffer_size client fin opcode payload key =
      option_both (After client) client.transport _ _ (λ e. Conserves-refl client)
        (λ t e.
          if_both (After client) (can_write client.state) _ _
            (λ e'.
              if_both (After client)
                (is_size (ops.write t (frame_header fin opcode (length payload) key)).1
                  (length (frame_header fin opcode (length payload) key)))
                _ _
                (λ e''. wrote (
                  write_payload ops buffer_size (length payload) key
                    (ops.write t (frame_header fin opcode (length payload) key)).0 payload))
                (λ e''. record { conserved = refl; grows = omega arith }))
            (λ e'. Conserves-refl client))
    where
      wrote :
          (o : Option (Bool × T))
          → After client (elim o [
            | none ↦ none
            | some (true, t'') ↦ some (esp_ok, record client { transport = some t'' })
            | some (false, t'') ↦ some (fail_write ops buffer_size client t'')
          ])
      wrote none = tt
      wrote (some (true, t)) = record { conserved = refl; grows = omega arith }
      wrote (some (false, t)) = record { conserved = refl; grows = omega arith }

  pub write_close_frame-Conserves :
      (buffer_size : ℕ) (client : Client T) (status : ℕ) (reason key : List ℕ)
      → After client (write_close_frame ops buffer_size client status reason key)
  unfolding write_close_frame
  write_close_frame-Conserves buffer_size client status reason key =
      if_both (After client) (status == 0) _ _
        (λ e.
          if_both (After client) (ltb 0 (length reason)) _ _ (λ e'. Conserves-refl client)
            (λ e'. write_frame-Conserves buffer_size client true Opcode.connection_close [] key))
        (λ e.
          if_both (After client)
            (not (is_valid_close_frame_status status) || ltb 123 (length reason)) _ _
            (λ e'. Conserves-refl client)
            (λ e'. write_frame-Conserves buffer_size client true Opcode.connection_close _ key))
