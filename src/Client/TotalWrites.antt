-- ===== src/Client/TotalWrites.antt =====
-- What a write of xsp_ws_client.c makes of the client, over any transport.
use xsp.Prelude.{
  if_both, option_both, ℕ, zero, suc, ◌≤◌, ◌<◌, ◌≡◌, refl, ap, Bool, true, false, not, ◌||◌, List,
  [], ◌∷◌, Option, none, some, arith, ltb, ◌==◌, length, take, drop, length-drop,
}
use xsp.Esp.{EspErr, esp_ok, is_ok}
use xsp.WsTypes.Opcode
use xsp.WsTypes.{is_valid_close_frame_status}
use xsp.Client.{Transport, Client, ClientState, can_write, is_size}
use xsp.Client.Read.{is_state_ok}
use xsp.Client.Total.{is_given, left, IsReady}
use xsp.Client.Write.{
  frame_header, mask, write_payload, fail_write, write_on, write_frame, write_close_frame,
}

-- A client behind a call that did not read: as ready as before, and OK only if it was.
pub record Follows {T : Type 0} (before after : Client T) : Type 0 where
  pub ready : IsReady after
  pub same : left after ≡ left before
  pub was_ok : is_state_ok after.state ≡ true → is_state_ok before.state ≡ true

-- A call that returns; the second also says that a client that is OK behind it has written all.
abbrev pub Returns : {T : Type 0} → Client T → Option (EspErr × Client T) → Type 0
Returns before none = ⊥
Returns before (some (err, after)) = Follows before after

abbrev pub Writes : {T : Type 0} → Client T → Option (EspErr × Client T) → Type 0
Writes before none = ⊥
Writes before (some (err, after)) =
    Follows before after × (is_state_ok after.state ≡ true → is_ok err ≡ true)

pub Writes-Returns :
    {T : Type 0} (before : Client T) (r : Option (EspErr × Client T))
    → Writes before r
    → Returns before r
Writes-Returns before none w = w
Writes-Returns before (some r) w = w.0

pub Follows-refl : {T : Type 0} (client : Client T) → IsReady client → Follows client client
Follows-refl client r = record { ready = r; same = refl; was_ok = λ e. e }

shorter :
    (buffer_size fuel : ℕ) (byte : ℕ) (bytes : List ℕ)
    → 0 < buffer_size
    → suc (length bytes) ≤ suc fuel
    → length (drop buffer_size (byte ∷ bytes)) ≤ fuel
shorter buffer_size fuel byte bytes h le =
    omega (arith, length-drop buffer_size (byte ∷ bytes), h, le)

module _ {T : Type 0} (ops : Transport T) (buffer_size : ℕ) (room : 0 < buffer_size) where
  abbrev GivenWrite : Option (Bool × T) → Type 0
  GivenWrite o = is_given o ≡ true

  write_payload_some :
      (fuel : ℕ) (key : List ℕ) (t : T) (bytes : List ℕ)
      → length bytes ≤ fuel
      → GivenWrite (write_payload ops buffer_size fuel key t bytes)
  unfolding write_payload
  write_payload_some fuel key t [] h = refl
  write_payload_some zero key t (byte ∷ bytes) h = absurd (omega (arith, h))
  write_payload_some (suc fuel) key t (byte ∷ bytes) h =
      if_both GivenWrite
        (is_size (ops.write t (mask key 0 (take buffer_size (byte ∷ bytes)))).1
          (length (take buffer_size (byte ∷ bytes))))
        _ _
        (λ e.
          write_payload_some fuel key _ (drop buffer_size (byte ∷ bytes))
            (shorter buffer_size fuel byte bytes room h))
        (λ e. refl)

  -- What `write_on` makes of the payload's write.
  abbrev wrote_all : Client T → Option (Bool × T) → Option (EspErr × Client T)
  wrote_all client o = elim o [
    | none ↦ none
    | some (true, t) ↦ some (esp_ok, record client { transport = some t })
    | some (false, t) ↦ some (fail_write ops buffer_size client t)
  ]

  fail_write-Writes :
      (client : Client T) (t : T)
      → IsReady client
      → Writes client (some (fail_write ops buffer_size client t))
  fail_write-Writes client t r = (
    record {
      ready = record { connected = refl; kept = r.kept; bounded = r.bounded };
      same = refl;
      was_ok = λ e. absurd (ground (arith, e));
    },
    λ e. absurd (ground (arith, e)),
  )

  wrote_all-Writes :
      (client : Client T) (o : Option (Bool × T))
      → IsReady client
      → GivenWrite o
      → Writes client (wrote_all client o)
  wrote_all-Writes client none r g = absurd (ground (arith, g))
  wrote_all-Writes client (some (true, t)) r g = (
    record {
      ready = record { connected = refl; kept = r.kept; bounded = r.bounded };
      same = refl;
      was_ok = λ e. e;
    },
    λ e. refl,
  )
  wrote_all-Writes client (some (false, t)) r g = fail_write-Writes client t r

  write_on-Writes :
      (client : Client T) (t : T) (fin : Bool) (opcode : ℕ) (payload key : List ℕ)
      → IsReady client
      → Writes client (write_on ops buffer_size client t fin opcode payload key)
  unfolding write_on
  write_on-Writes client t fin opcode payload key r =
      if_both (Writes client)
        (is_size (ops.write t (frame_header fin opcode (length payload) key)).1
          (length (frame_header fin opcode (length payload) key)))
        _ _
        (λ e.
          wrote_all-Writes client _ r
            (write_payload_some (length payload) key _ payload (omega arith)))
        (λ e. fail_write-Writes client _ r)

  -- `xsp_ws_client_write_frame` of a ready client returns, whatever the transport does, with the client
  -- ready and the bytes read too early kept, and OK only if it was and the call returned ESP_OK.
  pub write_frame-Writes :
      (client : Client T) (fin : Bool) (opcode : ℕ) (payload key : List ℕ)
      → IsReady client
      → Writes client (write_frame ops buffer_size client fin opcode payload key)
  unfolding write_frame
  write_frame-Writes client fin opcode payload key r =
      option_both (Writes client) client.transport _ _
        (λ e. absurd (ground (arith, ap is_given e, r.connected)))
        (λ t e.
          if_both (Writes client) (can_write client.state) _ _
            (λ e'. write_on-Writes client t fin opcode payload key r)
            (λ bad. (Follows-refl client r, λ ok. absurd (not_ok client.state bad ok))))
    where
      not_ok : (s : ClientState) → can_write s ≡ false → is_state_ok s ≡ true → ⊥
      not_ok s bad ok = ground (arith, bad, ok)

  pub write_close_frame-Returns :
      (client : Client T) (status : ℕ) (reason key : List ℕ)
      → IsReady client
      → Returns client (write_close_frame ops buffer_size client status reason key)
  unfolding write_close_frame
  write_close_frame-Returns client status reason key r =
      if_both (Returns client) (status == 0) _ _
        (λ e.
          if_both (Returns client) (ltb 0 (length reason)) _ _ (λ e'. Follows-refl client r)
            (λ e'.
              Writes-Returns client _
                (write_frame-Writes client true Opcode.connection_close [] key r)))
        (λ e.
          if_both (Returns client)
            (not (is_valid_close_frame_status status) || ltb 123 (length reason)) _ _
            (λ e'. Follows-refl client r)
            (λ e'.
              Writes-Returns client _
                (write_frame-Writes client true Opcode.connection_close _ key r)))
