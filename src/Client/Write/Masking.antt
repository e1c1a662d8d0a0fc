-- ===== src/Client/Write/Masking.antt =====
-- What xsp_ws_client.c writes of a frame, against RFC 6455: the chunks make up one masked payload.
use xsp.Prelude.{
  ℕ, zero, suc, ◌+◌, ◌*◌, ◌%◌, ◌^◌, ◌≤◌, ◌<◌, ◌≡◌, refl, sym, ap, ◌∙◌, Bool, true, false, List, [],
  ◌∷◌, ◌++◌, append_assoc, append-nil, Option, none, some, arith, if◌then◌else◌, length, take, drop,
  get_or, Bool-cases, inl, inr, ◌⊎◌, take-append-drop, length-take, length-drop, take_all, drop_all,
}
use mathlib.Core.Path.{ap₂, subst}
use native.Mathlib.Decide.{dec_lt}
use Prim.Native.Nat.{bit_xor}
use xsp.Prelude.Int.{ℤ}
use xsp.Esp.{EspErr, esp_ok, esp_fail, esp_err_invalid_state}
use xsp.Client.{Transport, Client, failed_no_close, can_write, is_size}
use xsp.Client.Write.Format.{client_frame, frame_header-mask}
use xsp.Client.Write.{frame_header, mask, write_payload, write_on, write_frame, fail_write}

mask-append :
    (key : List ℕ) (i : ℕ) (xs ys : List ℕ)
    → mask key i (xs ++ ys) ≡ mask key i xs ++ mask key (i + length xs) ys
unfolding mask
mask-append key i [] ys = ap (λ j. mask key j ys) (omega arith)
mask-append key i (x ∷ xs) ys = ap (◌∷◌ (bit_xor x (get_or key (i % 4) 0))) (
    mask-append key (i + 1) xs ys
    ∙ ap (λ j. mask key (i + 1) xs ++ mask key j ys) {y = i + suc (length xs)} (omega arith))

-- The index counts modulo 4.
mask-mod : (key : List ℕ) (i j : ℕ) (xs : List ℕ) → i % 4 ≡ j % 4 → mask key i xs ≡ mask key j xs
unfolding mask
mask-mod key i j [] h = refl
mask-mod key i j (x ∷ xs) h =
    ap₂ (λ k rest. bit_xor x (get_or key k 0) ∷ rest) h
      (mask-mod key (i + 1) (j + 1) xs (omega arith))

pub length-mask : (key : List ℕ) (i : ℕ) (xs : List ℕ) → length (mask key i xs) ≡ length xs
unfolding mask
length-mask key i [] = refl
length-mask key i (x ∷ xs) = ap suc (length-mask key (i + 1) xs)

-- A multiple of four bytes further on, the same key bytes meet.
mask-chunk :
    (key : List ℕ) (k : ℕ) (xs : List ℕ)
    → mask key 0 (take (4 * k) xs) ++ mask key 0 (drop (4 * k) xs) ≡ mask key 0 xs
mask-chunk key k xs = elim (dec_lt (length xs) (4 * k)) [
  | yes short ↦
      ap₂ (λ a b. mask key 0 a ++ mask key 0 b) (take_all (4 * k) xs (omega arith))
        (drop_all (4 * k) xs (omega arith))
      ∙ (unfold mask in append-nil (mask key 0 xs))
  | no long ↦
      ap (◌++◌ (mask key 0 (take (4 * k) xs))) (
        mask-mod key 0 (0 + length (take (4 * k) xs)) (drop (4 * k) xs)
          (omega (arith, length-take (4 * k) xs)))
      ∙ sym (mask-append key 0 (take (4 * k) xs) (drop (4 * k) xs))
      ∙ ap (mask key 0) (take-append-drop (4 * k) xs)
]

-- `log` tells what the transport took: a write that returns the size of its bytes took them all.
pub record Logs {T : Type 0} (ops : Transport T) (log : T → List ℕ) : Type 0 where
  pub took :
      (t : T) (bytes : List ℕ)
      → is_size (ops.write t bytes).1 (length bytes) ≡ true
      → log (ops.write t bytes).0 ≡ log t ++ bytes

module _ {T : Type 0} (ops : Transport T) (log : T → List ℕ) (law : Logs ops log) (k : ℕ)
    (room : 0 < k) where
  -- A write that does not take all its bytes.
  abbrev pub Refuses : Type 0
  Refuses = (t : T) × (bytes : List ℕ) × (is_size (ops.write t bytes).1 (length bytes) ≡ false)

  -- The loop ends, with the masked payload written or a write failed.
  abbrev Ends : List ℕ → T → List ℕ → Option (Bool × T) → Type 0
  Ends key t bytes result =
      ((t' : T) × (result ≡ some (true, t')) × (log t' ≡ log t ++ mask key 0 bytes))
      ⊎ ((t' : T) × (result ≡ some (false, t')) × Refuses)

  write_payload-Ends :
      (fuel : ℕ) (key : List ℕ) (t : T) (bytes : List ℕ)
      → length bytes ≤ fuel
      → Ends key t bytes (write_payload ops (4 * k) fuel key t bytes)
  unfolding write_payload
  write_payload-Ends fuel key t [] h = inl (t, refl, (unfold mask in sym (append-nil (log t))))
  write_payload-Ends zero key t (x ∷ xs) h = absurd (omega arith)
  write_payload-Ends (suc fuel) key t (x ∷ xs) h =
      elim (Bool-cases (is_size sent.1 (length chunk))) [
        | inr fails ↦ rw fails (inr (sent.0, refl, refused fails))
        | inl fits ↦ rw fits (elim (write_payload-Ends fuel key sent.0 rest shorter) [
          | inr (t', e, refuses) ↦ inr (t', e, refuses)
          | inl (t', e, l) ↦ inl (
            t',
            e,
            l
                ∙ ap (λ w. w ++ mask key 0 rest) (taken fits)
                ∙ append_assoc (log t) (mask key 0 chunk) (mask key 0 rest)
                ∙ ap (◌++◌ (log t)) (mask-chunk key k (x ∷ xs)),
          )
        ])
      ]
    where
      chunk : List ℕ
      chunk = take (4 * k) (x ∷ xs)

      rest : List ℕ
      rest = drop (4 * k) (x ∷ xs)

      sent : T × ℤ
      sent = ops.write t (mask key 0 chunk)

      shorter : length rest ≤ fuel
      shorter = omega (arith, length-drop (4 * k) (x ∷ xs))

      refused : is_size sent.1 (length chunk) ≡ false → Refuses
      refused fails = (
        t,
        mask key 0 chunk,
        subst (λ n. is_size sent.1 n ≡ false) (sym (length-mask key 0 chunk)) fails,
      )

      taken : is_size sent.1 (length chunk) ≡ true → log sent.0 ≡ log t ++ mask key 0 chunk
      taken fits =
          law.took t (mask key 0 chunk)
            (subst (λ n. is_size sent.1 n ≡ true) (sym (length-mask key 0 chunk)) fits)

  -- What a call that had a transport and could write came to: with ESP_OK the client is as before and
  -- the transport took `frame` behind what it had; else the client can do nothing but close.
  abbrev pub Sends : Client T → T → List ℕ → Option (EspErr × Client T) → Type 0
  Sends client t frame result =
      ((t' : T) × (result ≡ some (esp_ok, record client { transport = some t' }))
        × (log t' ≡ log t ++ frame))
      ⊎ ((t' : T) × (result
            ≡ some (esp_fail, record client { transport = some t'; state = failed_no_close }))
          × Refuses)

  sent-payload :
      (client : Client T) (t t' : T) (header key payload : List ℕ)
      → log t' ≡ log t ++ header
      → (result : Option (Bool × T)) → Ends key t' payload result
      → Sends client t (header ++ mask key 0 payload) (elim result [
        | none ↦ none
        | some (true, t'') ↦ some (esp_ok, record client { transport = some t'' })
        | some (false, t'') ↦ some (fail_write ops (4 * k) client t'')
      ])
  sent-payload client t t' header key payload l result (inl (t'', e, m)) = rw e (
      inl (
        t'',
        refl,
        m ∙ ap (λ w. w ++ mask key 0 payload) l ∙ append_assoc (log t) header (mask key 0 payload),
      ))
  sent-payload client t t' header key payload l result (inr (t'', e, refuses)) =
      rw e (inr (t'', refl, refuses))

  write_on-Sends :
      (client : Client T) (t : T) (fin : Bool) (opcode : ℕ) (payload key : List ℕ)
      → Sends client t
          (frame_header fin opcode (length payload) key ++ mask key 0 payload)
          (write_on ops (4 * k) client t fin opcode payload key)
  unfolding write_on
  write_on-Sends client t fin opcode payload key =
      elim (Bool-cases (is_size sent.1 (length header))) [
        | inr fails ↦ rw fails (inr (sent.0, refl, (t, header, fails)))
        | inl fits ↦ rw fits (
            sent-payload client t sent.0 header key payload (law.took t header fits) _
              (write_payload-Ends (length payload) key sent.0 payload (omega arith)))
      ]
    where
      header : List ℕ
      header = frame_header fin opcode (length payload) key

      sent : T × ℤ
      sent = ops.write t header

  write_frame_open :
      (client : Client T) (t : T) (fin : Bool) (opcode : ℕ) (payload key : List ℕ)
      → client.transport ≡ some t
      → can_write client.state ≡ true
      → write_frame ops (4 * k) client fin opcode payload key
        ≡ write_on ops (4 * k) client t fin opcode payload key
  unfolding write_frame
  write_frame_open client t fin opcode payload key e w =
      ap
        (λ o. elim o [
          | none ↦ some (esp_err_invalid_state, client)
          | some t ↦
              if can_write client.state
              then write_on ops (4 * k) client t fin opcode payload key
              else some (esp_fail, client)
        ])
        e
      ∙ ap
          (λ b.
            if b
            then write_on ops (4 * k) client t fin opcode payload key
            else some (esp_fail, client))
          w

  write_frame-written :
      (client : Client T) (t : T) (fin : Bool) (opcode : ℕ) (payload key : List ℕ)
      → client.transport ≡ some t
      → can_write client.state ≡ true
      → Sends client t
          (frame_header fin opcode (length payload) key ++ mask key 0 payload)
          (write_frame ops (4 * k) client fin opcode payload key)
  write_frame-written client t fin opcode payload key e w =
      subst (Sends client t (frame_header fin opcode (length payload) key ++ mask key 0 payload))
        (sym (write_frame_open client t fin opcode payload key e w))
        (write_on-Sends client t fin opcode payload key)

  -- A transport is given that takes all bytes of a write that returns their number, and a buffer of a
  -- positive multiple of four bytes. At a client with a transport that can write, a call with an opcode
  -- of four bits, a payload shorter than 2 ^ 32 bytes and the four bytes of the key ends: either with
  -- ESP_OK, the client unchanged, and the transport behind the frame of RFC 6455 with the mask bit, the
  -- size in the shortest form, the key and the masked payload; or with ESP_FAIL and the client in the
  -- state that forbids a Close frame, and then some write to the transport returned another number than
  -- that of its bytes.
  pub write_frame-Sends :
      (client : Client T) (t : T) (fin : Bool) (opcode : ℕ) (payload : List ℕ) (a b c d : ℕ)
      → client.transport ≡ some t
      → can_write client.state ≡ true
      → opcode < 16
      → length payload < 2 ^ 32
      → Sends client t
          (client_frame fin opcode a b c d payload)
          (write_frame ops (4 * k) client fin opcode payload (a ∷ b ∷ c ∷ d ∷ []))
  write_frame-Sends client t fin opcode payload a b c d e w small fits =
      subst
        (λ frame.
          Sends client t frame
            (write_frame ops (4 * k) client fin opcode payload (a ∷ b ∷ c ∷ d ∷ [])))
        (frame_header-mask fin opcode a b c d payload small fits)
        (write_frame-written client t fin opcode payload (a ∷ b ∷ c ∷ d ∷ []) e w)
