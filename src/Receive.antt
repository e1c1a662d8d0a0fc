-- ===== src/Receive.antt =====
-- A message from the server to the program: components/xsp_ws_client/xsp_ws_client.c reads its frames,
-- and xsp_ws_client_defrag.c beside it joins them, as in the examples of the repository.
mod Tests
use xsp.Prelude.{
  ℕ, zero, suc, ◌≤◌, ◌≡◌, ◌≢◌, refl, sym, ap, ◌∙◌, Bool, true, false, not, ◌&&◌, List, [], ◌∷◌,
  ◌++◌, append_assoc, Option, none, some, arith, length, if◌then◌else◌, All, ◌+◌, inl, inr, ◌⊎◌,
}
use mathlib.Core.Path.{subst}
use xsp.Prelude.Int.{int_max}
use xsp.Esp.{EspErr, esp_ok, is_ok}
use xsp.WsTypes.Opcode
use xsp.WsTypes.{is_valid_frame_opcode, is_control_frame_opcode}
use xsp.Utf8.Step.{Bytes}
use xsp.Utf8.Sound.{Encodes}
use xsp.Client.{Transport, Client, state_ok}
use xsp.Client.Read.{Frame as ReadFrame, read_frame}
use xsp.Client.Read.Stream.{Streams}
use xsp.Client.Read.Server.{server_frame}
use xsp.Client.Read.Frames.{read_frame-server_frame}
use xsp.Defrag.{Block, Defrag}
use xsp.Defrag.Spec.{idle}
use xsp.Defrag.Invariant.{phase, IsValid, Reallocates, is_allocated}
use xsp.Defrag.Assembly.{Frame, Seen, feed, fragments, whole, in_order, reassembles}

abbrev given_or {ℓ} : {A : Type ℓ} → A → Option A → A
given_or a none = a
given_or a (some b) = b

-- What a read of a frame hands on.
abbrev pub frame_of : ReadFrame → Frame
frame_of frame = record {
  fin = given_or false frame.fin;
  opcode = given_or 0 frame.opcode;
  payload = frame.payload;
}

-- The bytes of frames that a server sends.
unfoldable pub sent : List Frame → List ℕ
sent [] = []
sent (f ∷ fs) = server_frame f.fin f.opcode f.payload ++ sent fs

-- A frame as RFC 6455 allows it, that fits in the buffer and an `int`.
pub record IsSendable (buffer_size : ℕ) (f : Frame) : Type 0 where
  pub opcode_valid : is_valid_frame_opcode f.opcode ≡ true
  pub no_control : is_control_frame_opcode f.opcode ≡ false
  pub fits : length f.payload ≤ buffer_size
  pub bounded : length f.payload ≤ int_max

module _ {T : Type 0} (ops : Transport T) (buffer_size : ℕ) where
  -- Behind a read: on with the others if it returned ESP_OK.
  abbrev pub on_read :
      (Client T → Option (List Frame × Client T))
      → Option (EspErr × ReadFrame × Client T)
      → Option (List Frame × Client T)
  on_read go_on none = none
  on_read go_on (some (err, frame, client)) =
      if is_ok err
      then elim (go_on client) [
        | none ↦ none
        | some (frames, client') ↦ some (frame_of frame ∷ frames, client')
      ]
      else none

  -- So many frames.
  unfoldable pub receive_frames : ℕ → Client T → Option (List Frame × Client T)
  receive_frames zero client = some ([], client)
  receive_frames (suc n) client = on_read (receive_frames n) (read_frame ops client buffer_size)

  -- So many frames, each handed to the defragmenter.
  abbrev pub on_frames :
      (Block → ℕ → Block)
      → Defrag
      → Option (List Frame × Client T)
      → Option (List Seen × Defrag × Client T)
  on_frames realloc d none = none
  on_frames realloc d (some (frames, client)) = elim (feed realloc d frames) [
    | none ↦ none
    | some (seen, d') ↦ some (seen, d', client)
  ]

  unfoldable pub receive :
      (Block → ℕ → Block) → ℕ → Client T → Defrag → Option (List Seen × Defrag × Client T)
  receive realloc n client d = on_frames realloc d (receive_frames n client)

data_opcode :
    (opcode : ℕ)
    → (opcode ≡ Opcode.continuation) ⊎ (opcode ≡ Opcode.text) ⊎ (opcode ≡ Opcode.binary)
    → (is_valid_frame_opcode opcode ≡ true) × (is_control_frame_opcode opcode ≡ false)
unfolding is_valid_frame_opcode is_control_frame_opcode
data_opcode opcode o = ground (arith, o)

no_continuation :
    (opcode : ℕ) → (opcode ≡ Opcode.text) ⊎ (opcode ≡ Opcode.binary) → opcode ≢ Opcode.continuation
no_continuation opcode o e = omega (arith, o, e)

module _ {T : Type 0} (ops : Transport T) (pending : T → List ℕ) (law : Streams ops pending)
    (buffer_size : ℕ) where
  receive_frames-sent :
      (frames : List Frame) (client : Client T) (t : T) (rest : List ℕ)
      → client.transport ≡ some t
      → client.state ≡ state_ok
      → client.overread_data ≡ none
      → All (IsSendable buffer_size) frames
      → pending t ≡ sent frames ++ rest
      → (t' : T) × (receive_frames ops buffer_size (length frames) client
          ≡ some (frames, record client { transport = some t' }))
        × (pending t' ≡ rest)
  unfolding receive_frames sent
  receive_frames-sent [] client t rest e ok no_early h p =
      (t, ap (λ o. some ([], record client { transport = o })) e, p)
  receive_frames-sent (f ∷ fs) client t rest e ok no_early (h, hs) p =
      let (t', r, q) =
        read_frame-server_frame ops pending law client t buffer_size f.fin f.opcode f.payload
          (sent fs ++ rest) e ok no_early h.opcode_valid (ground (arith, h.no_control))
          (λ c. absurd (ground (arith, c, h.no_control))) h.fits h.bounded
          (p ∙ append_assoc (server_frame f.fin f.opcode f.payload) (sent fs) rest) in
      let (t'', r', q') =
        receive_frames-sent fs (record client { transport = some t' }) t' rest refl ok no_early hs
          q in
      (
        t'',
        ap (on_read ops buffer_size (receive_frames ops buffer_size (length fs))) r
            ∙ ap
                (λ (o : Option (List Frame × Client T)). elim o [
                  | none ↦ none
                  | some (frames, client') ↦ some (f ∷ frames, client')
                ])
                r',
        q',
      )

  fragment-IsSendable :
      (fin : Bool) (opcode : ℕ) (p : List ℕ)
      → (opcode ≡ Opcode.continuation) ⊎ (opcode ≡ Opcode.text) ⊎ (opcode ≡ Opcode.binary)
      → (length p ≤ buffer_size) × (length p ≤ int_max)
      → IsSendable buffer_size (record { fin = fin; opcode = opcode; payload = p })
  fragment-IsSendable fin opcode p o (fits, bounded) =
      let (valid, no_control) = data_opcode opcode o in
      record { opcode_valid = valid; no_control = no_control; fits = fits; bounded = bounded }

  fragments-IsSendable :
      (opcode : ℕ) (p : List ℕ) (ps : List (List ℕ))
      → (opcode ≡ Opcode.continuation) ⊎ (opcode ≡ Opcode.text) ⊎ (opcode ≡ Opcode.binary)
      → All (λ q. (length q ≤ buffer_size) × (length q ≤ int_max)) (p ∷ ps)
      → All (IsSendable buffer_size) (fragments opcode p ps)
  unfolding fragments
  fragments-IsSendable opcode p [] o (h, hs) = (fragment-IsSendable true opcode p o h, tt)
  fragments-IsSendable opcode p (q ∷ ps) o (h, hs) = (
    fragment-IsSendable false opcode p o h,
    fragments-IsSendable Opcode.continuation q ps (inl refl) hs,
  )

  -- If the server sends a message, of text or of bytes, in any fragments, and the transport delivers
  -- the stream in pieces of any size, then reading as many frames and handing each to the
  -- defragmenter gives the message, whole and with its type, with the last of them and nothing
  -- before, and leaves the transport behind it. The client is open and has read nothing too early,
  -- the defragmenter is between messages, memory is not short, each fragment fits in the buffer, and the
  -- message in the defragmenter's maximum; text is UTF-8.
  pub message_arrives :
      (realloc : Block → ℕ → Block) (client : Client T) (t : T) (d : Defrag) (opcode : ℕ)
      (p : List ℕ) (ps : List (List ℕ)) (rest : List ℕ)
      → Reallocates realloc
      → ((b : Block) (n : ℕ) → is_allocated (realloc b n) ≡ true)
      → client.transport ≡ some t
      → client.state ≡ state_ok
      → client.overread_data ≡ none
      → IsValid d
      → phase d ≡ idle
      → (opcode ≡ Opcode.text) ⊎ (opcode ≡ Opcode.binary)
      → All (λ q. (length q ≤ buffer_size) × (length q ≤ int_max)) (p ∷ ps)
      → length (whole p ps) ≤ d.max_message_size
      → d.max_message_size + length (whole p ps) ≤ int_max
      → Bytes (whole p ps)
      → (opcode ≡ Opcode.text → Encodes (whole p ps))
      → pending t ≡ sent (fragments opcode p ps) ++ rest
      → (after : Defrag) × (t' : T) × (receive ops buffer_size realloc
            (length (fragments opcode p ps))
            client
            d
          ≡ some (in_order ps (opcode, whole p ps), after, record client { transport = some t' }))
        × (pending t' ≡ rest)
        × (phase after ≡ idle)
        × IsValid after
  unfolding receive
  message_arrives realloc client t d opcode p ps rest reallocates memory e ok no_early valid between
        o sizes fits small bytes text stream =
      let (t', r, q) =
        receive_frames-sent (fragments opcode p ps) client t rest e ok no_early
          (fragments-IsSendable opcode p ps (inr o) sizes) stream in
      let (after, fed, rests, valid') =
        reassembles realloc reallocates memory d opcode p ps valid between
          (no_continuation opcode o) fits small bytes text in
      (
        after,
        t',
        ap (on_frames ops buffer_size realloc d) r
            ∙ ap
                (λ (x : Option (List Seen × Defrag)). elim x [
                  | none ↦ none
                  | some (seen, d') ↦ some (seen, d', record client { transport = some t' })
                ])
                fed,
        q,
        rests,
        valid',
      )
