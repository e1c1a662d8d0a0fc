-- ===== src/Defrag/Assembly.antt =====
-- Runs of calls of xsp_ws_client_defrag.c: a message in fragments, and a message discarded.
use xsp.Prelude.{
  ℕ, ◌+◌, ◌≤◌, ◌≡◌, ◌≢◌, refl, sym, ap, ◌∙◌, Bool, true, false, List, [], ◌∷◌, ◌++◌, append_assoc,
  Option, none, some, arith, length, length-append, inl, inr, ◌⊎◌, All,
}
use mathlib.Core.Path.{subst}
use xsp.Prelude.Int.{int_max}
use xsp.Esp.{EspErr, esp_ok, is_ok}
use xsp.WsTypes.Opcode
use xsp.Utf8.{accept, validate_state}
use xsp.Utf8.Step.{Bytes, validate_state-append, validate_state-reject}
use xsp.Utf8.Sound.{Encodes, accept_iff}
use xsp.Defrag.Spec
use xsp.Defrag.Spec.{
  Phase, idle, collecting, discarding, Message, Reply, is_bad_text, collect, refuse,
}
use xsp.Defrag.{Block, Defrag, returned, on_valid_frame}
use xsp.Defrag.Invariant.{
  phase, message, IsValid, Refines, Reallocates, allocates, is_allocated, fail-Refines,
}
use xsp.Defrag.Refine.{on_valid_frame-Refines, on_valid_frame_failed}

pub record Frame : Type 0 where
  pub fin : Bool
  pub opcode : ℕ
  pub payload : List ℕ

-- The code that a call returns, and the message that it hands over.
abbrev pub Seen : Type 0
Seen = EspErr × Option Message

-- The calls in order, while none of them meets an argument error or an overflow.
unfoldable pub feed : (Block → ℕ → Block) → Defrag → List Frame → Option (List Seen × Defrag)
feed realloc d [] = some ([], d)
feed realloc d (f ∷ fs) = elim (on_valid_frame realloc d f.fin f.opcode f.payload) [
  | returned e none d' ↦ none
  | returned e (some out) d' ↦ elim (feed realloc d' fs) [
    | none ↦ none
    | some (seen, after) ↦ some ((e, message out) ∷ seen, after)
  ]
  | _ ↦ none
]

-- A message in fragments: the first frame has its opcode, the others continue it, the last is final.
unfoldable pub fragments : ℕ → List ℕ → List (List ℕ) → List Frame
fragments opcode p [] = record { fin = true; opcode = opcode; payload = p } ∷ []
fragments opcode p (q ∷ ps) =
    record { fin = false; opcode = opcode; payload = p } ∷ fragments Opcode.continuation q ps

unfoldable pub whole : List ℕ → List (List ℕ) → List ℕ
whole p [] = p
whole p (q ∷ ps) = p ++ whole q ps

-- ESP_OK for every fragment, and the message with the last.
unfoldable pub in_order : List (List ℕ) → Message → List Seen
in_order [] m = (esp_ok, some m) ∷ []
in_order (q ∷ ps) m = (esp_ok, none) ∷ in_order ps m

feed-cons :
    (realloc : Block → ℕ → Block) (d : Defrag) (f : Frame) (fs : List Frame) (max : ℕ) (e : EspErr)
    (m : Option Message) (ph : Phase) (seen : List Seen) (after : Defrag)
    (r : Refines max f.fin (e, m, ph) (on_valid_frame realloc d f.fin f.opcode f.payload))
    → feed realloc r.after fs ≡ some (seen, after)
    → feed realloc d (f ∷ fs) ≡ some ((e, m) ∷ seen, after)
unfolding feed
feed-cons realloc d f fs max e m ph seen after r h = ground (arith, r.returns, r.delivers)

-- In this phase a frame of this opcode adds to the message that began with `first` and `bytes`.
abbrev Continues : Phase → ℕ → ℕ → List ℕ → Type 0
Continues ph opcode first bytes =
    ((ph ≡ idle) × (opcode ≢ Opcode.continuation) × (first ≡ opcode) × (bytes ≡ []))
    ⊎ ((ph ≡ collecting first bytes) × (opcode ≡ Opcode.continuation))

step-collect :
    (max : ℕ) (al : Bool) (ph : Phase) (fin : Bool) (opcode first : ℕ) (bytes payload : List ℕ)
    → Continues ph opcode first bytes
    → Spec.step max al ph fin opcode payload ≡ collect max al first (bytes ++ payload) fin
unfolding Spec.step
step-collect max al ph fin opcode first bytes payload (inl (e, n, f, b)) =
    rw (e, f, b) (ground arith)
step-collect max al ph fin opcode first bytes payload (inr (e, c)) = rw (e, c)

-- The conditions under which a message is accepted.
record Acceptable (max first : ℕ) (bytes : List ℕ) : Type 0 where
  fits : length bytes ≤ max
  text : first ≡ Opcode.text → validate_state accept bytes ≡ accept
  made_of_bytes : Bytes bytes

Bytes-split : (xs ys : List ℕ) → Bytes (xs ++ ys) → Bytes xs × Bytes ys
Bytes-split [] ys h = (tt, h)
Bytes-split (x ∷ xs) ys h = let (hx, hy) = Bytes-split xs ys h.1 in ((h.0, hx), hy)

-- No prefix of an acceptable message is refused.
collect_prefix :
    (max first : ℕ) (bytes rest : List ℕ)
    → Acceptable max first (bytes ++ rest)
    → collect max true first bytes false ≡ (esp_ok, none, collecting first bytes)
collect_prefix max first bytes rest a = ground (
  arith,
  length-append bytes rest,
  validate_state-append accept bytes rest,
  validate_state-reject rest (Bytes-split bytes rest a.made_of_bytes).1,
)

collect_whole :
    (max first : ℕ) (bytes : List ℕ)
    → Acceptable max first bytes
    → collect max true first bytes true ≡ (esp_ok, some (first, bytes), idle)
collect_whole max first bytes a = ground arith

module _ (realloc : Block → ℕ → Block) (law : Reallocates realloc)
    (memory : (b : Block) (n : ℕ) → is_allocated (realloc b n) ≡ true) where
  record Assembled (d : Defrag) (frames : List Frame) (seen : List Seen) : Type 0 where
    after : Defrag
    runs : feed realloc d frames ≡ some (seen, after)
    rests : phase after ≡ idle
    valid : IsValid after

  step_frame :
      (d : Defrag) (fin : Bool) (opcode first : ℕ) (bytes p : List ℕ)
      → IsValid d
      → Continues (phase d) opcode first bytes
      → d.max_message_size + length p ≤ int_max
      → Refines d.max_message_size fin
          (collect d.max_message_size true first (bytes ++ p) fin)
          (on_valid_frame realloc d fin opcode p)
  step_frame d fin opcode first bytes p v c small =
      subst (λ reply. Refines d.max_message_size fin reply (on_valid_frame realloc d fin opcode p))
        (step-collect d.max_message_size (allocates realloc d p) (phase d) fin opcode first bytes p
            c
          ∙ ap (λ al. collect d.max_message_size al first (bytes ++ p) fin)
              (memory d.message_data (d.message_size + length p)))
        (on_valid_frame-Refines realloc law d fin opcode p v small)

  assemble :
      (ps : List (List ℕ)) (d : Defrag) (opcode first : ℕ) (bytes p : List ℕ)
      → IsValid d
      → Continues (phase d) opcode first bytes
      → first ≢ Opcode.continuation
      → Acceptable d.max_message_size first (bytes ++ whole p ps)
      → d.max_message_size + length (whole p ps) ≤ int_max
      → Assembled d (fragments opcode p ps) (in_order ps (first, bytes ++ whole p ps))
  unfolding fragments whole in_order
  assemble [] d opcode first bytes p v c n a small = record {
    after = r.after;
    runs =
        feed-cons realloc d _ [] d.max_message_size esp_ok (some (first, bytes ++ p)) idle []
          r.after r (unfold feed in refl);
    rests = r.enters;
    valid = r.valid;
  }
    where
      r :
          Refines d.max_message_size true
            (esp_ok, some (first, bytes ++ p), idle)
            (on_valid_frame realloc d true opcode p)
      r =
          rw (collect_whole d.max_message_size first (bytes ++ p) a) at
            (step_frame d true opcode first bytes p v c small)
  assemble (q ∷ ps) d opcode first bytes p v c n a small =
      let r = continue in
      let tail =
        assemble ps r.after Opcode.continuation first (bytes ++ p) q r.valid (inr (r.enters, refl))
          n
          (subst (λ k. Acceptable k first ((bytes ++ p) ++ whole q ps)) (sym r.same_max)
            (subst (Acceptable d.max_message_size first) (sym (append_assoc bytes p (whole q ps)))
              a))
          (omega (arith, r.same_max, length-append p (whole q ps))) in
      record {
        after = tail.after;
        runs =
            subst
              (λ w.
                feed realloc d (
                  record { fin = false; opcode = opcode; payload = p }
                  ∷ fragments Opcode.continuation q ps)
                ≡ some ((esp_ok, none) ∷ in_order ps (first, w), tail.after))
              (append_assoc bytes p (whole q ps))
              (feed-cons realloc d _ _ d.max_message_size esp_ok none
                (collecting first (bytes ++ p)) _ tail.after r tail.runs);
        rests = tail.rests;
        valid = tail.valid;
      }
    where
      a' : Acceptable d.max_message_size first ((bytes ++ p) ++ whole q ps)
      a' = subst (Acceptable d.max_message_size first) (sym (append_assoc bytes p (whole q ps))) a

      continue :
          Refines d.max_message_size false
            (esp_ok, none, collecting first (bytes ++ p))
            (on_valid_frame realloc d false opcode p)
      continue = rw (collect_prefix d.max_message_size first (bytes ++ p) (whole q ps) a') at (
          step_frame d false opcode first bytes p v c (omega (arith, length-append p (whole q ps))))

  -- From a valid defragmenter between messages, with an allocator that does not fail, a message of
  -- bytes that fits in the configured size and an `int`, and that is UTF-8 if it is text, comes out
  -- whole however it is cut into fragments: each call returns ESP_OK, only the last one hands over
  -- a message, with the first frame's opcode and the fragments joined, and the defragmenter is
  -- valid and between messages again.
  pub reassembles :
      (d : Defrag) (opcode : ℕ) (p : List ℕ) (ps : List (List ℕ))
      → IsValid d
      → phase d ≡ idle
      → opcode ≢ Opcode.continuation
      → length (whole p ps) ≤ d.max_message_size
      → d.max_message_size + length (whole p ps) ≤ int_max
      → Bytes (whole p ps)
      → (opcode ≡ Opcode.text → Encodes (whole p ps))
      → (after : Defrag) × (feed realloc d (fragments opcode p ps)
          ≡ some (in_order ps (opcode, whole p ps), after))
        × (phase after ≡ idle)
        × IsValid after
  reassembles d opcode p ps v e n fits small w t = (done.after, done.runs, done.rests, done.valid)
    where
      done : Assembled d (fragments opcode p ps) (in_order ps (opcode, whole p ps))
      done =
          assemble ps d opcode opcode [] p v (inl (e, n, refl, refl)) n
            (record { fits = fits; text = λ q. (accept_iff _ w).1 (t q); made_of_bytes = w }) small

-- The same error for every frame.
unfoldable pub refused : EspErr → List Frame → List Seen
refused e [] = []
refused e (f ∷ fs) = (e, none) ∷ refused e fs

phase-discarding :
    (d : Defrag) (e : EspErr)
    → phase d ≡ discarding e
    → (is_ok d.message_error ≡ false) × (d.message_error ≡ e)
phase-discarding d e h = ground arith

module _ (realloc : Block → ℕ → Block) where
  refused_frame :
      (d : Defrag) (f : Frame)
      → is_ok d.message_error ≡ false
      → Refines d.max_message_size f.fin
          (refuse d.message_error f.fin)
          (on_valid_frame realloc d f.fin f.opcode f.payload)
  refused_frame d f bad =
      rw (on_valid_frame_failed realloc d f.fin f.opcode f.payload bad) (fail-Refines d f.fin bad)

  -- While an error is pending, every frame up to and including the next final one gets that error
  -- and no message, whatever it holds; behind the final one the defragmenter is valid and between
  -- messages.
  pub discards_until_final :
      (d : Defrag) (fs : List Frame) (last : Frame)
      → is_ok d.message_error ≡ false
      → All (λ f. f.fin ≡ false) fs
      → last.fin ≡ true
      → (after : Defrag) × (feed realloc d (fs ++ (last ∷ []))
          ≡ some (refused d.message_error (fs ++ (last ∷ [])), after))
        × (phase after ≡ idle)
        × IsValid after
  unfolding refused
  discards_until_final d [] last bad un fin = (
    r.after,
    feed-cons realloc d last [] d.max_message_size d.message_error none _ [] r.after r
        (unfold feed in refl),
    r.enters ∙ rw fin,
    r.valid,
  )
    where
      r :
          Refines d.max_message_size last.fin
            (refuse d.message_error last.fin)
            (on_valid_frame realloc d last.fin last.opcode last.payload)
      r = refused_frame d last bad
  discards_until_final d (f ∷ fs) last bad un fin =
      let r = refused_frame d f bad in
      let pending = phase-discarding r.after d.message_error (r.enters ∙ rw un.0) in
      let (after, runs, rests, valid) = discards_until_final r.after fs last pending.0 un.1 fin in
      (
        after,
        feed-cons realloc d f _ d.max_message_size d.message_error none _ _ after r (
            subst
              (λ e.
                feed realloc r.after (fs ++ (last ∷ []))
                ≡ some (refused e (fs ++ (last ∷ [])), after))
              pending.1 runs),
        rests,
        valid,
      )
