-- ===== src/Defrag/Store.antt =====
-- The end of a successful `xsp_ws_client_defrag_on_data_frame`: the size check, `realloc`, `memcpy`.
use xsp.Prelude.{
  memcpy, ℕ, ◌+◌, ◌≤◌, ◌<◌, ◌≡◌, ◌≢◌, refl, ap, ◌∙◌, Bool, true, false, not, ◌&&◌, List, ◌++◌, none,
  some, arith, ltb, lt→ltb, ltb-eq_false, if◌then◌else◌, length, length-append, Option-cases,
  Bool-cases, inl, inr,
}
use native.Mathlib.Decide.{dec_lt}
use xsp.Prelude.Int.{int_max}
use xsp.Esp.{esp_ok, esp_err_invalid_size, esp_err_no_mem, is_ok}
use xsp.WsTypes.Opcode
use xsp.Utf8.{accept, validate_state}
use xsp.Defrag.Spec.{idle, collecting, store}
use xsp.Defrag.{Block, Defrag, Outcome, fail, finish, grow, append_payload}
use xsp.Defrag.Invariant.{
  contents, Refines, fail-Refines, Reallocates, allocates, memcpy-append, length-zero, Holds,
}

module _ (realloc : Block → ℕ → Block) (law : Reallocates realloc) where
  -- With memory, the new block holds the old bytes and the payload.
  record Grown (d : Defrag) (payload : List ℕ) : Type 0 where
    block : Block
    grows : grow realloc d payload (d.message_size + length payload) ≡ some block
    holds : contents block ≡ contents d.message_data ++ payload
    null : d.message_size + length payload ≡ 0 → block ≡ none

  grow_nothing :
      (d : Defrag) (payload : List ℕ)
      → Holds d
      → d.message_size + length payload ≡ 0
      → Grown d payload
  unfolding grow
  grow_nothing d payload v z = record {
    block = none;
    grows = ground arith;
    holds = rw (v.null (omega arith), length-zero payload (omega arith));
    null = λ q. refl;
  }

  grow_block :
      (d : Defrag) (payload block : List ℕ)
      → Holds d
      → 0 < d.message_size + length payload
      → realloc d.message_data (d.message_size + length payload) ≡ some block
      → Grown d payload
  unfolding grow
  grow_block d payload block v pos e = record {
    block = some (memcpy block d.message_size payload);
    grows = ground arith;
    holds = rw (← v.size) (
        memcpy-append block (contents d.message_data) payload
          (law.resizes d.message_data _ block e ∙ omega (arith, v.size))
          (law.keeps d.message_data _ block e (omega (arith, v.size))));
    null = λ q. absurd (omega arith);
  }

  grow-Grown :
      (d : Defrag) (payload : List ℕ)
      → Holds d
      → ltb 0 (d.message_size + length payload) && not (allocates realloc d payload) ≡ false
      → Grown d payload
  grow-Grown d payload v h = elim (dec_lt 0 (d.message_size + length payload)) [
    | no z ↦ grow_nothing d payload v (omega arith)
    | yes pos ↦ elim (Option-cases (realloc d.message_data (d.message_size + length payload))) [
      | inl e ↦ absurd (ground arith)
      | inr (block, e) ↦ grow_block d payload block v pos e
    ]
  ]

  grow_fails :
      (d : Defrag) (payload : List ℕ)
      → ltb 0 (d.message_size + length payload) && not (allocates realloc d payload) ≡ true
      → grow realloc d payload (d.message_size + length payload) ≡ none
  unfolding grow
  grow_fails d payload h = ground arith

  -- The message so far, and the automaton's state behind it, once the payload's text is checked.
  pub record Ready (d : Defrag) (payload : List ℕ) : Type 0 where
    pub held : Holds d
    pub sound : is_ok d.message_error ≡ true
    pub begun : d.message_opcode ≢ Opcode.continuation
    pub checked :
        d.message_opcode ≡ Opcode.text
        → d.message_utf8_state ≡ validate_state accept (contents d.message_data ++ payload)

  abbrev pub RefinesStore : Defrag → List ℕ → Bool → Outcome → Type 0
  RefinesStore d payload fin o =
      Refines d.max_message_size fin
        (store d.max_message_size (allocates realloc d payload) d.message_opcode
          (contents d.message_data ++ payload) fin)
        o

  finish-Refines :
      (d : Defrag) (fin : Bool) (payload : List ℕ)
      → Ready d payload
      → (g : Grown d payload) → d.message_size + length payload ≤ d.max_message_size
      → let whole = contents d.message_data ++ payload in
        Refines d.max_message_size fin
          (if fin
            then (esp_ok, some (d.message_opcode, whole), idle)
            else (esp_ok, none, collecting d.message_opcode whole))
          (finish d fin (d.message_size + length payload) g.block)
  unfolding finish
  finish-Refines d true payload r g fits = record {
    out = record {
      done = true;
      message_opcode = some d.message_opcode;
      message_size = d.message_size + length payload;
      message_data = g.block;
    };
    after = record d {
      message_opcode = Opcode.continuation;
      message_size = 0;
      message_data = none;
    };
    returns = refl;
    delivers = rw g.holds;
    enters = ground arith;
    flags = refl;
    sizes = omega (arith, ap length g.holds, length-append (contents d.message_data) payload);
    valid = ground arith;
    same_max = refl;
  }
  finish-Refines d false payload r g fits = record {
    out = record { done = false; message_opcode = none; message_size = 0; message_data = none };
    after = record d { message_size = d.message_size + length payload; message_data = g.block };
    returns = refl;
    delivers = refl;
    enters = ground (arith, g.holds);
    flags = refl;
    sizes = refl;
    valid = record {
      size = omega (arith, ap length g.holds, length-append (contents d.message_data) payload);
      null = g.null;
      within = fits;
      empty = λ q. absurd (r.begun q);
      failed = λ q. absurd (ground arith);
      utf8 = λ q. rw g.holds (r.checked q);
    };
    same_max = refl;
  }

  append_payload_too_big :
      (d : Defrag) (fin : Bool) (payload : List ℕ)
      → d.message_size + length payload ≤ int_max
      → d.max_message_size < d.message_size + length payload
      → append_payload realloc d fin payload
        ≡ fail (record d { message_error = esp_err_invalid_size }) fin
  unfolding append_payload
  append_payload_too_big d fin payload small big = ground arith

  append_payload-grow :
      (d : Defrag) (fin : Bool) (payload : List ℕ)
      → d.message_size + length payload ≤ int_max
      → d.message_size + length payload ≤ d.max_message_size
      → append_payload realloc d fin payload
        ≡ (elim (grow realloc d payload (d.message_size + length payload)) [
          | none ↦ fail (record d { message_error = esp_err_no_mem }) fin
          | some new_data ↦ finish d fin (d.message_size + length payload) new_data
        ])
  unfolding append_payload
  append_payload-grow d fin payload small fits = rw (ltb-eq_false _ _ small, ltb-eq_false _ _ fits)

  pub append_payload-Refines :
      (d : Defrag) (fin : Bool) (payload : List ℕ)
      → Ready d payload
      → d.message_size + length payload ≤ int_max
      → RefinesStore d payload fin (append_payload realloc d fin payload)
  append_payload-Refines d fin payload r small =
      rw whole_length (elim (dec_lt d.max_message_size size) [
        | yes big ↦
            rw (lt→ltb _ _ big, append_payload_too_big d fin payload small big)
              (fail-Refines (record d { message_error = esp_err_invalid_size }) fin refl)
        | no fits ↦
            rw
              (
                ltb-eq_false d.max_message_size size (omega arith),
                append_payload-grow d fin payload small (omega arith),
              )
              (elim (Bool-cases (ltb 0 size && not (allocates realloc d payload))) [
                | inl failed ↦
                    rw (failed, grow_fails d payload failed)
                      (fail-Refines (record d { message_error = esp_err_no_mem }) fin refl)
                | inr allocated ↦
                    let g = grow-Grown d payload r.held allocated in
                    rw (allocated, g.grows) (finish-Refines d fin payload r g (omega arith))
              ])
      ])
    where
      size : ℕ
      size = d.message_size + length payload

      whole_length : length (contents d.message_data ++ payload) ≡ size
      whole_length = omega (arith, length-append (contents d.message_data) payload)
