-- ===== src/Defrag/Invariant.antt =====
-- The representation invariant of xsp_ws_client_defrag.c, and what it means for a call to do as
-- `Defrag.Spec` says.
use xsp.Prelude.{
  memcpy, ℕ, ◌+◌, ◌≤◌, ◌≡◌, refl, Bool, true, false, List, [], ◌∷◌, ◌++◌, append-nil, Option, none,
  some, arith, if◌then◌else◌, length, take, ◌==◌, drop_all,
}
use xsp.Esp.{esp_ok, is_ok}
use xsp.WsTypes.Opcode
use xsp.Utf8.{accept, validate_state}
use xsp.Defrag.Spec.{Phase, idle, collecting, discarding, Message, Reply, refuse}
use xsp.Defrag.{Block, Defrag, Output, Outcome, returned, fail}

abbrev pub contents : Block → List ℕ
contents none = []
contents (some bytes) = bytes

abbrev pub phase : Defrag → Phase
phase d =
    if is_ok d.message_error
    then if d.message_opcode == Opcode.continuation
      then idle
      else collecting d.message_opcode (contents d.message_data)
    else discarding d.message_error

abbrev pub message : Output → Option Message
message out = elim out.message_opcode [
  | none ↦ none
  | some opcode ↦ some (opcode, contents out.message_data)
]

-- `message_data` is a block of `message_size` bytes, null if that is 0; nothing is held between
-- messages or while one is discarded; the automaton's state is that of the bytes held.
pub record IsValid (d : Defrag) : Type 0 where
  pub size : length (contents d.message_data) ≡ d.message_size
  pub null : d.message_size ≡ 0 → d.message_data ≡ none
  pub within : d.message_size ≤ d.max_message_size
  pub empty : d.message_opcode ≡ Opcode.continuation → d.message_size ≡ 0
  pub failed : is_ok d.message_error ≡ false → d.message_opcode ≡ Opcode.continuation
  pub utf8 :
      d.message_opcode ≡ Opcode.text
      → d.message_utf8_state ≡ validate_state accept (contents d.message_data)

-- A call returned what the specification says, in a state that stands for the specification's.
pub record Refines (max : ℕ) (fin : Bool) (reply : Reply) (o : Outcome) : Type 0 where
  pub out : Output
  pub after : Defrag
  pub returns : o ≡ returned reply.0 (some out) after
  pub delivers : message out ≡ reply.1
  pub enters : phase after ≡ reply.2
  pub flags : out.done ≡ fin
  pub sizes : out.message_size ≡ length (contents out.message_data)
  pub valid : IsValid after
  pub same_max : after.max_message_size ≡ max

pub fail-Refines :
    (d : Defrag) (fin : Bool)
    → is_ok d.message_error ≡ false
    → Refines d.max_message_size fin (refuse d.message_error fin) (fail d fin)
unfolding fail
fail-Refines d fin h = record {
  out = record { done = fin; message_opcode = none; message_size = 0; message_data = none };
  after = record d {
    message_opcode = Opcode.continuation;
    message_size = 0;
    message_data = none;
    message_error = if fin then esp_ok else d.message_error;
  };
  returns = refl;
  delivers = refl;
  enters = ground arith;
  flags = refl;
  sizes = refl;
  valid = ground arith;
  same_max = refl;
}

-- What the C standard says of a `realloc` that succeeds.
pub record Reallocates (realloc : Block → ℕ → Block) : Type 0 where
  pub resizes : (b : Block) (n : ℕ) (block : List ℕ) → realloc b n ≡ some block → length block ≡ n
  pub keeps :
      (b : Block) (n : ℕ) (block : List ℕ)
      → realloc b n ≡ some block
      → length (contents b) ≤ n
      → take (length (contents b)) block ≡ contents b

abbrev pub is_allocated : Block → Bool
is_allocated none = false
is_allocated (some block) = true

-- Whether this call's `realloc` succeeds, or would.
abbrev pub allocates : (Block → ℕ → Block) → Defrag → List ℕ → Bool
allocates realloc d payload =
    is_allocated (realloc d.message_data (d.message_size + length payload))

pub memcpy-append :
    (block old payload : List ℕ)
    → length block ≡ length old + length payload
    → take (length old) block ≡ old
    → memcpy block (length old) payload ≡ old ++ payload
memcpy-append block old payload h e =
    rw (e, drop_all (length old + length payload) block (omega arith), append-nil payload)

pub length-zero : (xs : List ℕ) → length xs ≡ 0 → xs ≡ []
length-zero [] h = refl
length-zero (x ∷ xs) h = absurd (omega arith)

-- The part of the invariant that holds inside a call too.
pub record Holds (d : Defrag) : Type 0 where
  pub size : length (contents d.message_data) ≡ d.message_size
  pub null : d.message_size ≡ 0 → d.message_data ≡ none
