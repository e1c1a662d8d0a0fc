-- ===== src/Utf8/Fragments.antt =====
-- What a state of the automaton says of the bytes read so far: the contract in
-- components/xsp_ws_client/include/xsp_ws_client_utf8.h.
use xsp.Prelude.{
  ℕ, ◌+◌, ◌*◌, ◌/◌, ◌%◌, ◌<◌, ◌≡◌, ◌≢◌, refl, ◌↔◌, List, [], ◌∷◌, ◌++◌, arith, ltb, if◌then◌else◌,
  length, Bool, true, false, ap, ◌==◌, ◌&&◌, ◌||◌, get_or, ◌∙◌,
}
use mathlib.Core.Path.{subst}
use native.Mathlib.Decide.{ℕ_discrete}
use xsp.Prelude.Table.{passes, row-passes}
use xsp.Utf8.{accept, reject, utf8d, step, validate_state}
use xsp.Utf8.Step.{Bytes, validate_state-reject, validate_state-append}
use xsp.Utf8.Sound.{Encodes, accept_iff}

-- One of the nine states: a row of the transition table.
abbrev pub IsState : ℕ → Type 0
IsState state = (state % 12 ≡ 0) × (state < 108)

abbrev row_is_safe : ℕ → ℕ → Bool
row_is_safe row byte =
    ltb (256 + 12 * row + get_or utf8d byte 0) (length utf8d)
    && step (12 * row) byte % 12 == 0
    && ltb (step (12 * row) byte) 108

safe_table : passes 9 (λ row. passes 256 (row_is_safe row)) ≡ true
unfolding passes step utf8d
safe_table = refl

row_is_safe_lem : (row byte : ℕ) → row < 9 → byte < 256 → row_is_safe row byte ≡ true
row_is_safe_lem row byte h k =
    row-passes 256 (row_is_safe row) k (row-passes 9 (λ r. passes 256 (row_is_safe r)) h safe_table)

length-utf8d : length utf8d ≡ 364
unfolding utf8d
length-utf8d = refl

-- From a state, on a byte, both reads of a round stay inside the table, and lead to a state.
pub step_bounds :
    (state byte : ℕ)
    → IsState state
    → byte < 256
    → (byte < length utf8d)
      × (256 + state + get_or utf8d byte 0 < length utf8d)
      × IsState (step state byte)
step_bounds state byte h k =
    subst
      (λ s.
        (byte < length utf8d)
        × (256 + s + get_or utf8d byte 0 < length utf8d)
        × IsState (step s byte))
      row_is_state (ground (arith, length-utf8d, row_is_safe_lem (state / 12) byte))
  where
    row_is_state : 12 * (state / 12) ≡ state
    row_is_state = omega arith

pub validate_state-IsState :
    (state : ℕ) (bs : List ℕ) → IsState state → Bytes bs → IsState (validate_state state bs)
unfolding validate_state
validate_state-IsState state [] h w = h
validate_state-IsState state (b ∷ bs) h w =
    validate_state-IsState (step state b) bs (step_bounds state b h w.0).2 w.1

-- The bytes that complete the character begun in a state.
abbrev completion : ℕ → List ℕ
completion state =
    if state == accept
    then []
    else if state == 24
    then 0x80 ∷ []
    else if state == 36 || state == 60
    then 0x80 ∷ 0x80 ∷ []
    else if state == 48
    then 0xa0 ∷ 0x80 ∷ []
    else if state == 72
    then 0x90 ∷ 0x80 ∷ 0x80 ∷ []
    else 0x80 ∷ 0x80 ∷ 0x80 ∷ []

completes : ℕ → Bool
completes row = 12 * row == reject || validate_state (12 * row) (completion (12 * row)) == accept

completes_table : passes 9 completes ≡ true
unfolding passes completes validate_state step utf8d
completes_table = refl

completion-accept :
    (state : ℕ) → IsState state → state ≢ reject → validate_state state (completion state) ≡ accept
unfolding completes
completion-accept state h n =
    subst (λ s. s ≢ reject → validate_state s (completion s) ≡ accept) row_is_state
      (λ m. ground (arith, row-passes 9 completes {i = state / 12} (omega arith) completes_table)) n
  where
    row_is_state : 12 * (state / 12) ≡ state
    row_is_state = omega arith

if-Bytes : (b : Bool) (xs ys : List ℕ) → Bytes xs → Bytes ys → Bytes (if b then xs else ys)
if-Bytes true xs ys hx hy = hx
if-Bytes false xs ys hx hy = hy

completion-Bytes : (state : ℕ) → Bytes (completion state)
completion-Bytes state = if-Bytes (state == accept) _ _ tt (
    if-Bytes (state == 24) _ _ (omega arith) (
      if-Bytes (state == 36 || state == 60) _ _ (omega arith) (
        if-Bytes (state == 48) _ _ (omega arith)
          (if-Bytes (state == 72) _ _ (omega arith) (omega arith)))))

Bytes-append : (xs ys : List ℕ) → Bytes xs → Bytes ys → Bytes (xs ++ ys)
Bytes-append [] ys hx hy = hy
Bytes-append (x ∷ xs) ys hx hy = (hx.0, Bytes-append xs ys hx.1 hy)

-- No bytes that follow make the string valid.
abbrev pub IsHopeless : List ℕ → Type 0
IsHopeless bs = (ext : List ℕ) → Bytes ext → ¬ Encodes (bs ++ ext)

reject_iff : (bs : List ℕ) → Bytes bs → (validate_state accept bs ≡ reject) ↔ IsHopeless bs
reject_iff bs w = (hopeless, rejected)
  where
    state : ℕ
    state = validate_state accept bs

    hopeless : validate_state accept bs ≡ reject → IsHopeless bs
    hopeless e ext x valid = absurd (
        omega (
          arith,
          e,
          (accept_iff (bs ++ ext) (Bytes-append bs ext w x)).1 valid,
          validate_state-append accept bs ext,
          validate_state-reject ext x,
          ap (λ s. validate_state s ext) e,
        ))

    completed : state ≢ reject → Encodes (bs ++ completion state)
    completed n =
        (accept_iff (bs ++ completion state)
            (Bytes-append bs (completion state) w (completion-Bytes state))).0
          (validate_state-append accept bs (completion state)
            ∙ completion-accept state (validate_state-IsState accept bs (omega arith) w) n)

    rejected : IsHopeless bs → state ≡ reject
    rejected h = elim (ℕ_discrete state reject) [
      | yes e ↦ e
      | no n ↦ absurd (h (completion state) (completion-Bytes state) (completed n))
    ]

-- A message checked in two fragments, the second from the state that the first left: the state is
-- ACCEPT exactly when the whole is valid UTF-8, and REJECT exactly when no further bytes can make
-- it valid.
pub fragments_iff :
    (xs ys : List ℕ)
    → Bytes xs
    → Bytes ys
    → let state = validate_state (validate_state accept xs) ys in
      ((state ≡ accept) ↔ Encodes (xs ++ ys)) × ((state ≡ reject) ↔ IsHopeless (xs ++ ys))
fragments_iff xs ys hx hy =
    rw (← validate_state-append accept xs ys)
      (accept_iff _ (Bytes-append xs ys hx hy), reject_iff _ (Bytes-append xs ys hx hy))
