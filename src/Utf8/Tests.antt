-- ===== src/Utf8/Tests.antt =====
-- The automaton of xsp_ws_client_utf8.c on a few strings.
use xsp.Prelude.{◌+◌, ◌<◌, ◌≡◌, ◌↔◌, refl, true, false, [], ◌∷◌, arith, length, get_or}
use xsp.Utf8.{accept, reject, utf8d, step, validate_state, validate}
use xsp.Utf8.Sound.{Encodes, validate_iff}
use xsp.Utf8.Fragments.{IsState, IsHopeless, step_bounds, fragments_iff}

-- The euro sign; a surrogate; an overlong slash.
strings :
    (validate (0xe2 ∷ 0x82 ∷ 0xac ∷ []) ≡ true)
    × (validate (0xed ∷ 0xa0 ∷ 0x80 ∷ []) ≡ false)
    × (validate (0xc0 ∷ 0xaf ∷ []) ≡ false)
unfolding validate validate_state step utf8d
strings = (refl, refl, refl)

validate_iff_example :
    (validate (0xe2 ∷ 0x82 ∷ 0xac ∷ []) ≡ true) ↔ Encodes (0xe2 ∷ 0x82 ∷ 0xac ∷ [])
validate_iff_example = validate_iff (0xe2 ∷ 0x82 ∷ 0xac ∷ []) (omega arith)

fragments_iff_example :
    ((validate_state (validate_state accept (0xe2 ∷ 0x82 ∷ [])) (0xac ∷ []) ≡ accept)
      ↔ Encodes (0xe2 ∷ 0x82 ∷ 0xac ∷ []))
    × ((validate_state (validate_state accept (0xe2 ∷ 0x82 ∷ [])) (0xac ∷ []) ≡ reject)
        ↔ IsHopeless (0xe2 ∷ 0x82 ∷ 0xac ∷ []))
fragments_iff_example = fragments_iff (0xe2 ∷ 0x82 ∷ []) (0xac ∷ []) (omega arith) (omega arith)

step_bounds_here :
    (0xff < length utf8d) × (256 + 96 + get_or utf8d 0xff 0 < length utf8d) × IsState (step 96 0xff)
step_bounds_here = step_bounds 96 0xff (omega arith) (omega arith)
