-- ===== src/Utf8/Scalar.antt =====
-- UTF-8 as RFC 3629 defines it: the encoding of a list of Unicode scalar values.
use xsp.Prelude.{
  ℕ, ◌+◌, ◌/◌, ◌%◌, ◌≤◌, ◌<◌, ◌≡◌, refl, ◌⊎◌, List, [], ◌∷◌, ◌++◌, arith, ltb, if◌then◌else◌, All,
  append_assoc, append-nil, ◌∙◌,
}
use xsp.Utf8.{accept, validate_state}
use xsp.Utf8.Step.{
  two_more, step-accept, step-one_more, step-two_more, step-after_e0, step-after_ed, step-after_f0,
  step-three_more, step-after_f4,
}

-- A code point that is no surrogate.
abbrev pub IsScalar : ℕ → Type 0
IsScalar c = (c < 0xd800) ⊎ ((0xe000 ≤ c) × (c ≤ 0x10ffff))

unfoldable pub encode : ℕ → List ℕ
encode c =
    if ltb c 0x80
    then c ∷ []
    else if ltb c 0x800
    then (0xc0 + c / 64) ∷ (0x80 + c % 64) ∷ []
    else if ltb c 0x10000
    then (0xe0 + c / 4096) ∷ (0x80 + c / 64 % 64) ∷ (0x80 + c % 64) ∷ []
    else (0xf0 + c / 262144) ∷ (0x80 + c / 4096 % 64) ∷ (0x80 + c / 64 % 64) ∷ (0x80 + c % 64) ∷ []

unfoldable pub encode_all : List ℕ → List ℕ
encode_all [] = []
encode_all (c ∷ cs) = encode c ++ encode_all cs

run_one :
    (a : ℕ) (rest : List ℕ)
    → a < 0x80
    → validate_state accept (a ∷ rest) ≡ validate_state accept rest
unfolding validate_state
run_one a rest h = ground (arith, step-accept a)

-- A character of two, three or four bytes, by the ranges of its first two.
run_two :
    (a b : ℕ) (rest : List ℕ)
    → 0xc2 ≤ a
    → a < 0xe0
    → 0x80 ≤ b
    → b < 0xc0
    → validate_state accept (a ∷ b ∷ rest) ≡ validate_state accept rest
unfolding validate_state
run_two a b rest ha ha' hb hb' = ground (arith, step-accept a, step-one_more b)

run_tail :
    (b c : ℕ) (rest : List ℕ)
    → 0x80 ≤ b
    → b < 0xc0
    → 0x80 ≤ c
    → c < 0xc0
    → validate_state two_more (b ∷ c ∷ rest) ≡ validate_state accept rest
unfolding validate_state
run_tail b c rest hb hb' hc hc' = ground (arith, step-two_more b, step-one_more c)

run_three :
    (a b c : ℕ) (rest : List ℕ)
    → 0xe0 ≤ a
    → a < 0xf0
    → 0x80 ≤ b
    → b < 0xc0
    → 0x80 ≤ c
    → c < 0xc0
    → (a ≡ 0xe0 → 0xa0 ≤ b)
    → (a ≡ 0xed → b < 0xa0)
    → validate_state accept (a ∷ b ∷ c ∷ rest) ≡ validate_state accept rest
unfolding validate_state
run_three a b c rest ha ha' hb hb' hc hc' low sur =
    ground
      (arith, step-accept a, step-two_more b, step-after_e0 b, step-after_ed b, step-one_more c)

run_four :
    (a b c d : ℕ) (rest : List ℕ)
    → 0xf0 ≤ a
    → a < 0xf5
    → 0x80 ≤ b
    → b < 0xc0
    → 0x80 ≤ c
    → c < 0xc0
    → 0x80 ≤ d
    → d < 0xc0
    → (a ≡ 0xf0 → 0x90 ≤ b)
    → (a ≡ 0xf4 → b < 0x90)
    → validate_state accept (a ∷ b ∷ c ∷ d ∷ rest) ≡ validate_state accept rest
run_four a b c d rest ha ha' hb hb' hc hc' hd hd' low high =
    first_two ∙ run_tail c d rest hc hc' hd hd'
  where
    first_two :
        validate_state accept (a ∷ b ∷ c ∷ d ∷ rest) ≡ validate_state two_more (c ∷ d ∷ rest)
    first_two =
        unfold validate_state in
        ground (arith, step-accept a, step-three_more b, step-after_f0 b, step-after_f4 b)

-- The automaton takes one encoded character from the accepting state back to it.
pub encode-accept :
    (c : ℕ) (rest : List ℕ)
    → IsScalar c
    → validate_state accept (encode c ++ rest) ≡ validate_state accept rest
unfolding encode
encode-accept c rest h = ground (
  arith,
  run_one c rest,
  run_two (0xc0 + c / 64) (0x80 + c % 64) rest,
  run_three (0xe0 + c / 4096) (0x80 + c / 64 % 64) (0x80 + c % 64) rest,
  run_four (0xf0 + c / 262144) (0x80 + c / 4096 % 64) (0x80 + c / 64 % 64) (0x80 + c % 64) rest,
)

-- So it accepts the encoding of any list of scalar values, whatever bytes follow.
pub encode_all-accept :
    (cs : List ℕ) (rest : List ℕ)
    → All IsScalar cs
    → validate_state accept (encode_all cs ++ rest) ≡ validate_state accept rest
unfolding encode_all
encode_all-accept [] rest h = refl
encode_all-accept (c ∷ cs) rest h =
    rw append_assoc (encode-accept c (encode_all cs ++ rest) h.0 ∙ encode_all-accept cs rest h.1)

pub encode_all-accepted :
    (cs : List ℕ) → All IsScalar cs → validate_state accept (encode_all cs) ≡ accept
unfolding validate_state
encode_all-accepted cs h = rw append-nil at (encode_all-accept cs [] h)
