-- ===== src/Utf8/Step.antt =====
-- The table of xsp_ws_client_utf8.c, read as ranges of bytes.
use xsp.Prelude.{
  ℕ, ◌<◌, ◌≡◌, refl, Bool, true, ◌&&◌, ◌∷◌, List, [], ◌++◌, ltb, leb, ◌==◌, ==_iff, if◌then◌else◌,
  All,
}
use xsp.Prelude.Table.{passes, row-passes}
use xsp.Utf8.{accept, reject, utf8d, step, validate_state}

-- How many bytes of what kind must follow: the number of a state is twelve times its row.
abbrev pub one_more : ℕ
one_more = 24

abbrev pub two_more : ℕ
two_more = 36

abbrev pub after_e0 : ℕ
after_e0 = 48

abbrev pub after_ed : ℕ
after_ed = 60

abbrev pub after_f0 : ℕ
after_f0 = 72

abbrev pub three_more : ℕ
three_more = 84

abbrev pub after_f4 : ℕ
after_f4 = 96

abbrev in_range : ℕ → ℕ → ℕ → Bool
in_range lo hi b = leb lo b && leb b hi

-- The first byte of a character.
abbrev pub lead : ℕ → ℕ
lead b =
    if ltb b 0x80
    then accept
    else if ltb b 0xc2
    then reject
    else if ltb b 0xe0
    then one_more
    else if b == 0xe0
    then after_e0
    else if b == 0xed
    then after_ed
    else if ltb b 0xf0
    then two_more
    else if b == 0xf0
    then after_f0
    else if ltb b 0xf4
    then three_more
    else if b == 0xf4
    then after_f4
    else reject

-- A later byte between `lo` and `hi`.
abbrev pub follow : ℕ → ℕ → ℕ → ℕ → ℕ
follow lo hi target b = if in_range lo hi b then target else reject

-- In `state` the table maps every byte as `next` does.
abbrev Agrees : ℕ → (ℕ → ℕ) → Type 0
Agrees state next = passes 256 (λ b. step state b == next b) ≡ true

step_of_Agrees :
    (state : ℕ) (next : ℕ → ℕ) (b : ℕ) → Agrees state next → b < 256 → step state b ≡ next b
step_of_Agrees state next b h lt =
    (==_iff (step state b) (next b)).0 (row-passes 256 (λ b. step state b == next b) lt h)

lead_table : Agrees accept lead
unfolding passes step utf8d
lead_table = refl

pub step-accept : (b : ℕ) → b < 256 → step accept b ≡ lead b
step-accept b h = step_of_Agrees accept lead b lead_table h

one_more_table : Agrees one_more (follow 0x80 0xbf accept)
unfolding passes step utf8d
one_more_table = refl

pub step-one_more : (b : ℕ) → b < 256 → step one_more b ≡ follow 0x80 0xbf accept b
step-one_more b h = step_of_Agrees one_more (follow 0x80 0xbf accept) b one_more_table h

two_more_table : Agrees two_more (follow 0x80 0xbf one_more)
unfolding passes step utf8d
two_more_table = refl

pub step-two_more : (b : ℕ) → b < 256 → step two_more b ≡ follow 0x80 0xbf one_more b
step-two_more b h = step_of_Agrees two_more (follow 0x80 0xbf one_more) b two_more_table h

after_e0_table : Agrees after_e0 (follow 0xa0 0xbf one_more)
unfolding passes step utf8d
after_e0_table = refl

pub step-after_e0 : (b : ℕ) → b < 256 → step after_e0 b ≡ follow 0xa0 0xbf one_more b
step-after_e0 b h = step_of_Agrees after_e0 (follow 0xa0 0xbf one_more) b after_e0_table h

after_ed_table : Agrees after_ed (follow 0x80 0x9f one_more)
unfolding passes step utf8d
after_ed_table = refl

pub step-after_ed : (b : ℕ) → b < 256 → step after_ed b ≡ follow 0x80 0x9f one_more b
step-after_ed b h = step_of_Agrees after_ed (follow 0x80 0x9f one_more) b after_ed_table h

after_f0_table : Agrees after_f0 (follow 0x90 0xbf two_more)
unfolding passes step utf8d
after_f0_table = refl

pub step-after_f0 : (b : ℕ) → b < 256 → step after_f0 b ≡ follow 0x90 0xbf two_more b
step-after_f0 b h = step_of_Agrees after_f0 (follow 0x90 0xbf two_more) b after_f0_table h

three_more_table : Agrees three_more (follow 0x80 0xbf two_more)
unfolding passes step utf8d
three_more_table = refl

pub step-three_more : (b : ℕ) → b < 256 → step three_more b ≡ follow 0x80 0xbf two_more b
step-three_more b h = step_of_Agrees three_more (follow 0x80 0xbf two_more) b three_more_table h

after_f4_table : Agrees after_f4 (follow 0x80 0x8f two_more)
unfolding passes step utf8d
after_f4_table = refl

pub step-after_f4 : (b : ℕ) → b < 256 → step after_f4 b ≡ follow 0x80 0x8f two_more b
step-after_f4 b h = step_of_Agrees after_f4 (follow 0x80 0x8f two_more) b after_f4_table h

reject_table : Agrees reject (λ b. reject)
unfolding passes step utf8d
reject_table = refl

abbrev pub Bytes : List ℕ → Type 0
Bytes = All (λ b. b < 256)

-- From the rejecting state no bytes lead away.
pub validate_state-reject : (bs : List ℕ) → Bytes bs → validate_state reject bs ≡ reject
unfolding validate_state
validate_state-reject [] h = refl
validate_state-reject (b ∷ bs) h =
    rw (step_of_Agrees reject (λ b. reject) b reject_table h.0) (validate_state-reject bs h.1)

-- A check of two fragments, one after the other, is a check of their concatenation.
pub validate_state-append :
    (state : ℕ) (xs ys : List ℕ)
    → validate_state state (xs ++ ys) ≡ validate_state (validate_state state xs) ys
unfolding validate_state
validate_state-append state [] ys = refl
validate_state-append state (x ∷ xs) ys = validate_state-append (step state x) xs ys
