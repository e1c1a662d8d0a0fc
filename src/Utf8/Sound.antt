-- ===== src/Utf8/Sound.antt =====
-- What the automaton accepts is the encoding of scalar values, and nothing else.
use xsp.Prelude.{
  ◌&&◌, ℕ, suc, zero, ◌+◌, ◌*◌, ◌-◌, ◌≤◌, ◌<◌, ◌≡◌, ◌≢◌, refl, inl, inr, ◌↔◌, List, [], ◌∷◌, ◌++◌,
  arith, leb, All, length, ◌∙◌, ap, sym, Bool-cases, true, ==_iff,
}
use mathlib.Core.Path.{subst}
use native.Mathlib.Nat.{le_trans}
use native.Mathlib.Decide.{dec_lt, ℕ_discrete}
use xsp.Utf8.{accept, reject, step, validate_state, validate}
use xsp.Utf8.Step.{
  Bytes, lead, follow, validate_state-reject, one_more, two_more, after_e0, after_ed, after_f0,
  three_more, after_f4, step-accept, step-one_more, step-two_more, step-after_e0, step-after_ed,
  step-after_f0, step-three_more, step-after_f4,
}
use xsp.Utf8.Scalar.{IsScalar, encode, encode_all, encode_all-accepted}

-- `bs` begins with a byte between `lo` and `hi`, and the automaton accepts the rest from `target`.
record Follows (lo hi target : ℕ) (bs : List ℕ) : Type 0 where
  byte : ℕ
  rest : List ℕ
  split : bs ≡ byte ∷ rest
  low : lo ≤ byte
  high : byte ≤ hi
  accepted : validate_state target rest ≡ accept
  bytes : Bytes rest

follows :
    (state lo hi target : ℕ)
    → ((b : ℕ) → b < 256 → step state b ≡ follow lo hi target b)
    → state ≢ accept
    → (bs : List ℕ) → Bytes bs
    → validate_state state bs ≡ accept
    → Follows lo hi target bs
unfolding validate_state
follows state lo hi target h ne [] w e = absurd (ne e)
follows state lo hi target h ne (b ∷ bs) w e = elim (Bool-cases (leb lo b && leb b hi)) [
  | inl inside ↦ record {
    byte = b;
    rest = bs;
    split = refl;
    low = ground arith;
    high = ground arith;
    accepted = ground (arith, h b);
    bytes = w.1;
  }
  | inr outside ↦ absurd (ground (arith, h b, validate_state-reject bs w.1))
]

-- The first character of an accepted string.
record Char (bs : List ℕ) : Type 0 where
  scalar : ℕ
  rest : List ℕ
  is_scalar : IsScalar scalar
  split : bs ≡ encode scalar ++ rest
  accepted : validate_state accept rest ≡ accept
  bytes : Bytes rest
  shorter : length rest < length bs

Char-one :
    (a : ℕ) (bs : List ℕ) → a < 0x80 → Bytes bs → validate_state accept bs ≡ accept → Char (a ∷ bs)
unfolding encode
Char-one a bs h w e = record {
  scalar = a;
  rest = bs;
  is_scalar = inl (omega arith);
  split = ground arith;
  accepted = e;
  bytes = w;
  shorter = omega arith;
}

Char-two :
    (a b : ℕ) (bs : List ℕ)
    → 0xc2 ≤ a
    → a < 0xe0
    → 0x80 ≤ b
    → b ≤ 0xbf
    → Bytes bs
    → validate_state accept bs ≡ accept
    → Char (a ∷ b ∷ bs)
unfolding encode
Char-two a b bs ha ha' hb hb' w e = record {
  scalar = (a - 0xc0) * 64 + (b - 0x80);
  rest = bs;
  is_scalar = inl (omega arith);
  split = ground arith;
  accepted = e;
  bytes = w;
  shorter = omega arith;
}

Char-three :
    (a b c : ℕ) (bs : List ℕ)
    → 0xe0 ≤ a
    → a < 0xf0
    → 0x80 ≤ b
    → b ≤ 0xbf
    → 0x80 ≤ c
    → c ≤ 0xbf
    → (a ≡ 0xe0 → 0xa0 ≤ b)
    → (a ≡ 0xed → b ≤ 0x9f)
    → Bytes bs
    → validate_state accept bs ≡ accept
    → Char (a ∷ b ∷ c ∷ bs)
unfolding encode
Char-three a b c bs ha ha' hb hb' hc hc' low sur w e = record {
  scalar = (a - 0xe0) * 4096 + (b - 0x80) * 64 + (c - 0x80);
  rest = bs;
  is_scalar = ground arith;
  split = ground arith;
  accepted = e;
  bytes = w;
  shorter = omega arith;
}

Char-four :
    (a b c d : ℕ) (bs : List ℕ)
    → 0xf0 ≤ a
    → a < 0xf5
    → 0x80 ≤ b
    → b ≤ 0xbf
    → 0x80 ≤ c
    → c ≤ 0xbf
    → 0x80 ≤ d
    → d ≤ 0xbf
    → (a ≡ 0xf0 → 0x90 ≤ b)
    → (a ≡ 0xf4 → b ≤ 0x8f)
    → Bytes bs
    → validate_state accept bs ≡ accept
    → Char (a ∷ b ∷ c ∷ d ∷ bs)
unfolding encode
Char-four a b c d bs ha ha' hb hb' hc hc' hd hd' low high w e = record {
  scalar = (a - 0xf0) * 262144 + (b - 0x80) * 4096 + (c - 0x80) * 64 + (d - 0x80);
  rest = bs;
  is_scalar = ground arith;
  split = ground arith;
  accepted = e;
  bytes = w;
  shorter = omega arith;
}

-- The same from the automaton's state behind the first byte.
from_one_more :
    (a : ℕ) (bs : List ℕ)
    → 0xc2 ≤ a
    → a < 0xe0
    → Bytes bs
    → validate_state one_more bs ≡ accept
    → Char (a ∷ bs)
from_one_more a bs h h' w e =
    let f = follows one_more 0x80 0xbf accept step-one_more (λ q. omega arith) bs w e in
    rw f.split (Char-two a f.byte f.rest h h' f.low f.high f.bytes f.accepted)

module _ (a lo hi : ℕ) (bs : List ℕ) (hl : 0x80 ≤ lo) (hh : hi ≤ 0xbf) where
  from_two_more :
      0xe0 ≤ a
      → a < 0xf0
      → (a ≡ 0xe0 → 0xa0 ≤ lo)
      → (a ≡ 0xed → hi ≤ 0x9f)
      → Follows lo hi one_more bs
      → Char (a ∷ bs)
  from_two_more h h' low sur f =
      let g =
        follows one_more 0x80 0xbf accept step-one_more (λ q. omega arith) f.rest f.bytes
          f.accepted in
      rw f.split (
        subst (λ r. Char (a ∷ f.byte ∷ r)) (sym g.split)
          (Char-three a f.byte g.byte g.rest h h' (omega (arith, f.low)) (omega (arith, f.high))
            g.low g.high (λ q. le_trans (low q) f.low) (λ q. le_trans f.high (sur q)) g.bytes
            g.accepted))

  from_three_more :
      0xf0 ≤ a
      → a < 0xf5
      → (a ≡ 0xf0 → 0x90 ≤ lo)
      → (a ≡ 0xf4 → hi ≤ 0x8f)
      → Follows lo hi two_more bs
      → Char (a ∷ bs)
  from_three_more h h' low high f =
      let g =
        follows two_more 0x80 0xbf one_more step-two_more (λ q. omega arith) f.rest f.bytes
          f.accepted in
      let k =
        follows one_more 0x80 0xbf accept step-one_more (λ q. omega arith) g.rest g.bytes
          g.accepted in
      rw f.split (
        subst (λ r. Char (a ∷ f.byte ∷ r)) (sym g.split)
          (subst (λ r. Char (a ∷ f.byte ∷ g.byte ∷ r)) (sym k.split)
            (Char-four a f.byte g.byte k.byte k.rest h h' (omega (arith, f.low))
              (omega (arith, f.high)) g.low g.high k.low k.high (λ q. le_trans (low q) f.low)
              (λ q. le_trans f.high (high q)) k.bytes k.accepted)))

-- By the range of the first byte.
module _ (a : ℕ) (bs : List ℕ) (w : Bytes bs) (e : validate_state (lead a) bs ≡ accept) where
  behind : (state : ℕ) → lead a ≡ state → validate_state state bs ≡ accept
  behind state q = rw (← q) e

  first_of_three : 0xe0 ≤ a → a < 0xf0 → Char (a ∷ bs)
  first_of_three h h' = elim (ℕ_discrete a 0xe0) [
    | yes q ↦
        from_two_more a 0xa0 0xbf bs (omega arith) (omega arith) h h' (λ z. omega arith)
          (λ z. omega arith)
          (follows after_e0 0xa0 0xbf one_more step-after_e0 (λ z. omega arith) bs w
            (behind after_e0 (ground arith)))
    | no n ↦ elim (ℕ_discrete a 0xed) [
      | yes q ↦
          from_two_more a 0x80 0x9f bs (omega arith) (omega arith) h h' (λ z. omega arith)
            (λ z. omega arith)
            (follows after_ed 0x80 0x9f one_more step-after_ed (λ z. omega arith) bs w
              (behind after_ed (ground arith)))
      | no m ↦
          from_two_more a 0x80 0xbf bs (omega arith) (omega arith) h h' (λ z. absurd (n z))
            (λ z. absurd (m z))
            (follows two_more 0x80 0xbf one_more step-two_more (λ z. omega arith) bs w
              (behind two_more (ground arith)))
    ]
  ]

  first_of_four : 0xf0 ≤ a → a < 0xf5 → Char (a ∷ bs)
  first_of_four h h' = elim (ℕ_discrete a 0xf0) [
    | yes q ↦
        from_three_more a 0x90 0xbf bs (omega arith) (omega arith) h h' (λ z. omega arith)
          (λ z. omega arith)
          (follows after_f0 0x90 0xbf two_more step-after_f0 (λ z. omega arith) bs w
            (behind after_f0 (ground arith)))
    | no n ↦ elim (ℕ_discrete a 0xf4) [
      | yes q ↦
          from_three_more a 0x80 0x8f bs (omega arith) (omega arith) h h' (λ z. omega arith)
            (λ z. omega arith)
            (follows after_f4 0x80 0x8f two_more step-after_f4 (λ z. omega arith) bs w
              (behind after_f4 (ground arith)))
      | no m ↦
          from_three_more a 0x80 0xbf bs (omega arith) (omega arith) h h' (λ z. absurd (n z))
            (λ z. absurd (m z))
            (follows three_more 0x80 0xbf two_more step-three_more (λ z. omega arith) bs w
              (behind three_more (ground arith)))
    ]
  ]

  first_refused : lead a ≡ reject → Char (a ∷ bs)
  first_refused q = absurd (omega (arith, behind reject q, validate_state-reject bs w))

  first-Char : Char (a ∷ bs)
  first-Char = elim (dec_lt a 0x80) [
    | yes one ↦ Char-one a bs one w (behind accept (ground arith))
    | no over_c2 ↦ elim (dec_lt a 0xc2) [
      | yes low ↦ first_refused (ground arith)
      | no over_e0 ↦ elim (dec_lt a 0xe0) [
        | yes two ↦ from_one_more a bs (omega arith) two w (behind one_more (ground arith))
        | no over_f0 ↦ elim (dec_lt a 0xf0) [
          | yes three ↦ first_of_three (omega arith) three
          | no over_f5 ↦ elim (dec_lt a 0xf5) [
            | yes four ↦ first_of_four (omega arith) four
            | no high ↦ first_refused (ground arith)
          ]
        ]
      ]
    ]
  ]

-- The scalar values that an accepted string encodes.
abbrev pub Encodes : List ℕ → Type 0
Encodes bs = (cs : List ℕ) × All IsScalar cs × (bs ≡ encode_all cs)

decode :
    (n : ℕ) (bs : List ℕ)
    → length bs ≤ n
    → Bytes bs
    → validate_state accept bs ≡ accept
    → Encodes bs
unfolding encode_all
decode n [] h w e = ([], tt, refl)
decode zero (a ∷ bs) h w e = absurd (omega arith)
decode (suc n) (a ∷ bs) h w e =
    let c = first-Char a bs w.1 (unfold validate_state in rw (step-accept a w.0) at e) in
    let (cs, scalars, same) = decode n c.rest (omega (arith, c.shorter)) c.bytes c.accepted in
    (c.scalar ∷ cs, (c.is_scalar, scalars), c.split ∙ ap (◌++◌ (encode c.scalar)) same)

pub accept_iff : (bs : List ℕ) → Bytes bs → (validate_state accept bs ≡ accept) ↔ Encodes bs
accept_iff bs w =
    (decode (length bs) bs (omega arith) w, λ e. rw (e.2) (encode_all-accepted e.0 e.1))

-- For bytes below 256, `xsp_ws_client_utf8_validate` accepts a string exactly when it is the UTF-8
-- encoding of a list of Unicode scalar values.
pub validate_iff : (bs : List ℕ) → Bytes bs → (validate bs ≡ true) ↔ Encodes bs
unfolding validate
validate_iff bs w =
    (λ h. (accept_iff bs w).0 ((==_iff _ _).0 h), λ e. (==_iff _ _).1 ((accept_iff bs w).1 e))
