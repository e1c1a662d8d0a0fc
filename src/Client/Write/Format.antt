-- ===== src/Client/Write/Format.antt =====
-- The frames of a client as RFC 6455 has them, and the header and the mask of xsp_ws_client.c.
use xsp.Prelude.{
  ℕ, zero, suc, ◌+◌, ◌/◌, ◌%◌, ◌^◌, ◌≤◌, ◌<◌, ◌≡◌, refl, ap, ◌∙◌, append_assoc, Bool, true, false,
  List, [], ◌∷◌, ◌++◌, arith, leb, ◌==◌, ==_iff, if◌then◌else◌, length, get_or,
}
use mathlib.Core.Path.{ap₂, subst}
use native.Mathlib.Decide.{dec_lt}
use Prim.Native.Nat.{bit_or, bit_xor}
use xsp.Client.Read.Server.{size_field, size_bytes}
use xsp.Client.Write.{frame_header, mask}

-- Each byte with the next of four bytes that go round.
abbrev pub masked : ℕ → ℕ → ℕ → ℕ → List ℕ → List ℕ
masked a b c d [] = []
masked a b c d (byte ∷ bytes) = bit_xor byte a ∷ masked b c d a bytes

-- A frame with a mask: the sizes are those of a server's frame, with the bit for the mask.
abbrev pub client_frame : Bool → ℕ → ℕ → ℕ → ℕ → ℕ → List ℕ → List ℕ
client_frame fin opcode a b c d payload =
    ((if fin then 0x80 else 0) + opcode)
    ∷ (0x80 + size_field (length payload))
    ∷ (size_bytes (length payload) ++ (a ∷ b ∷ c ∷ d ∷ masked a b c d payload))

-- Whether a test passes for an opcode and for those before it.
passes : (ℕ → Bool) → ℕ → Bool
passes test zero = test zero
passes test (suc opcode) = if test (suc opcode) then passes test opcode else false

passes_lem :
    (test : ℕ → Bool) (last opcode : ℕ)
    → passes test last ≡ true
    → opcode ≤ last
    → test opcode ≡ true
unfolding passes
passes_lem test zero opcode e le = subst (λ n. test n ≡ true) (omega (arith, le)) e
passes_lem test (suc last) opcode e le = elim (dec_lt opcode (suc last)) [
  | yes before ↦
      passes_lem test last opcode (both (test (suc last)) (passes test last) e).1
        (omega (arith, before))
  | no here ↦
      subst (λ n. test n ≡ true) (omega (arith, le, here))
        (both (test (suc last)) (passes test last) e).0
]
  where
    both : (a b : Bool) → (if a then b else false) ≡ true → (a ≡ true) × (b ≡ true)
    both a b h = (ground (arith, h), ground (arith, h))

fin_table : passes (λ n. bit_or 0x80 n % 256 == 0x80 + n) 15 ≡ true
unfolding passes
fin_table = refl

more_table : passes (λ n. bit_or 0 n % 256 == n) 15 ≡ true
unfolding passes
more_table = refl

first_byte :
    (fin : Bool) (opcode : ℕ)
    → opcode < 16
    → bit_or (if fin then 0x80 else 0) opcode % 256 ≡ (if fin then 0x80 else 0) + opcode
first_byte true opcode h =
    (==_iff (bit_or 0x80 opcode % 256) (0x80 + opcode)).0
      (passes_lem _ 15 opcode fin_table (omega (arith, h)))
first_byte false opcode h = omega (
  arith,
  (==_iff (bit_or 0 opcode % 256) opcode).0
      (passes_lem (λ n. bit_or 0 n % 256 == n) 15 opcode more_table (omega (arith, h))),
)

-- The index of the mask counts modulo 4, as the bytes of the key go round.
mask-masked :
    (a b c d i : ℕ) (bytes : List ℕ)
    → (i % 4 ≡ 0 → mask (a ∷ b ∷ c ∷ d ∷ []) i bytes ≡ masked a b c d bytes)
      × (i % 4 ≡ 1 → mask (a ∷ b ∷ c ∷ d ∷ []) i bytes ≡ masked b c d a bytes)
      × (i % 4 ≡ 2 → mask (a ∷ b ∷ c ∷ d ∷ []) i bytes ≡ masked c d a b bytes)
      × (i % 4 ≡ 3 → mask (a ∷ b ∷ c ∷ d ∷ []) i bytes ≡ masked d a b c bytes)
unfolding mask
mask-masked a b c d i [] = (λ h. refl, λ h. refl, λ h. refl, λ h. refl)
mask-masked a b c d i (x ∷ bytes) =
    let (to_zero, to_one, to_two, to_three) = mask-masked a b c d (i + 1) bytes in
    (
      λ h. ap₂ next h (to_one (omega (arith, h))),
      λ h. ap₂ next h (to_two (omega (arith, h))),
      λ h. ap₂ next h (to_three (omega (arith, h))),
      λ h. ap₂ next h (to_zero (omega (arith, h))),
    )
  where
    next : ℕ → List ℕ → List ℕ
    next k rest = bit_xor x (get_or (a ∷ b ∷ c ∷ d ∷ []) k 0) ∷ rest

sized :
    (size : ℕ)
    → size < 2 ^ 32
    → (if leb size 125
        then (0x80 + size) ∷ []
        else if leb size 0xffff
        then 0xfe ∷ (size / 2 ^ 8 % 256) ∷ (size % 256) ∷ []
        else 0xff
          ∷ 0
          ∷ 0
          ∷ 0
          ∷ 0
          ∷ (size / 2 ^ 24 % 256)
          ∷ (size / 2 ^ 16 % 256)
          ∷ (size / 2 ^ 8 % 256)
          ∷ (size % 256)
          ∷ [])
      ≡ (0x80 + size_field size) ∷ size_bytes size
sized size h = ground (arith, h)

-- The code's header and mask make the frame of RFC 6455.
pub frame_header-mask :
    (fin : Bool) (opcode a b c d : ℕ) (payload : List ℕ)
    → opcode < 16
    → length payload < 2 ^ 32
    → frame_header fin opcode (length payload) (a ∷ b ∷ c ∷ d ∷ [])
        ++ mask (a ∷ b ∷ c ∷ d ∷ []) 0 payload
      ≡ client_frame fin opcode a b c d payload
unfolding frame_header
frame_header-mask fin opcode a b c d payload small fits =
    ap₂
      (λ first sizes.
        first ∷ ((sizes ++ (a ∷ b ∷ c ∷ d ∷ [])) ++ mask (a ∷ b ∷ c ∷ d ∷ []) 0 payload))
      (first_byte fin opcode small) (sized (length payload) fits)
    ∙ ap
        (λ behind.
          ((if fin then 0x80 else 0) + opcode) ∷ (0x80 + size_field (length payload)) ∷ behind)
        (append_assoc (size_bytes (length payload)) (a ∷ b ∷ c ∷ d ∷ [])
            (mask (a ∷ b ∷ c ∷ d ∷ []) 0 payload)
          ∙ ap (λ m. size_bytes (length payload) ++ (a ∷ b ∷ c ∷ d ∷ m))
              ((mask-masked a b c d 0 payload).0 refl))
