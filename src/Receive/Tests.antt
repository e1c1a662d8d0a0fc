-- ===== src/Receive/Tests.antt =====
-- The euro sign in two frames, cut in its middle, over a transport that delivers a byte at a time.
use xsp.Prelude.{ℕ, ◌≡◌, refl, List, [], ◌∷◌, none, some, arith, inl}
use xsp.Esp.{esp_ok}
use xsp.WsTypes.Opcode
use xsp.Utf8.{accept}
use xsp.Utf8.Scalar.{encode, encode_all}
use xsp.Utf8.Sound.{Encodes}
use xsp.Client.{Client, state_ok}
use xsp.Client.Read.Source.{source, source-Streams}
use xsp.Defrag.{Defrag}
use xsp.Defrag.Spec.{idle}
use xsp.Defrag.Realloc.{resize, resize-Reallocates}
use xsp.Defrag.Invariant.{phase, IsValid}
use xsp.Defrag.Assembly.{fragments, whole, in_order}
use xsp.Receive.{sent, receive, message_arrives}

abbrev stream : List ℕ
stream = 0x01 ∷ 2 ∷ 0xe2 ∷ 0x82 ∷ 0x80 ∷ 1 ∷ 0xac ∷ 0x89 ∷ []

abbrev client : Client (List ℕ)
client = record {
  state = state_ok;
  transport = some stream;
  overread_data = none;
  overread_size = 0;
  overread_consumed = 0;
  overread_frees = 0;
}

abbrev between : Defrag
between = record {
  max_message_size = 6;
  message_error = esp_ok;
  message_opcode = Opcode.continuation;
  message_utf8_state = accept;
  message_size = 0;
  message_data = none;
}

between-IsValid : IsValid between
between-IsValid = record {
  size = refl;
  null = λ h. refl;
  within = omega arith;
  empty = λ h. refl;
  failed = λ h. ground arith;
  utf8 = λ h. ground arith;
}

one_sign-Encodes : Encodes (0xe2 ∷ 0x82 ∷ 0xac ∷ [])
unfolding encode encode_all
one_sign-Encodes = (0x20ac ∷ [], (omega arith, tt), refl)

message_arrives_example :
    (after : Defrag) × (t' : List ℕ) × (receive source 64 resize 2 client between
      ≡ some (
        in_order ((0xac ∷ []) ∷ []) (Opcode.text, 0xe2 ∷ 0x82 ∷ 0xac ∷ []),
        after,
        record client { transport = some t' },
      ))
    × (t' ≡ 0x89 ∷ [])
    × (phase after ≡ idle)
    × IsValid after
unfolding whole fragments sent
message_arrives_example =
    message_arrives source (λ t. t) source-Streams 64 resize client stream between Opcode.text
      (0xe2 ∷ 0x82 ∷ []) ((0xac ∷ []) ∷ []) (0x89 ∷ []) resize-Reallocates (λ b n. refl) refl refl
      refl between-IsValid refl (inl refl)
      ((omega arith, omega arith), ((omega arith, omega arith), tt)) (omega arith) (omega arith)
      (omega arith) (λ h. one_sign-Encodes) refl
