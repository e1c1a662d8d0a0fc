-- ===== src/Defrag/Realloc.antt =====
-- A realloc for xsp_ws_client_defrag.c that always succeeds, to run it on examples.
use xsp.Prelude.{
  ℕ, zero, suc, ◌≤◌, ◌≡◌, refl, ap, ◌∙◌, List, [], ◌∷◌, ◌++◌, some, arith, length, take,
  length-append, length-take,
}
use xsp.Defrag.{Block}
use xsp.Defrag.Invariant.{contents, Reallocates}

abbrev zeros : ℕ → List ℕ
zeros zero = []
zeros (suc n) = 0 ∷ zeros n

length-zeros : (n : ℕ) → length (zeros n) ≡ n
length-zeros zero = refl
length-zeros (suc n) = ap suc (length-zeros n)

abbrev pub resize : Block → ℕ → Block
resize b n = some (take n (contents b ++ zeros n))

take-take_append :
    (n : ℕ) (xs ys : List ℕ) → length xs ≤ n → take (length xs) (take n (xs ++ ys)) ≡ xs
take-take_append n [] ys h = refl
take-take_append zero (x ∷ xs) ys h = absurd (omega arith)
take-take_append (suc n) (x ∷ xs) ys h = ap (◌∷◌ x) (take-take_append n xs ys (omega arith))

pub resize-Reallocates : Reallocates resize
resize-Reallocates = record {
  resizes = λ b n block e. resized b n block e;
  keeps = λ b n block e h. kept b n block e h;
}
  where
    resized : (b : Block) (n : ℕ) (block : List ℕ) → resize b n ≡ some block → length block ≡ n
    resized b n block e =
        ap length (same e)
        ∙ omega (
          arith,
          length-take n (contents b ++ zeros n),
          length-append (contents b) (zeros n),
          length-zeros n,
        )
      where
        same : resize b n ≡ some block → block ≡ take n (contents b ++ zeros n)
        same e = cc e

    kept :
        (b : Block) (n : ℕ) (block : List ℕ)
        → resize b n ≡ some block
        → length (contents b) ≤ n
        → take (length (contents b)) block ≡ contents b
    kept b n block e h =
        ap (take (length (contents b))) (same e) ∙ take-take_append n (contents b) (zeros n) h
      where
        same : resize b n ≡ some block → block ≡ take n (contents b ++ zeros n)
        same e = cc e
