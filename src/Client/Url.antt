-- ===== src/Client/Url.antt =====
-- components/xsp_ws_client/xsp_ws_client.c: the URL that `xsp_ws_client_init` keeps.
--
-- A C string is the list of its characters, without the null behind them; the block that malloc returns
-- is a list of bytes of any value.
use xsp.Prelude.{
  ℕ, zero, suc, ◌+◌, ◌≤◌, ◌≡◌, ◌≢◌, refl, sym, ap, ◌∙◌, inl, inr, Bool, true, false, ◌&&◌, List, [],
  ◌∷◌, ◌++◌, Option, none, some, arith, leb, ◌==◌, if◌then◌else◌, if_both, Option-cases, length,
  drop, length-append, length-drop, memcpy, All, ==-eq_false, ==_iff, append_assoc,
}
use mathlib.Core.Path.{subst}

unfoldable pub to_lower : ℕ → ℕ
to_lower c = if leb 65 c && leb c 90 then c + 32 else c

-- Whether `strncasecmp` of the C library returns 0.
unfoldable pub strncasecmp_equal : List ℕ → List ℕ → ℕ → Bool
strncasecmp_equal s t zero = true
strncasecmp_equal [] [] (suc n) = true
strncasecmp_equal [] (b ∷ t) (suc n) = false
strncasecmp_equal (a ∷ s) [] (suc n) = false
strncasecmp_equal (a ∷ s) (b ∷ t) (suc n) = to_lower a == to_lower b && strncasecmp_equal s t n

-- Whether `strcasecmp` of the C library returns 0.
unfoldable pub strcasecmp_equal : List ℕ → List ℕ → Bool
strcasecmp_equal [] [] = true
strcasecmp_equal [] (b ∷ t) = false
strcasecmp_equal (a ∷ s) [] = false
strcasecmp_equal (a ∷ s) (b ∷ t) = to_lower a == to_lower b && strcasecmp_equal s t

-- `strcpy(block + offset, s)`; `none` where it writes behind the block.
unfoldable pub strcpy : List ℕ → ℕ → List ℕ → Option (List ℕ)
strcpy block offset s =
    if leb (offset + length s + 1) (length block)
    then some (memcpy block offset (s ++ (0 ∷ [])))
    else none

abbrev pub ws_prefix : List ℕ
ws_prefix = 119 ∷ 115 ∷ 58 ∷ []

abbrev pub wss_prefix : List ℕ
wss_prefix = 119 ∷ 115 ∷ 115 ∷ 58 ∷ []

abbrev pub http : List ℕ
http = 104 ∷ 116 ∷ 116 ∷ 112 ∷ []

abbrev pub https : List ℕ
https = 104 ∷ 116 ∷ 116 ∷ 112 ∷ 115 ∷ []

-- Two calls of strcpy, the second at `offset`.
abbrev then_strcpy : ℕ → List ℕ → Option (List ℕ) → Option (List ℕ)
then_strcpy offset rest none = none
then_strcpy offset rest (some block) = strcpy block offset rest

abbrev copy_both : List ℕ → List ℕ → ℕ → List ℕ → Option (List ℕ)
copy_both block scheme offset rest = then_strcpy offset rest (strcpy block 0 scheme)

-- What `xsp_ws_client_init` writes to the block for the URL.
unfoldable pub copy_url : List ℕ → List ℕ → Option (List ℕ)
copy_url block url =
    if strncasecmp_equal url ws_prefix 3
    then copy_both block http 4 (drop 2 url)
    else if strncasecmp_equal url wss_prefix 4
    then copy_both block https 5 (drop 3 url)
    else strcpy block 0 url

-- The size of the block.
abbrev pub url_size : List ℕ → ℕ
url_size url = length url + 2 + 1

-- The string in a block.
unfoldable pub c_string : List ℕ → List ℕ
c_string [] = []
c_string (c ∷ block) = let rest = c_string block in if c == 0 then [] else c ∷ rest

-- The characters before the first colon, and those behind it.
unfoldable pub split_scheme : List ℕ → Option (List ℕ × List ℕ)
split_scheme [] = none
split_scheme (c ∷ url) =
    let rest = split_scheme url in
    if c == 58
    then some ([], url)
    else elim rest [ none ↦ none | some (scheme, behind) ↦ some (c ∷ scheme, behind) ]

unfoldable pub is_ws : List ℕ → Bool
is_ws (a ∷ b ∷ []) = to_lower a == 119 && to_lower b == 115
is_ws _ = false

unfoldable pub is_wss : List ℕ → Bool
is_wss (a ∷ b ∷ c ∷ []) = to_lower a == 119 && (to_lower b == 115 && to_lower c == 115)
is_wss _ = false

-- The URL with its scheme replaced.
abbrev with_scheme : List ℕ → Option (List ℕ × List ℕ) → List ℕ
with_scheme url none = url
with_scheme url (some (scheme, behind)) =
    if is_ws scheme
    then http ++ (58 ∷ behind)
    else if is_wss scheme
    then https ++ (58 ∷ behind)
    else url

unfoldable pub http_url : List ℕ → List ℕ
http_url url = with_scheme url (split_scheme url)

abbrev pub IsChar : ℕ → Type 0
IsChar c = c ≢ 0

c_string-append : (s rest : List ℕ) → All IsChar s → c_string (s ++ (0 ∷ rest)) ≡ s
unfolding c_string
c_string-append [] rest h = refl
c_string-append (c ∷ s) rest (h, hs) =
    rw (==-eq_false c 0 h) (ap (◌∷◌ c) (c_string-append s rest hs))

-- A block whose string is this.
abbrev pub Reads : List ℕ → Option (List ℕ) → Type 0
Reads s none = ⊥
Reads s (some block) = c_string block ≡ s

strcpy_fits :
    (block s : List ℕ) (offset : ℕ)
    → offset + length s + 1 ≤ length block
    → strcpy block offset s ≡ some (memcpy block offset (s ++ (0 ∷ [])))
unfolding strcpy
strcpy_fits block s offset h = ground (arith, h)

written : (s rest : List ℕ) → All IsChar s → c_string ((s ++ (0 ∷ [])) ++ rest) ≡ s
written s rest hs = ap c_string (append_assoc s (0 ∷ []) rest) ∙ c_string-append s rest hs

length_copied :
    (scheme block : List ℕ)
    → length scheme + 1 ≤ length block
    → length (memcpy block 0 (scheme ++ (0 ∷ []))) ≡ length block
length_copied scheme block h = omega (
  arith,
  h,
  length-append (scheme ++ (0 ∷ [])) (drop (0 + length (scheme ++ (0 ∷ []))) block),
  length-append scheme (0 ∷ []),
  length-drop (0 + length (scheme ++ (0 ∷ []))) block,
)

strcpy-Reads :
    (block s : List ℕ) → All IsChar s → length s + 1 ≤ length block → Reads s (strcpy block 0 s)
strcpy-Reads block s hs h =
    subst (Reads s) (sym (strcpy_fits block s 0 (omega (arith, h))))
      (written s (drop (0 + length (s ++ (0 ∷ []))) block) hs)

copy_http-Reads :
    (block s : List ℕ)
    → All IsChar s
    → length s + 5 ≤ length block
    → Reads (http ++ s) (copy_both block http 4 s)
unfolding c_string
copy_http-Reads block s hs h =
    subst (λ o. Reads (http ++ s) (then_strcpy 4 s o))
      (sym (strcpy_fits block http 0 (omega (arith, h))))
      (subst (Reads (http ++ s))
        (sym (
          strcpy_fits (memcpy block 0 (http ++ (0 ∷ []))) s 4
            (omega (arith, h, length_copied http block (omega (arith, h))))))
        (ap (λ r. http ++ r) (written s _ hs)))

copy_https-Reads :
    (block s : List ℕ)
    → All IsChar s
    → length s + 6 ≤ length block
    → Reads (https ++ s) (copy_both block https 5 s)
unfolding c_string
copy_https-Reads block s hs h =
    subst (λ o. Reads (https ++ s) (then_strcpy 5 s o))
      (sym (strcpy_fits block https 0 (omega (arith, h))))
      (subst (Reads (https ++ s))
        (sym (
          strcpy_fits (memcpy block 0 (https ++ (0 ∷ []))) s 5
            (omega (arith, h, length_copied https block (omega (arith, h))))))
        (ap (λ r. https ++ r) (written s _ hs)))

not_true : (a b : Bool) → (a ≡ true → b ≡ true) → b ≡ false → a ≡ false
not_true true b f h = absurd (ground (arith, f refl, h))
not_true false b f h = refl

All-drop : (n : ℕ) (s : List ℕ) → All IsChar s → All IsChar (drop n s)
All-drop zero s h = h
All-drop (suc n) [] h = tt
All-drop (suc n) (c ∷ s) h = All-drop n s h.1

is_ws_lem :
    (a b c : ℕ) (url : List ℕ)
    → strncasecmp_equal (a ∷ b ∷ c ∷ url) ws_prefix 3 ≡ true
    → (is_ws (a ∷ b ∷ []) ≡ true) × (c ≡ 58) × ((a == 58) ≡ false) × ((b == 58) ≡ false)
unfolding strncasecmp_equal is_ws to_lower
is_ws_lem a b c url h = ground (arith, h)

http_url_ws :
    (url : List ℕ)
    → strncasecmp_equal url ws_prefix 3 ≡ true
    → (http_url url ≡ http ++ drop 2 url) × (3 ≤ length url)
unfolding strncasecmp_equal http_url split_scheme
http_url_ws (a ∷ b ∷ c ∷ url) h =
    let (ws, colon, first, second) = is_ws_lem a b c url h in
    (rw (colon, first, second, ws) refl, omega arith)
http_url_ws [] h = absurd (ground (arith, h))
http_url_ws (a ∷ []) h = absurd (ground (arith, h))
http_url_ws (a ∷ b ∷ []) h = absurd (ground (arith, h))

is_wss_lem :
    (a b c d : ℕ) (url : List ℕ)
    → strncasecmp_equal (a ∷ b ∷ c ∷ d ∷ url) wss_prefix 4 ≡ true
    → (is_wss (a ∷ b ∷ c ∷ []) ≡ true)
      × (d ≡ 58)
      × ((a == 58) ≡ false)
      × ((b == 58) ≡ false)
      × ((c == 58) ≡ false)
unfolding strncasecmp_equal is_wss to_lower
is_wss_lem a b c d url h = ground (arith, h)

http_url_wss :
    (url : List ℕ)
    → strncasecmp_equal url wss_prefix 4 ≡ true
    → (http_url url ≡ https ++ drop 3 url) × (4 ≤ length url)
unfolding strncasecmp_equal http_url split_scheme is_ws
http_url_wss (a ∷ b ∷ c ∷ d ∷ url) h =
    let (wss, colon, first, second, third) = is_wss_lem a b c d url h in
    (rw (colon, first, second, third, wss) refl, omega arith)
http_url_wss [] h = absurd (ground (arith, h))
http_url_wss (a ∷ []) h = absurd (ground (arith, h))
http_url_wss (a ∷ b ∷ []) h = absurd (ground (arith, h))
http_url_wss (a ∷ b ∷ c ∷ []) h = absurd (ground (arith, h))

-- A scheme and what is behind it are the URL.
abbrev Splits : List ℕ → Option (List ℕ × List ℕ) → Type 0
Splits url none = Unit
Splits url (some (scheme, behind)) = url ≡ scheme ++ (58 ∷ behind)

split_scheme-Splits : (url : List ℕ) → Splits url (split_scheme url)
unfolding split_scheme
split_scheme-Splits [] = tt
split_scheme-Splits (c ∷ url) =
    if_both (Splits (c ∷ url)) (c == 58) _ _ (λ e. ap (λ k. k ∷ url) ((==_iff c 58).0 e))
      (λ e. elim (Option-cases (split_scheme url)) [
        | inl none_left ↦ rw none_left tt
        | inr (r, found) ↦
            rw found (ap (◌∷◌ c) (subst (Splits url) found (split_scheme-Splits url)))
      ])

is_ws_prefix :
    (scheme behind : List ℕ)
    → is_ws scheme ≡ true
    → strncasecmp_equal (scheme ++ (58 ∷ behind)) ws_prefix 3 ≡ true
unfolding strncasecmp_equal is_ws to_lower
is_ws_prefix (a ∷ b ∷ []) behind h = ground (arith, h)
is_ws_prefix [] behind h = absurd (ground (arith, h))
is_ws_prefix (a ∷ []) behind h = absurd (ground (arith, h))
is_ws_prefix (a ∷ b ∷ c ∷ s) behind h = absurd (ground (arith, h))

is_wss_prefix :
    (scheme behind : List ℕ)
    → is_wss scheme ≡ true
    → strncasecmp_equal (scheme ++ (58 ∷ behind)) wss_prefix 4 ≡ true
unfolding strncasecmp_equal is_wss to_lower
is_wss_prefix (a ∷ b ∷ c ∷ []) behind h = ground (arith, h)
is_wss_prefix [] behind h = absurd (ground (arith, h))
is_wss_prefix (a ∷ []) behind h = absurd (ground (arith, h))
is_wss_prefix (a ∷ b ∷ []) behind h = absurd (ground (arith, h))
is_wss_prefix (a ∷ b ∷ c ∷ d ∷ s) behind h = absurd (ground (arith, h))

http_url_other :
    (url : List ℕ)
    → strncasecmp_equal url ws_prefix 3 ≡ false
    → strncasecmp_equal url wss_prefix 4 ≡ false
    → http_url url ≡ url
unfolding http_url
http_url_other url h h' = elim (Option-cases (split_scheme url)) [
  | inl e ↦ rw e refl
  | inr ((scheme, behind), e) ↦
      let whole = subst (Splits url) e (split_scheme-Splits url) in
      rw
        (
          e,
          not_true (is_ws scheme) _ (is_ws_prefix scheme behind)
              (ap (λ u. strncasecmp_equal u ws_prefix 3) (sym whole) ∙ h),
          not_true (is_wss scheme) _ (is_wss_prefix scheme behind)
              (ap (λ u. strncasecmp_equal u wss_prefix 4) (sym whole) ∙ h'),
        )
        refl
]

-- For a URL without a null character, `xsp_ws_client_init` writes only to the block that it allocated
-- for it, whatever was there, and leaves the URL there with the scheme `ws` replaced by `http`, `wss`
-- by `https`, in any case of the letters, and every other URL as it was given.
pub copy_url-Reads :
    (block url : List ℕ)
    → All IsChar url
    → length block ≡ url_size url
    → Reads (http_url url) (copy_url block url)
unfolding copy_url
copy_url-Reads block url chars size =
    if_both (Reads (http_url url)) (strncasecmp_equal url ws_prefix 3) _ _
      (λ e.
        let (same, long) = http_url_ws url e in
        subst (λ s. Reads s (copy_both block http 4 (drop 2 url))) (sym same)
          (copy_http-Reads block (drop 2 url) (All-drop 2 url chars)
            (omega (arith, size, long, length-drop 2 url))))
      (λ e.
        if_both (Reads (http_url url)) (strncasecmp_equal url wss_prefix 4) _ _
          (λ e'.
            let (same, long) = http_url_wss url e' in
            subst (λ s. Reads s (copy_both block https 5 (drop 3 url))) (sym same)
              (copy_https-Reads block (drop 3 url) (All-drop 3 url chars)
                (omega (arith, size, long, length-drop 3 url))))
          (λ e'.
            subst (λ s. Reads s (strcpy block 0 url)) (sym (http_url_other url e e'))
              (strcpy-Reads block url chars (omega (arith, size)))))
