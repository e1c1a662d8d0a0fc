-- ===== src/LoopEvents/Window.antt =====
-- The entries in use of the queue of xsp_loop_events.c, which wraps at the end of its block.
use xsp.Prelude.{
  ℕ, zero, suc, ◌+◌, ◌-◌, ◌*◌, ◌%◌, ◌≤◌, ◌<◌, ◌≡◌, ◌≢◌, refl, sym, ap, ◌∙◌, List, [], ◌∷◌, ◌++◌,
  arith, ltb, if◌then◌else◌, length, memcpy,
}
use mathlib.Core.Path.{ap₂}
use native.Mathlib.Decide.{dec_lt}
use native.Mathlib.Nat.{mod-eq_of_lt, mod-eq-sub-mod, mul-le-mul_right}
use xsp.LoopEvents.Entries.{entry, entry-memcpy_self, entry-memcpy_ne}

-- Where an index less than twice the number of entries lands.
abbrev pub wrap : ℕ → ℕ → ℕ
wrap entries i = if ltb i entries then i else i - entries

pub mod-wrap : (entries i : ℕ) → i < 2 * entries → i % entries ≡ wrap entries i
mod-wrap entries i h = elim (dec_lt i entries) [
  | yes l ↦ mod-eq_of_lt l ∙ ground arith
  | no n ↦ mod-eq-sub-mod (omega arith) ∙ mod-eq_of_lt (omega arith) ∙ ground arith
]

-- `count` entries from index `i` on.
unfoldable pub window : ℕ → ℕ → List ℕ → ℕ → ℕ → List (List ℕ)
window size entries block i zero = []
window size entries block i (suc n) =
    entry size (wrap entries i) block ∷ window size entries block (suc i) n

-- One lap on, the same entries.
window-lap :
    (size entries : ℕ) (block : List ℕ) (i n : ℕ)
    → entries ≤ i
    → i + n ≤ 2 * entries
    → window size entries block i n ≡ window size entries block (i - entries) n
unfolding window
window-lap size entries block i zero h k = refl
window-lap size entries block i (suc n) h k =
    ap₂ (λ j rest. entry size j block ∷ rest) (ground arith)
      (window-lap size entries block (suc i) n (omega arith) (omega arith)
        ∙ ap (λ j. window size entries block j n) (omega arith))

pub window-wrap :
    (size entries : ℕ) (block : List ℕ) (i n : ℕ)
    → i + n ≤ 2 * entries
    → window size entries block (wrap entries i) n ≡ window size entries block i n
window-wrap size entries block i n h = elim (dec_lt i entries) [
  | yes l ↦ ap (λ j. window size entries block j n) (ground arith)
  | no m ↦
      ap (λ j. window size entries block j n) {y = i - entries} (ground arith)
      ∙ sym (window-lap size entries block i n (omega arith) h)
]

pub index-fits :
    (size entries i : ℕ) (block : List ℕ)
    → length block ≡ entries * size
    → i < entries
    → suc i * size ≤ length block
index-fits size entries i block e h = rw e (mul-le-mul_right size h)

pub wrap-inside : (entries i : ℕ) → i < 2 * entries → wrap entries i < entries
wrap-inside entries i h = ground arith

wrap-ne :
    (entries i j : ℕ) → i < j → j < i + entries → j < 2 * entries → wrap entries j ≢ wrap entries i
wrap-ne entries i j h k l = ground arith

-- A write behind the window's last entry extends it, while there is room.
pub window-push :
    (size entries : ℕ) (block bytes : List ℕ) (i n tail : ℕ)
    → length block ≡ entries * size
    → length bytes ≡ size
    → tail ≡ i + n
    → n < entries
    → tail < 2 * entries
    → window size entries (memcpy block (wrap entries tail * size) bytes) i (suc n)
      ≡ window size entries block i n ++ (bytes ∷ [])
unfolding window
window-push size entries block bytes i zero tail b e t k l =
    ap (λ entry. entry ∷ [])
      (ap (λ j. entry size (wrap entries j) (memcpy block (wrap entries tail * size) bytes))
          {y = tail} (omega arith)
        ∙ entry-memcpy_self size (wrap entries tail) block bytes
            (index-fits size entries (wrap entries tail) block b (wrap-inside entries tail l)) e)
window-push size entries block bytes i (suc n) tail b e t k l =
    ap₂ (◌∷◌)
      (entry-memcpy_ne size (wrap entries tail) (wrap entries i) block bytes
        (index-fits size entries (wrap entries tail) block b (wrap-inside entries tail l))
        (index-fits size entries (wrap entries i) block b (wrap-inside entries i (omega arith))) e
        (wrap-ne entries i tail (omega arith) (omega arith) l))
      (window-push size entries block bytes (suc i) n tail b e (omega arith) (omega arith) l)

pub length-window :
    (size entries : ℕ) (block : List ℕ) (i n : ℕ) → length (window size entries block i n) ≡ n
unfolding window
length-window size entries block i zero = refl
length-window size entries block i (suc n) = ap suc (length-window size entries block (suc i) n)

pub window_one :
    (size entries : ℕ) (block : List ℕ) (i n : ℕ)
    → i < entries
    → 0 < n
    → window size entries block i n ≡ entry size i block ∷ window size entries block (suc i) (n - 1)
unfolding window
window_one size entries block i zero h k = absurd (omega arith)
window_one size entries block i (suc n) h k =
    ap₂ (λ j m. entry size j block ∷ window size entries block (suc i) m) (ground arith)
      (omega arith)
