-- ===== src/LoopEvents/Entries.antt =====
-- The entries of the queue of xsp_loop_events.c, in its one block of bytes.
use xsp.Prelude.{
  ℕ, zero, suc, ◌+◌, ◌*◌, ◌≤◌, ◌≡◌, ◌≢◌, refl, sym, ap, ◌∙◌, List, ◌++◌, arith, length, take, drop,
  memcpy, length-append, length-take, length-drop, take-length-append, drop-drop, drop-take-append,
  memcpy-add,
}
use mathlib.Core.Path.{subst}

-- Entry `i` of entries of `size` bytes.
abbrev pub entry : ℕ → ℕ → List ℕ → List ℕ
entry size i block = take size (drop (i * size) block)

entry-suc :
    (size i : ℕ) (block : List ℕ) → entry size (suc i) block ≡ entry size i (drop size block)
entry-suc size i block = ap (take size) (
    ap (λ k. drop k block) {y = size + i * size} (omega arith)
    ∙ sym (drop-drop size (i * size) block))

memcpy-suc :
    (size i : ℕ) (block bytes : List ℕ)
    → memcpy block (suc i * size) bytes
      ≡ take size block ++ memcpy (drop size block) (i * size) bytes
memcpy-suc size i block bytes =
    ap (λ k. memcpy block k bytes) {y = size + i * size} (omega arith)
    ∙ memcpy-add size (i * size) block bytes

memcpy_zero :
    (size : ℕ) (block bytes : List ℕ)
    → memcpy block (0 * size) bytes ≡ bytes ++ drop (length bytes) block
memcpy_zero size block bytes =
    ap (λ k. memcpy block k bytes) {y = 0} (omega arith)
    ∙ ap (λ k. bytes ++ drop k block) (omega arith)

entry_zero : (size : ℕ) (block : List ℕ) → entry size 0 block ≡ take size block
entry_zero size block = ap (λ k. take size (drop k block)) {y = 0} (omega arith)

drop-entry :
    (size : ℕ) (block rest : List ℕ)
    → size ≤ length block
    → drop size (take size block ++ rest) ≡ rest
drop-entry size block rest h =
    drop-take-append size (take size block) rest (omega (arith, length-take size block))

-- An entry written is read back.
pub entry-memcpy_self :
    (size i : ℕ) (block bytes : List ℕ)
    → suc i * size ≤ length block
    → length bytes ≡ size
    → entry size i (memcpy block (i * size) bytes) ≡ bytes
entry-memcpy_self size zero block bytes h e =
    entry_zero size _
    ∙ ap (take size) (memcpy_zero size block bytes)
    ∙ subst (λ k. take k (bytes ++ drop (length bytes) block) ≡ bytes) e
        (take-length-append bytes _)
entry-memcpy_self size (suc i) block bytes h e =
    entry-suc size i _
    ∙ ap (λ b. entry size i (drop size b)) (memcpy-suc size i block bytes)
    ∙ ap (entry size i) (drop-entry size block _ (omega arith))
    ∙ entry-memcpy_self size i (drop size block) bytes (omega (arith, length-drop size block)) e

-- And no other entry changes.
pub entry-memcpy_ne :
    (size i j : ℕ) (block bytes : List ℕ)
    → suc i * size ≤ length block
    → suc j * size ≤ length block
    → length bytes ≡ size
    → i ≢ j
    → entry size j (memcpy block (i * size) bytes) ≡ entry size j block
entry-memcpy_ne size zero zero block bytes h k e n = absurd (n refl)
entry-memcpy_ne size zero (suc j) block bytes h k e n =
    entry-suc size j _
    ∙ ap (λ b. entry size j (drop size b)) (memcpy_zero size block bytes)
    ∙ ap (entry size j) (drop-take-append size bytes _ e ∙ ap (λ m. drop m block) e)
    ∙ sym (entry-suc size j block)
entry-memcpy_ne size (suc i) zero block bytes h k e n =
    entry_zero size _
    ∙ ap (take size) (memcpy-suc size i block bytes)
    ∙ subst
        (λ m.
          take m (take size block ++ memcpy (drop size block) (i * size) bytes) ≡ take size block)
        (length-take size block ∙ omega arith) (take-length-append (take size block) _)
    ∙ sym (entry_zero size block)
entry-memcpy_ne size (suc i) (suc j) block bytes h k e n =
    entry-suc size j _
    ∙ ap (λ b. entry size j (drop size b)) (memcpy-suc size i block bytes)
    ∙ ap (entry size j) (drop-entry size block _ (omega arith))
    ∙ entry-memcpy_ne size i j (drop size block) bytes (omega (arith, length-drop size block))
        (omega (arith, length-drop size block)) e (λ q. n (ap suc q))
    ∙ sym (entry-suc size j block)

pub length-memcpy :
    (block : List ℕ) (offset : ℕ) (bytes : List ℕ)
    → offset + length bytes ≤ length block
    → length (memcpy block offset bytes) ≡ length block
length-memcpy block offset bytes h = omega (
  arith,
  length-append (take offset block) (bytes ++ drop (offset + length bytes) block),
  length-append bytes (drop (offset + length bytes) block),
  length-take offset block,
  length-drop (offset + length bytes) block,
)
