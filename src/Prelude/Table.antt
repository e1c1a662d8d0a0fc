-- ===== src/Prelude/Table.antt =====
-- To check a test of a finite table by evaluation.
use Prim.Native.Nat.{ℕ, zero, suc, ◌<◌}
use mathlib.Core.Path.{◌≡◌, ap, ◌∙◌}
use mathlib.Core.Bool.{Bool, true, false}
use mathlib.Core.Logic.{inl, inr}
use native.Mathlib.Decide.{ℕ_discrete}
use native.Mathlib.Omega.{arith}
use xsp.Prelude.Tests.{if◌then◌else◌, Bool-cases}

-- Whether the first `rows` rows of a table pass.
unfoldable pub passes : ℕ → (ℕ → Bool) → Bool
passes zero test = true
passes (suc rows) test = if test rows then passes rows test else false

pub row-passes :
    (rows : ℕ) (test : ℕ → Bool) {i : ℕ} → i < rows → passes rows test ≡ true → test i ≡ true
unfolding passes
row-passes zero test below all = absurd (omega arith)
row-passes (suc rows) test {i} below all = elim (Bool-cases (test rows)) [
  | inr fails ↦ absurd (ground (arith, fails))
  | inl ok ↦ elim (ℕ_discrete i rows) [
    | yes last ↦ ap test last ∙ ok
    | no other ↦ row-passes rows test (omega arith) (rw ok at all)
  ]
]
