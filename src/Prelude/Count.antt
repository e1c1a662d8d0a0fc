-- ===== src/Prelude/Count.antt =====
-- Addresses counted, for what was allocated and what was freed.
use Prim.Native.Nat.{ℕ, ◌+◌}
use mathlib.Core.Path.{◌≡◌}
use mathlib.Core.List.{List, [], ◌∷◌, ◌++◌}
use native.Mathlib.Omega.{arith}
use xsp.Prelude.Tests.{◌==◌, if◌then◌else◌}

-- How often an address is in a list.
abbrev pub count : ℕ → List ℕ → ℕ
count x [] = 0
count x (y ∷ ys) = (if x == y then 1 else 0) + count x ys

pub count-append : (x : ℕ) (xs ys : List ℕ) → count x (xs ++ ys) ≡ count x xs + count x ys
count-append x [] ys = omega arith
count-append x (y ∷ xs) ys = omega (arith, count-append x xs ys)

-- Every address that was held or allocated is held or was freed, and as often.
abbrev pub Balances : List ℕ → List ℕ → List ℕ → List ℕ → Type 0
Balances held allocated held' freed =
    (x : ℕ) → count x held + count x allocated ≡ count x held' + count x freed
