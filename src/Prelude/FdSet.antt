-- ===== src/Prelude/FdSet.antt =====
-- `fd_set` of sys/select.h: the descriptors that are in it.
use Prim.Native.Nat.{ℕ}
use mathlib.Core.Path.{◌≡◌, refl, sym, ap, ◌∙◌}
use mathlib.Core.Bool.{Bool, true, false, ◌||◌}
use mathlib.Core.Logic.{inl, inr}
use mathlib.Core.List.{List, [], ◌∷◌}
use native.Mathlib.Omega.{arith}
use xsp.Prelude.Tests.{◌==◌, if◌then◌else◌, Bool-cases}

abbrev pub FdSet : Type 0
FdSet = List ℕ

-- FD_ISSET
abbrev pub has : ℕ → FdSet → Bool
has fd [] = false
has fd (other ∷ fds) = fd == other || has fd fds

-- FD_CLR
unfoldable pub clear : ℕ → FdSet → FdSet
clear fd [] = []
clear fd (other ∷ fds) = let rest = clear fd fds in if fd == other then rest else other ∷ rest

-- FD_SET or FD_CLR
unfoldable pub assign : ℕ → Bool → FdSet → FdSet
assign fd true fds = fd ∷ fds
assign fd false fds = clear fd fds

has_other : (fd other k : ℕ) → (fd == other) ≡ true → (k == fd) ≡ false → (k == other) ≡ false
has_other fd other k e n = ground (arith, e, n)

has-clear : (fd k : ℕ) (fds : FdSet) → (k == fd) ≡ true → has k (clear fd fds) ≡ false
unfolding clear
has-clear fd k [] e = refl
has-clear fd k (other ∷ fds) e = elim (Bool-cases (fd == other)) [
  | inl same ↦ rw same (has-clear fd k fds e)
  | inr ne ↦ rw ne (ground (arith, e, ne, has-clear fd k fds e))
]

has-clear_ne : (fd k : ℕ) (fds : FdSet) → (k == fd) ≡ false → has k (clear fd fds) ≡ has k fds
unfolding clear
has-clear_ne fd k [] n = refl
has-clear_ne fd k (other ∷ fds) n = elim (Bool-cases (fd == other)) [
  | inl same ↦
      rw same
        (has-clear_ne fd k fds n ∙ sym (ap (λ b. b || has k fds) (has_other fd other k same n)))
  | inr ne ↦ rw ne (ap (λ b. (k == other) || b) (has-clear_ne fd k fds n))
]

pub has-assign :
    (fd k : ℕ) (b : Bool) (fds : FdSet)
    → has k (assign fd b fds) ≡ (if k == fd then b else has k fds)
unfolding assign
has-assign fd k b fds = elim (Bool-cases (k == fd)) [
  | inl same ↦ rw same (set fd k b fds same)
  | inr ne ↦ rw ne (keep fd k b fds ne)
]
  where
    set : (fd k : ℕ) (b : Bool) (fds : FdSet) → (k == fd) ≡ true → has k (assign fd b fds) ≡ b
    set fd k true fds same = ap (λ c. c || has k fds) same
    set fd k false fds same = has-clear fd k fds same

    keep :
        (fd k : ℕ) (b : Bool) (fds : FdSet)
        → (k == fd) ≡ false
        → has k (assign fd b fds) ≡ has k fds
    keep fd k true fds ne = ap (λ c. c || has k fds) ne
    keep fd k false fds ne = has-clear_ne fd k fds ne
