-- ===== src/Atomic8.antt =====
-- components/xsp_atomic8/xsp_atomic8.c: the atomic operations on a uint64_t, each between LOCK and
-- UNLOCK of one mutex, so each is a function from the value at `ptr` to its result and the new value.
mod Tests
use xsp.Prelude.{
  ℕ, ◌+◌, ◌-◌, ◌%◌, ◌^◌, ◌≤◌, ◌<◌, ◌≡◌, refl, ap, ◌⊎◌, inl, inr, Bool, true, false, not, arith,
  ◌==◌, if◌then◌else◌,
}
use native.Mathlib.Decide.{dec_lt}
use Prim.Native.Nat.{bit_and, bit_or, bit_xor}

abbrev pub u64_mod : ℕ
u64_mod = 2 ^ 64

unfoldable pub load : ℕ → ℕ × ℕ
load value = (value, value)

unfoldable pub store : ℕ → ℕ → ℕ
store value val = val

unfoldable pub exchange : ℕ → ℕ → ℕ × ℕ
exchange value val = (value, val)

-- The result, the new value, and the new `*expected`.
unfoldable pub compare_exchange : ℕ → ℕ → ℕ → Bool × ℕ × ℕ
compare_exchange value expected desired =
    if value == expected then (true, desired, expected) else (false, value, value)

unfoldable pub test_and_set : ℕ → Bool × ℕ
test_and_set value = (not (value == 0), 1)

-- The six operators of the macros' uses.
pub data Op : Type 0 where
  add sub and xor or nand : Op

-- `*ptr op= val`, in uint64_t.
unfoldable pub assign : Op → ℕ → ℕ → ℕ
assign add value val = (value + val) % u64_mod
assign sub value val = (value + (u64_mod - val)) % u64_mod
assign and value val = bit_and value val
assign xor value val = bit_xor value val
assign or value val = bit_or value val
assign nand value val = u64_mod - 1 - bit_and value val

-- `__atomic_fetch_OP_8`
unfoldable pub fetch_op : Op → ℕ → ℕ → ℕ × ℕ
fetch_op op value val = (value, assign op value val)

-- `__atomic_OP_fetch_8`
unfoldable pub op_fetch : Op → ℕ → ℕ → ℕ × ℕ
op_fetch op value val = let tmp = assign op value val in (tmp, tmp)

-- An addition to a uint64_t returns the value that was there; the new value is the sum, less 2 ^ 64 if
-- it does not fit, is what the other form of the call returns, and from it a subtraction of the same
-- uint64_t, wrap-around included, returns and leaves the first value.
pub sub-add :
    (value val : ℕ)
    → value < u64_mod
    → val < u64_mod
    → ((fetch_op add value val).0 ≡ value)
      × (((fetch_op add value val).1 ≡ value + val)
          ⊎ ((fetch_op add value val).1 + u64_mod ≡ value + val))
      × ((fetch_op add value val).1 < u64_mod)
      × (op_fetch add value val ≡ ((fetch_op add value val).1, (fetch_op add value val).1))
      × (op_fetch sub (fetch_op add value val).1 val ≡ (value, value))
unfolding fetch_op op_fetch assign
sub-add value val h k =
    let back = taken_back value val h k in
    (refl, wraps value val h k, omega arith, refl, ap (λ v. (v, v)) back)
  where
    taken_back :
        (value val : ℕ)
        → value < u64_mod
        → val < u64_mod
        → ((value + val) % u64_mod + (u64_mod - val)) % u64_mod ≡ value
    taken_back value val h k = omega arith

    wraps :
        (value val : ℕ)
        → value < u64_mod
        → val < u64_mod
        → ((value + val) % u64_mod ≡ value + val)
          ⊎ ((value + val) % u64_mod + u64_mod ≡ value + val)
    wraps value val h k = elim (dec_lt (value + val) u64_mod) [
      | yes fits ↦ inl (omega arith)
      | no over ↦ inr (omega arith)
    ]
