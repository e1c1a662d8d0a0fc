-- ===== src/Atomic8/Tests.antt =====
-- Operations of xsp_atomic8.c at the ends of the range.
use xsp.Prelude.{ℕ, ◌+◌, ◌<◌, ◌⊎◌, ◌-◌, ◌^◌, ◌≡◌, refl, true, arith}
use xsp.Atomic8.{add, sub, nand, load, compare_exchange, op_fetch, fetch_op, assign, sub-add}

abbrev greatest : ℕ
greatest = 2 ^ 64 - 1

nand_zero : assign nand 0 5 ≡ greatest
unfolding assign
nand_zero = refl

replaced : compare_exchange greatest (load greatest).0 7 ≡ (true, 7, greatest)
unfolding compare_exchange load
replaced = refl

sub-add_example :
    ((fetch_op add greatest 3).0 ≡ greatest)
    × (((fetch_op add greatest 3).1 ≡ greatest + 3)
        ⊎ ((fetch_op add greatest 3).1 + 2 ^ 64 ≡ greatest + 3))
    × ((fetch_op add greatest 3).1 < 2 ^ 64)
    × (op_fetch add greatest 3 ≡ ((fetch_op add greatest 3).1, (fetch_op add greatest 3).1))
    × (op_fetch sub (fetch_op add greatest 3).1 3 ≡ (greatest, greatest))
sub-add_example = sub-add greatest 3 (omega arith) (omega arith)
