-- ===== src/EventFd/Bounds.antt =====
-- The counter of an eventfd as Linux's manual describes it, and what xsp_eventfd.c does to it.
use xsp.Prelude.{ℕ, ◌+◌, ◌≤◌, ◌<◌, ◌≡◌, ◌↔◌, true, arith}
use xsp.EventFd.{u64_mod, overflows}

-- For counters of 64 bits the code's test says exactly that the true sum does not fit.
pub overflows_iff :
    (value to_add : ℕ)
    → value < u64_mod
    → to_add < u64_mod
    → (overflows value to_add ≡ true) ↔ (u64_mod ≤ value + to_add)
unfolding overflows
overflows_iff value to_add h k = ground arith
