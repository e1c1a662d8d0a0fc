-- ===== src/EventFd/Calls.antt =====
-- Calls at an eventfd of xsp_eventfd.c that one owner writes by its handle and reads without blocking.
use xsp.Prelude.{ℕ, ◌+◌, ◌≤◌, ◌<◌, ◌≡◌, refl, Bool, true, false, some, arith, ltb, if◌then◌else◌}
use xsp.Prelude.Int.{int_max}
use xsp.EventFd.{
  Efd, create, again, was_read, overflows, efd_ref_locked, efd_unref_locked, handle_write,
  read_round, read_enter,
}

abbrev pub signalled : Efd → Efd
signalled e = record e {
  value = e.value + 1;
  inc_bit = if ltb 0 e.inc_waiters then true else e.inc_bit;
}

pub handle_write_one :
    (e : Efd) → e.value ≤ int_max → handle_write e 1 ≡ (signalled e, true, e.select_active)
unfolding handle_write overflows
handle_write_one e h = ground arith

abbrev pub drained : Efd → Efd
drained e = record e { value = 0; dec_bit = if ltb 0 e.dec_waiters then true else e.dec_bit }

pub read_drains :
    (e : Efd)
    → e.refcount ≡ 1
    → 0 < e.value
    → read_enter e ≡ (some (drained e), was_read e.value e.select_active)
unfolding read_enter read_round efd_ref_locked efd_unref_locked
read_drains e h k = ground arith

pub read_refuses :
    (e : Efd) → e.refcount ≡ 1 → e.nonblock ≡ true → e.value ≡ 0 → read_enter e ≡ (some e, again)
unfolding read_enter read_round efd_ref_locked efd_unref_locked
read_refuses e h n k = ground arith

pub create_lem :
    (initval : ℕ) (nonblock : Bool)
    → create initval nonblock ≡ record {
      refcount = 1;
      value = initval;
      nonblock = nonblock;
      closed = false;
      dec_bit = false;
      inc_bit = false;
      dec_waiters = 0;
      inc_waiters = 0;
      select_active = false;
    }
unfolding create
create_lem initval nonblock = refl
