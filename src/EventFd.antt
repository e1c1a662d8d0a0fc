-- ===== src/EventFd.antt =====
-- components/xsp_eventfd/xsp_eventfd.c, one eventfd: what a call does to the object each time it
-- holds the object's lock, from LOCK to UNLOCK.
--
-- A blocking call has several such sections: `write_enter` until the call returns or waits, then
-- `write_wake` each time that xEventGroupWaitBits returns; and so for read. The two event bits are
-- fields. The result says how the call goes on. `none` for the object means that it was freed.
pub mod Bounds
pub mod Threads
pub mod Invariant
pub mod Rounds
pub mod Reads
pub mod Safety
pub mod Calls
pub mod Table
pub mod Slots
pub mod Selects
pub mod Waking
mod Tests
mod TableTests
use xsp.Prelude.{
  ℕ, ◌+◌, ◌-◌, ◌%◌, ◌^◌, Bool, true, false, Option, none, some, ltb, ◌==◌, if◌then◌else◌,
}

abbrev pub u64_mod : ℕ
u64_mod = 2 ^ 64

-- `xsp_eventfd_t`; `dec_bit` and `inc_bit` are the bits of `events`.
pub record Efd : Type 0 where
  pub refcount : ℕ
  pub value : ℕ
  pub nonblock : Bool
  pub closed : Bool
  pub dec_bit : Bool
  pub inc_bit : Bool
  pub dec_waiters : ℕ
  pub inc_waiters : ℕ
  pub select_active : Bool

-- The object that `xsp_eventfd` makes.
unfoldable pub create : ℕ → Bool → Efd
create initval nonblock = record {
  refcount = 1;
  value = initval;
  nonblock = nonblock;
  closed = false;
  dec_bit = false;
  inc_bit = false;
  dec_waiters = 0;
  inc_waiters = 0;
  select_active = false;
}

pub efd_ref_locked : Efd → Efd
efd_ref_locked e = record e { refcount = e.refcount + 1 }

pub efd_unref_locked : Efd → Option Efd
efd_unref_locked e = if e.refcount == 1 then none else some (record e { refcount = e.refcount - 1 })

-- How a call goes on behind UNLOCK.
pub data Next : Type 0 where
  -- It returns 8, after maybe_signal_select if the flag is set. A read has the value read.
  wrote : Bool → Next
  was_read : ℕ → Bool → Next
  -- It returns -1 with EAGAIN or EBADF.
  again bad_fd : Next
  -- It calls xEventGroupWaitBits.
  waits : Next

-- `efd->value + to_add < efd->value`, in uint64_t.
unfoldable pub overflows : ℕ → ℕ → Bool
overflows value to_add = ltb ((value + to_add) % u64_mod) value

-- The loop test of `efd_write_p`, what it does when it fails, and the code behind the loop.
pub write_round : Efd → ℕ → Option Efd × Next
unfolding efd_unref_locked overflows
write_round e to_add =
    if overflows e.value to_add
    then if e.nonblock
      then (efd_unref_locked e, again)
      else (some (record e { dec_waiters = e.dec_waiters + 1 }), waits)
    else (
      efd_unref_locked (record e {
        value = (e.value + to_add) % u64_mod;
        inc_bit = if ltb 0 e.inc_waiters then true else e.inc_bit;
      }),
      wrote e.select_active,
    )

-- `efd_write_p` from the lookup on.
pub write_enter : Efd → ℕ → Option Efd × Next
write_enter e to_add = write_round (efd_ref_locked e) to_add

-- `efd_write_p` behind xEventGroupWaitBits.
pub write_wake : Efd → ℕ → Option Efd × Next
write_wake e to_add =
    let e' = record e { dec_waiters = e.dec_waiters - 1 } in
    if e'.closed
    then (efd_unref_locked e', bad_fd)
    else write_round (record e' { dec_bit = if e'.dec_waiters == 0 then false else e'.dec_bit })
        to_add

pub read_round : Efd → Option Efd × Next
unfolding efd_unref_locked
read_round e =
    if e.value == 0
    then if e.nonblock
      then (efd_unref_locked e, again)
      else (some (record e { inc_waiters = e.inc_waiters + 1 }), waits)
    else (
      efd_unref_locked
          (record e { value = 0; dec_bit = if ltb 0 e.dec_waiters then true else e.dec_bit }),
      was_read e.value e.select_active,
    )

-- `efd_read_p` from the lookup on.
pub read_enter : Efd → Option Efd × Next
read_enter e = read_round (efd_ref_locked e)

-- `efd_read_p` behind xEventGroupWaitBits.
pub read_wake : Efd → Option Efd × Next
read_wake e =
    let e' = record e { inc_waiters = e.inc_waiters - 1 } in
    if e'.closed
    then (efd_unref_locked e', bad_fd)
    else read_round (record e' { inc_bit = if e'.inc_waiters == 0 then false else e'.inc_bit })

-- `xsp_eventfd_write`, by the handle: the object behind the call, whether it returned true, and
-- whether it goes on to maybe_signal_select.
unfoldable pub handle_write : Efd → ℕ → Efd × Bool × Bool
handle_write e to_add =
    if to_add == 0
    then (e, true, false)
    else if overflows e.value to_add
    then (e, false, false)
    else (
      record e {
        value = (e.value + to_add) % u64_mod;
        inc_bit = if ltb 0 e.inc_waiters then true else e.inc_bit;
      },
      true,
      e.select_active,
    )

-- `efd_close_p`, what it does to the object once the descriptor is gone.
pub close_locked : Efd → Option Efd
close_locked e =
    efd_unref_locked
      (record e { closed = true; dec_bit = true; inc_bit = true; select_active = false })

-- `efd_fcntl_p` with F_SETFL, F_GETFL; the flag is O_NONBLOCK of the argument.
pub set_flags : Efd → Bool → Efd
set_flags e nonblock = record e { nonblock = nonblock }

pub get_flags : Efd → Bool
get_flags e = e.nonblock
