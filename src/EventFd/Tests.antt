-- ===== src/EventFd/Tests.antt =====
-- Calls at one eventfd of xsp_eventfd.c.
use xsp.Prelude.{◌+◌, ◌-◌, ◌^◌, ◌≤◌, ◌≡◌, ◌↔◌, refl, inl, true, false, [], ◌∷◌, some, arith}
use xsp.EventFd.{
  u64_mod, Efd, create, overflows, efd_ref_locked, efd_unref_locked, was_read, wrote, waits,
  write_round, write_enter, read_round, read_enter, read_wake,
}
use xsp.EventFd.Threads.{write, read, Reach, here, next}
use xsp.EventFd.Safety.{object_exists_iff, writer_is_woken, reader_is_woken, IsHeld}
use xsp.EventFd.Bounds.{overflows_iff}

-- A read blocks at 0; a write of 3 sets its bit; the read then has 3.
abbrev blocked : Efd
blocked = record (create 0 false) { refcount = 2; inc_waiters = 1 }

abbrev written : Efd
written = record blocked { value = 3; inc_bit = true }

read_then_write :
    (read_enter (create 0 false) ≡ (some blocked, waits))
    × (write_enter blocked 3 ≡ (some written, wrote false))
    × (read_wake written ≡ (some (create 0 false), was_read 3 false))
unfolding create read_enter read_wake read_round write_enter write_round efd_ref_locked
    efd_unref_locked overflows
read_then_write = (refl, refl, refl)

reached : Reach 0 false (record { object = some written; linked = true; writers = []; readers = 1 })
unfolding create read_enter read_round write_enter write_round efd_ref_locked efd_unref_locked
    overflows
reached =
    next
      (next {t = record { object = some blocked; linked = true; writers = []; readers = 1 }} here
        (read (create 0 false) refl refl refl))
      (write blocked 3 refl refl (omega arith) (omega arith) refl)

object_exists_iff_example :
    ((e : Efd) × (some written ≡ some e))
    ↔ IsHeld (record { object = some written; linked = true; writers = []; readers = 1 })
object_exists_iff_example = object_exists_iff (omega arith) reached

reader_is_woken_example : written.inc_bit ≡ true
reader_is_woken_example =
    reader_is_woken (omega arith) reached written refl (omega arith) (inl (omega arith))

overflows_iff_here : (overflows (2 ^ 64 - 1) 1 ≡ true) ↔ (u64_mod ≤ (2 ^ 64 - 1) + 1)
overflows_iff_here = overflows_iff (2 ^ 64 - 1) 1 (omega arith) (omega arith)

-- A write of 1 blocks at the largest value; a read empties the counter and sets its bit.
abbrev full : Efd
full = create (2 ^ 64 - 1) false

abbrev full_blocked : Efd
full_blocked = record full { refcount = 2; dec_waiters = 1 }

abbrev emptied : Efd
emptied = record full_blocked { value = 0; dec_bit = true }

emptied_reached :
    Reach
      (2 ^ 64 - 1)
      false
      (record { object = some emptied; linked = true; writers = 1 ∷ []; readers = 0 })
unfolding create read_enter read_round write_enter write_round efd_ref_locked efd_unref_locked
    overflows
emptied_reached =
    next
      (next
        {t = record { object = some full_blocked; linked = true; writers = 1 ∷ []; readers = 0 }}
        here (write full 1 refl refl (omega arith) (omega arith) refl))
      (read full_blocked refl refl refl)

writer_is_woken_example : emptied.dec_bit ≡ true
writer_is_woken_example =
    writer_is_woken (omega arith) emptied_reached emptied refl 1 [] [] refl (inl (omega arith))
