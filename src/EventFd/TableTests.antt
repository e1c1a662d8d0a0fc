-- ===== src/EventFd/TableTests.antt =====
-- Runs over the table of eventfds: two are opened, one is watched by select(), written and closed.
use xsp.Prelude.{◌≡◌, refl, true, false, [], ◌∷◌, Option, none, some}
use xsp.Prelude.Int.{pos}
use xsp.Prelude.FdSet.{FdSet}
use xsp.Esp.{esp_ok}
use xsp.EventFd.{Efd, create, handle_write, set_flags, get_flags}
use xsp.EventFd.Table.{
  Ctx, fails, returns, ebadf, einval, enfile, register, find, vacate, fill, change,
  efd_lookup_locked, xsp_eventfd, efd_close, f_getfl, f_setfl, efd_fcntl, ioctl_get_handle,
  efd_ioctl, efd_write_begin, efd_read_begin, is_readable, is_writable, any_ready,
  maybe_signal_select, set_active, selecting, start_select, end_select,
}
use xsp.EventFd.Slots.{IsTable, Opens, xsp_eventfd-Opens}
use xsp.EventFd.Selects.{Reported, end_select-Reported}

abbrev two : Ctx
two = record {
  eventfds = some (54, create 0 false) ∷ some (55, create 5 false) ∷ none ∷ none ∷ [];
  select = none;
}

abbrev full : Ctx
full = record {
  eventfds =
      some (54, create 0 false)
      ∷ some (55, create 0 false)
      ∷ some (56, create 0 false)
      ∷ some (57, create 0 false)
      ∷ [];
  select = none;
}

opened :
    (xsp_eventfd (xsp_eventfd register 0 false true (esp_ok, 54)).0 5 false true (esp_ok, 55))
    ≡ (two, returns 55)
unfolding xsp_eventfd register fill
opened = refl

no_room : xsp_eventfd full 0 false true (esp_ok, 58) ≡ (full, fails enfile)
unfolding xsp_eventfd fill
no_room = refl

two-IsTable : IsTable two
unfolding find
two-IsTable = record { size = refl; differ = (refl, (refl, tt)) }

xsp_eventfd-Opens_example :
    Opens two 56 (create 7 true) true esp_ok (xsp_eventfd two 7 true true (esp_ok, 56))
xsp_eventfd-Opens_example =
    xsp_eventfd-Opens two 7 56 true true esp_ok two-IsTable (unfold efd_lookup_locked find in refl)

abbrev readers : FdSet
readers = 54 ∷ 55 ∷ 3 ∷ []

abbrev watching : Ctx
watching = record two { select = some (selecting (some readers) none) }

end_select-Reported_example :
    (ctx' : Ctx) × (read_out : Option FdSet) × (write_out : Option FdSet) × (end_select watching
      ≡ some (ctx', read_out, write_out))
    × (ctx'.select ≡ none)
    × Reported is_readable two.eventfds (some readers) read_out
    × Reported is_writable two.eventfds none write_out
end_select-Reported_example =
    end_select-Reported watching (some readers) none two-IsTable.differ refl

-- A write by handle has begun what the next one goes on with.
abbrev after_write : Ctx
after_write = record (start_select two (some readers) none).1 {
  eventfds =
      change (λ o. (handle_write (record (create 0 false) { select_active = true }) 4).0)
        (start_select two (some readers) none).1.eventfds 54;
}

abbrev four : Efd
four = record (create 4 false) { select_active = true }

signals_at_once : (start_select two (some readers) none).2 ≡ true
unfolding start_select maybe_signal_select any_ready set_active create
signals_at_once = refl

closed_54 :
    (efd_close two (pos 54)).0.eventfds ≡ none ∷ some (55, create 5 false) ∷ none ∷ none ∷ []
unfolding efd_close find vacate
closed_54 = refl

no_descriptor : efd_fcntl two (pos 99) f_getfl ≡ (two, fails ebadf)
unfolding efd_fcntl find
no_descriptor = refl

made_nonblocking :
    (efd_fcntl (efd_fcntl two (pos 55) (f_setfl true)).0 (pos 55) f_getfl).1 ≡ returns true
unfolding efd_fcntl find change set_flags get_flags
made_nonblocking = refl

handle_of : efd_ioctl two (pos 55) (ioctl_get_handle true) ≡ returns (create 5 false)
unfolding efd_ioctl efd_lookup_locked find
handle_of = refl

short_write : efd_write_begin two (pos 54) 7 1 ≡ fails einval
unfolding efd_write_begin
short_write = refl

short_read : efd_read_begin two (pos 54) 7 ≡ fails einval
unfolding efd_read_begin
short_read = refl
