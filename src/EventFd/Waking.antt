-- ===== src/EventFd/Waking.antt =====
-- Writes to eventfds that a select() waits for.
use xsp.Prelude.{ℕ, ◌≡◌, Bool, true, List, [], ◌∷◌, Option, none, some}
use xsp.Prelude.FdSet.{FdSet, has}
use xsp.EventFd.{Efd, Next, write_enter, write_wake, read_enter, read_wake, handle_write, set_flags}
use xsp.EventFd.Table.{Slot, Ctx, find, change, selecting, start_select}

-- What the calls for eventfds do to an object while they hold its lock: writes and reads, up to where
-- they wait and from there on, writes by handle, and a change of the flags.
pub data Section : Efd → Efd → Type 0 where
  entering_write :
      (e e' : Efd) (to_add : ℕ) (next : Next)
      → write_enter e to_add ≡ (some e', next)
      → Section e e'
  woken_write :
      (e e' : Efd) (to_add : ℕ) (next : Next) → write_wake e to_add ≡ (some e', next) → Section e e'
  entering_read : (e e' : Efd) (next : Next) → read_enter e ≡ (some e', next) → Section e e'
  woken_read : (e e' : Efd) (next : Next) → read_wake e ≡ (some e', next) → Section e e'
  writing_handle : (e : Efd) (to_add : ℕ) → Section e (handle_write e to_add).0
  setting_flags : (e : Efd) (nonblock : Bool) → Section e (set_flags e nonblock)

abbrev Keeps : Efd → Option Efd × Next → Type 0
Keeps e (none, next) = Unit
Keeps e (some e', next) = e'.select_active ≡ e.select_active

-- Every object that is watched for reading knows of the select().
abbrev Active : FdSet → List Slot → Type 0
Active fds [] = Unit
Active fds (none ∷ slots) = Active fds slots
Active fds (some (k, e) ∷ slots) = (has k fds ≡ true → e.select_active ≡ true) × Active fds slots

-- The table while a select() that was started waits, with no descriptor opened or closed: one critical
-- section of an object after the other.
pub data Waiting (before : Ctx) (readfds : FdSet) (writefds : Option FdSet) : Ctx → Type 0 where
  started : Waiting before readfds writefds (start_select before (some readfds) writefds).1
  then_section :
      (ctx : Ctx) (fd : ℕ) (e e' : Efd)
      → Waiting before readfds writefds ctx
      → find ctx.eventfds fd ≡ some e
      → Section e e'
      → Waiting before readfds writefds (record ctx { eventfds = change (λ o. e') ctx.eventfds fd })

module _ (before : Ctx) (readfds : FdSet) (writefds : Option FdSet) where
  IsActive : Ctx → Type 0
  IsActive ctx =
      (ctx.select ≡ some (selecting (some readfds) writefds)) × Active readfds ctx.eventfds
