-- ===== src/LoopEvents/SetupTests.antt =====
-- A queue of events is made in a new table of eventfds and an empty loop, and cleaned up.
use xsp.Prelude.{ℕ, ◌≡◌, refl, true, [], ◌∷◌, none, some}
use xsp.Esp.{esp_ok}
use xsp.EventFd.{create}
use xsp.EventFd.Table.{
  Ctx, register, fill, find, vacate, xsp_eventfd, efd_close, efd_ioctl, efd_lookup_locked,
}
use xsp.Loop.{State, Loop, add_fd_watcher}
use xsp.LoopEvents.{validate_config}
use xsp.LoopEvents.Setup.{Memory, Object, init, set_up, cleanup}

abbrev loop : Loop ℕ
loop = record {
  poll_timeout_ms = 10;
  evt_handler = record { on_loop_start = none; on_loop_stop = none; on_loop_idle = none };
  fd_watchers = [];
}

abbrev memory : Memory
memory = record {
  for_object = some 1;
  for_queue = some 2;
  for_bounce_buffer = some 3;
  for_eventfd = true;
  registered = (esp_ok, 54);
  for_watcher = some 4;
}

abbrev same : State ℕ → State ℕ
same s = s

abbrev object : Object
object = record {
  address = 1;
  queue = 2 ∷ [];
  bounce_buffer = 3 ∷ [];
  wake_fd = 54;
  fd_watcher = 4;
}

abbrev opened : Ctx
opened = record { eventfds = some (54, create 0 true) ∷ none ∷ none ∷ none ∷ []; select = none }

abbrev watched : Loop ℕ
watched = record loop {
  fd_watchers =
      record {
        on_loop_will_select = none;
        on_loop_can_write_fd = none;
        on_loop_can_read_fd = some same;
        fd = 54;
        address = 4;
      }
      ∷ [];
}

made : init 64 same memory none true true register loop ≡ record {
  object = some object;
  ctx = opened;
  loop = watched;
  allocated = 1 ∷ 2 ∷ 3 ∷ [];
  freed = [];
}
unfolding init set_up validate_config xsp_eventfd fill register efd_ioctl efd_lookup_locked find
    add_fd_watcher
made = refl

-- The descriptor is not one that select() takes.
not_watched : init 54 same memory none true true register loop ≡ record {
  object = none;
  ctx = register;
  loop = loop;
  allocated = 1 ∷ 2 ∷ 3 ∷ [];
  freed = 3 ∷ 2 ∷ 1 ∷ [];
}
unfolding init set_up validate_config xsp_eventfd fill register efd_ioctl efd_lookup_locked
    efd_close find vacate add_fd_watcher
not_watched = refl

cleaned_up : cleanup opened object ≡ (esp_ok, register, 3 ∷ 2 ∷ 1 ∷ [])
unfolding cleanup efd_close find vacate register
cleaned_up = refl
