-- ===== src/Handler/SetupTests.antt =====
-- A handler is made in an empty loop, cleaned up, and not made for want of memory.
use xsp.Prelude.{ℕ, ◌≡◌, refl, true, false, [], ◌∷◌, none, some}
use xsp.Prelude.Int.{pos}
use xsp.Esp.{esp_ok}
use xsp.Loop.{State, WatchFor, Loop, add_fd_watcher, remove_fd_watcher}
use xsp.Handler.Setup.{is_valid, handler_init, Leaves, handler_init-Leaves, handler_cleanup}

abbrev empty : Loop ℕ
empty = record {
  poll_timeout_ms = 10;
  evt_handler = record { on_loop_start = none; on_loop_stop = none; on_loop_idle = none };
  fd_watchers = [];
}

abbrev watch_none : State ℕ → WatchFor × State ℕ
watch_none s = (record { write = false; read = false }, s)

abbrev same : State ℕ → State ℕ
same s = s

abbrev watched : Loop ℕ
watched = record empty {
  fd_watchers =
      record {
        on_loop_will_select = some watch_none;
        on_loop_can_write_fd = some same;
        on_loop_can_read_fd = some same;
        fd = 54;
        address = 200;
      }
      ∷ [];
}

made :
    handler_init 64 watch_none same same empty none true
      (pos 54)
      (record { for_handler = some 100; for_watcher = some 200; for_buffer = some 300 })
    ≡ some (record { handler = some 100; loop = watched; live = 100 ∷ 300 ∷ [] })
unfolding handler_init is_valid add_fd_watcher
made = refl

-- The handler is not freed when the loop refuses the descriptor.
leaks :
    handler_init 64 watch_none same same empty none true
      (pos 64)
      (record { for_handler = some 100; for_watcher = some 200; for_buffer = some 300 })
    ≡ some (record { handler = none; loop = empty; live = 100 ∷ [] })
unfolding handler_init is_valid add_fd_watcher
leaks = refl

handler_init-Leaves_example :
    Leaves 64 watch_none same same empty false
      (pos 54)
      (record { for_handler = some 100; for_watcher = some 200; for_buffer = some 300 })
      (handler_init 64 watch_none same same empty none true
        (pos 54)
        (record { for_handler = some 100; for_watcher = some 200; for_buffer = some 300 }))
unfolding is_valid
handler_init-Leaves_example =
    handler_init-Leaves 64 watch_none same same empty none true (pos 54)
      (record { for_handler = some 100; for_watcher = some 200; for_buffer = some 300 }) tt

cleaned_up : handler_cleanup false watched 100 300 200 ≡ some (esp_ok, 300 ∷ 200 ∷ 100 ∷ [], empty)
unfolding handler_cleanup remove_fd_watcher
cleaned_up = refl
