-- ===== src/LoopEvents.antt =====
-- components/xsp_loop_events/xsp_loop_events.c: a queue of events, posted by any task and dispatched
-- by the loop's task, which an eventfd wakes.
--
-- An assertion that fails is `none`. The eventfd is that of `EventFd`. What stands between LOCK and
-- UNLOCK of `queue_lock` is one function, so `on_loop_can_read_fd` is two: `begin_read` before its
-- `for` loop, `dispatch_one` for each round up to the handler's call.
pub mod Entries
pub mod Setup
pub mod Window
pub mod Queue
pub mod Dispatch
pub mod Invariant
pub mod Safety
mod Tests
mod SetupTests
use xsp.Prelude.{
  ℕ, ◌+◌, ◌-◌, ◌*◌, ◌%◌, Bool, true, false, not, ◌&&◌, ◌||◌, List, [], ◌∷◌, Option, none, some, ltb,
  ◌==◌, if◌then◌else◌, length, take, drop, memcpy,
}
use xsp.Prelude.Int.{ℤ, pos, negsuc}
use xsp.Esp.{EspErr, esp_ok, esp_fail}
use xsp.EventFd.{Efd, create, Next, was_read, wrote, again, bad_fd, waits, handle_write, read_enter}

-- `xsp_loop_events_t`: `queue` is the one block of `data_size * queue_size` bytes, and `wake` is the
-- object behind `wake_fd` and `wake_handle`.
pub record LoopEvents : Type 0 where
  pub data_size : ℕ
  pub queue_size : ℕ
  pub queue : List ℕ
  pub queue_head : ℕ
  pub queue_count : ℕ
  pub wake : Efd
  pub bounce_buffer : List ℕ

-- `validate_config`, for `data_size` and `queue_size`; a null configuration is valid.
unfoldable pub validate_config : Option (ℤ × ℤ) → Bool
validate_config none = true
validate_config (some (pos data_size, pos queue_size)) = not (queue_size == 0)
validate_config (some (negsuc _, queue_size)) = false
validate_config (some (pos _, negsuc _)) = false

-- What the calls in `xsp_loop_events_init` give: whether calloc, xsp_eventfd, ioctl and
-- xsp_loop_add_fd_watcher succeed, and malloc's blocks.
pub record Calls : Type 0 where
  pub callocs : Bool
  pub malloc : ℕ → Option (List ℕ)
  pub creates_eventfd : Bool
  pub gets_handle : Bool
  pub adds_watcher : Bool

-- A null pointer for no bytes is an empty block here.
abbrev pub buffer : Calls → ℕ → Option (List ℕ)
buffer calls size = if ltb 0 size then calls.malloc size else some []

-- `xsp_loop_events_init` behind its checks and its calloc.
unfoldable pub init_sized : Calls → ℕ → ℕ → Option LoopEvents
init_sized calls data_size queue_size = elim (buffer calls (data_size * queue_size)) [
  | none ↦ none
  | some queue ↦ elim (buffer calls data_size) [
    | none ↦ none
    | some bounce_buffer ↦
        if calls.creates_eventfd && (calls.gets_handle && calls.adds_watcher)
        then some (record {
          data_size = data_size;
          queue_size = queue_size;
          queue = queue;
          queue_head = 0;
          queue_count = 0;
          wake = create 0 true;
          bounce_buffer = bounce_buffer;
        })
        else none
  ]
]

-- `xsp_loop_events_config_default`
abbrev pub config_default : ℤ × ℤ
config_default = (pos 8, pos 16)

abbrev pub with_default : Option (ℤ × ℤ) → ℤ × ℤ
with_default none = config_default
with_default (some config) = config

abbrev pub to_size : ℤ → ℕ
to_size (pos n) = n
to_size (negsuc n) = 0

-- `xsp_loop_events_init`; the flags say that the handler and the loop are not null.
unfoldable pub init : Calls → Option (ℤ × ℤ) → Bool → Bool → Option LoopEvents
init calls config has_handler has_loop =
    let (data_size, queue_size) = with_default config in
    if not (validate_config (some (data_size, queue_size)))
    then none
    else if not has_handler || not has_loop
    then none
    else if calls.callocs
    then init_sized calls (to_size data_size) (to_size queue_size)
    else none

-- Where the entry begins in the block.
abbrev pub event_queue_entry_locked : LoopEvents → ℕ → ℕ
event_queue_entry_locked le raw_idx = raw_idx * le.data_size

unfoldable pub event_queue_pop_head_locked : LoopEvents → Bool × LoopEvents
event_queue_pop_head_locked le = if le.queue_count == 0 then (false, le) else (
  true,
  record le {
    bounce_buffer = take le.data_size (drop (event_queue_entry_locked le le.queue_head) le.queue);
    queue_head = (le.queue_head + 1) % le.queue_size;
    queue_count = le.queue_count - 1;
  },
)

-- `data` is the `data_size` bytes that the caller passes.
unfoldable pub event_queue_push_tail_locked : LoopEvents → List ℕ → Bool × LoopEvents
event_queue_push_tail_locked le bytes = if le.queue_count == le.queue_size then (false, le) else (
  true,
  record le {
    queue =
        memcpy le.queue
          (event_queue_entry_locked le ((le.queue_head + le.queue_count) % le.queue_size)) bytes;
    queue_count = le.queue_count + 1;
  },
)

-- `xsp_loop_events_post_event`.
unfoldable pub post_event : LoopEvents → List ℕ → Option (EspErr × LoopEvents)
post_event le bytes =
    let (pushed, le') = event_queue_push_tail_locked le bytes in
    let (wake', success, signal) = handle_write le'.wake 1 in
    if not pushed
    then some (esp_fail, le')
    else if success
    then some (esp_ok, record le' { wake = wake' })
    else none

-- The count that `read` gives, if it returned 8, and the object behind it.
abbrev read_result : Option Efd × Next → Option (ℕ × Efd)
read_result (some e, was_read value signal) = some (value, e)
read_result _ = none

-- `on_loop_can_read_fd` before its loop: how many events to dispatch.
unfoldable pub begin_read : LoopEvents → Option (ℕ × LoopEvents)
begin_read le =
    if ltb 0 le.queue_count
    then elim (read_result (read_enter le.wake)) [
      | none ↦ none
      | some (unused, wake') ↦
          if le.queue_count == unused
          then some (le.queue_count, record le { wake = wake' })
          else none
    ]
    else none

-- One round of the loop up to the handler, which is called with the bounce buffer.
unfoldable pub dispatch_one : LoopEvents → Option LoopEvents
dispatch_one le =
    let (success, le') = event_queue_pop_head_locked le in if success then some le' else none
