-- ===== src/Cxx/Tasks.antt =====
-- components/xsp_cxx/loop.cc: tasks, posted from any task of the system and run by the loop's.
--
-- A task stands in memory of its own, whose address is the event. A pointer has four bytes, the lowest
-- first. What a task does has no part here; the address that `new` returns is an argument.
use xsp.Prelude.{
  ℕ, ◌+◌, ◌*◌, ◌/◌, ◌%◌, Bool, false, List, [], ◌∷◌, ◌++◌, Option, none, some, ◌==◌, if◌then◌else◌,
  get_or,
}
use xsp.Esp.{EspErr, is_ok}
use xsp.LoopEvents.{LoopEvents, post_event}

-- The bytes of a pointer, which `&f` points to, and the pointer that memcpy makes of them.
unfoldable pub bytes_of : ℕ → List ℕ
bytes_of address =
    address % 256 ∷ address / 256 % 256 ∷ address / 65536 % 256 ∷ address / 16777216 % 256 ∷ []

unfoldable pub pointer_of : List ℕ → ℕ
pointer_of bytes =
    get_or bytes 0 0
    + get_or bytes 1 0 * 256
    + get_or bytes 2 0 * 65536
    + get_or bytes 3 0 * 16777216

-- The tasks in memory, in the order in which they were allocated.
abbrev pub Tasks : Type 0 → Type 0
Tasks A = List (ℕ × A)

module _ {A : Type 0} where
  unfoldable pub find_task : Tasks A → ℕ → Option A
  find_task [] address = none
  find_task ((k, task) ∷ tasks) address =
      if k == address then some task else find_task tasks address

  -- `delete`
  unfoldable pub delete_task : Tasks A → ℕ → Tasks A
  delete_task [] address = []
  delete_task ((k, task) ∷ tasks) address =
      if k == address then tasks else (k, task) ∷ delete_task tasks address

  -- The tasks in memory behind `xsp_loop_events_post_event`.
  abbrev pub after_post : Tasks A → ℕ → A → EspErr → Tasks A
  after_post tasks address task err = if is_ok err then tasks ++ ((address, task) ∷ []) else tasks

  -- `Loop::PostTask`, of a loop with or without a queue of events.
  unfoldable pub post_task :
      Option LoopEvents → Tasks A → ℕ → A → Option (Bool × Option LoopEvents × Tasks A)
  post_task none tasks address task = some (false, none, tasks)
  post_task (some loop_events) tasks address task =
      elim (post_event loop_events (bytes_of address)) [
        | none ↦ none
        | some (err, loop_events') ↦
            some (is_ok err, some loop_events', after_post tasks address task err)
      ]

  -- `(*f)()` and `delete f`: the task that is run, and those that are left. `none` where the pointer is
  -- to none.
  unfoldable pub run_task : Tasks A → ℕ → Option (A × Tasks A)
  run_task tasks address = elim (find_task tasks address) [
    | none ↦ none
    | some task ↦ some (task, delete_task tasks address)
  ]

  -- `Loop::OnLoopEventsEvent`
  unfoldable pub on_loop_events_event : Tasks A → List ℕ → Option (A × Tasks A)
  on_loop_events_event tasks bytes = run_task tasks (pointer_of bytes)
