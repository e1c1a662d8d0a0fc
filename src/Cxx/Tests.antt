-- ===== src/Cxx/Tests.antt =====
-- Tasks of a loop with room for two, of which one is run; and owners of clients.
use xsp.Prelude.{ℕ, ◌≡◌, refl, Bool, true, false, [], ◌∷◌, ◌++◌, none, some, arith}
use xsp.Prelude.Int.{pos}
use xsp.Esp.{esp_ok}
use xsp.EventFd.{create, handle_write, overflows}
use xsp.EventFd.Calls.{signalled, drained}
use xsp.LoopEvents.{LoopEvents, post_event, event_queue_push_tail_locked, dispatch_one}
use xsp.LoopEvents.Queue.{contents}
use xsp.LoopEvents.Invariant.{begin_counted}
use xsp.LoopEvents.Dispatch.{IsFresh}
use xsp.Cxx.Tasks.{Tasks, bytes_of, find_task, post_task, on_loop_events_event}
use xsp.Cxx.Pending.{events_of, tasks_of}
use xsp.Cxx.Order.{Posts, Runs, start, posts, begins, tasks_in_order, task_is_found}
use xsp.EventFd.Table.{register, efd_lookup_locked, find}
use xsp.EventFd.Slots.{IsTable}
use xsp.Loop.{EventHandler}
use xsp.LoopEvents.Setup.{Memory}
use xsp.Cxx.Loops.{construct as construct_loop, Destroys, construct-Destroys}
use xsp.Cxx.Owners.{
  release, shutdown, Clients, construct, move_construct, shutdown_at, move_assign, HandlerObject,
  Live, shutdown_handler, destroy_handler, on_closed, on_message_sent, on_data_frame_received,
  on_ping_received, on_pong_received, ws_client_closed, ws_client_message_sent,
  ws_client_data_frame_received, ws_client_ping_received,
}
use xsp.Cxx.Ownership.{Owners, no_objects, constructed, moved, Frees, handles_have_one_owner}
use xsp.Cxx.Twice.{destroyed_twice}

abbrev first : LoopEvents
first = record {
  data_size = 4;
  queue_size = 2;
  queue = 0 ∷ 0 ∷ 0 ∷ 0 ∷ 0 ∷ 0 ∷ 0 ∷ 0 ∷ [];
  queue_head = 0;
  queue_count = 0;
  wake = create 0 true;
  bounce_buffer = 0 ∷ 0 ∷ 0 ∷ 0 ∷ [];
}

first-IsFresh : IsFresh first
first-IsFresh = record {
  valid = record {
    some_room = omega arith;
    head_inside = omega arith;
    count_inside = omega arith;
    block_size = refl;
  };
  bounded = omega arith;
  empty = refl;
  wake = refl;
}

-- A task at 0x3ffb0010.
abbrev at : ℕ
at = 1073414160

abbrev queued : LoopEvents
queued = record first {
  queue = 16 ∷ 0 ∷ 251 ∷ 63 ∷ 0 ∷ 0 ∷ 0 ∷ 0 ∷ [];
  queue_count = 1;
  wake = signalled (create 0 true);
}

posted : post_task (some first) [] at true ≡ some (true, some queued, (at, true) ∷ [])
unfolding post_task bytes_of post_event event_queue_push_tail_locked handle_write overflows create
posted = refl

abbrev waiting : Posts Bool
waiting = record {
  system = record {
    le = queued;
    remaining = 0;
    stopped = false;
    accepted = bytes_of at ∷ [];
    delivered = [];
  };
  tasks = (at, true) ∷ [];
  accepted = true ∷ [];
  ran = [];
}

waiting-Runs : Runs first waiting
unfolding find_task bytes_of post_event event_queue_push_tail_locked handle_write overflows create
waiting-Runs = posts _ at true esp_ok queued start refl (omega arith) refl refl

abbrev begun : LoopEvents
begun = record queued { wake = drained queued.wake }

abbrev beginning : Posts Bool
beginning = record waiting { system = record waiting.system { le = begun; remaining = 1 } }

beginning-Runs : Runs first beginning
unfolding create
beginning-Runs =
    begins waiting 1 begun waiting-Runs refl (omega arith)
      (begin_counted queued refl (omega arith) refl)

tasks_in_order_example :
    (true ∷ [] ≡ [] ++ tasks_of ((at, true) ∷ [])) × (contents begun ≡ events_of ((at, true) ∷ []))
tasks_in_order_example = tasks_in_order first-IsFresh beginning beginning-Runs

task_is_found_example :
    (le : LoopEvents) × (address : ℕ) × (task : Bool) × (tasks : Tasks Bool) × (dispatch_one begun
      ≡ some le)
    × (((at, true) ∷ []) ≡ (address, task) ∷ tasks)
    × (on_loop_events_event ((at, true) ∷ []) le.bounce_buffer ≡ some (task, tasks))
task_is_found_example = task_is_found first-IsFresh beginning beginning-Runs (omega arith)

-- A client that is moved to a second object.
abbrev two_objects : Clients
two_objects = move_construct (construct (record { objects = []; live = [] }) 7) 0

two_objects-Owners : Owners two_objects
two_objects-Owners =
    moved (construct (record { objects = []; live = [] }) 7) 0 (constructed _ 7 no_objects refl)
      (omega arith)

handles_have_one_owner_example : Frees two_objects 0 (shutdown_at two_objects 0)
handles_have_one_owner_example =
    handles_have_one_owner two_objects 0 two_objects-Owners (omega arith)

-- The assignment frees the handle that is overwritten.
assigned_over :
    move_assign (record { objects = some 7 ∷ some 8 ∷ []; live = 8 ∷ 7 ∷ [] }) 0 1
    ≡ some (record { objects = some 8 ∷ none ∷ []; live = 8 ∷ [] })
unfolding move_assign shutdown_at shutdown release
assigned_over = refl

abbrev object : HandlerObject ℕ
object = record { ws_client = some 7; handle = 9; evt_handler = some 1 }

abbrev alive : Live
alive = record { clients = 7 ∷ []; handlers = 9 ∷ [] }

abbrev dead : HandlerObject ℕ
dead = record { ws_client = none; handle = 9; evt_handler = none }

abbrev none_left : Live
none_left = record { clients = []; handlers = [] }

destroyed : destroy_handler false object alive ≡ some none_left
unfolding destroy_handler shutdown_handler shutdown release
destroyed = refl

shut_down : shutdown_handler false object alive ≡ some (dead, none_left)
unfolding shutdown_handler shutdown release
shut_down = refl

destroyed_twice_example : destroy_handler false dead none_left ≡ none
destroyed_twice_example = destroyed_twice false object dead alive none_left refl shut_down

events :
    (on_closed object (pos 1000) ≡ some (1, ws_client_closed (pos 1000)))
    × (on_message_sent object true ≡ some (1, ws_client_message_sent true))
    × (on_data_frame_received object true 1 1 (65 ∷ [])
        ≡ some (1, ws_client_data_frame_received true 1 1 (65 ∷ [])))
    × (on_ping_received object 0 [] ≡ some (1, ws_client_ping_received 0 []))
    × (on_pong_received dead 0 [] ≡ none)
events = (refl, refl, refl, refl, refl)

-- A loop with room for eight tasks.
abbrev memory : Memory
memory = record {
  for_object = some 1;
  for_queue = some 2;
  for_bounce_buffer = some 3;
  for_eventfd = true;
  registered = (esp_ok, 54);
  for_watcher = some 4;
}

abbrev no_handler : EventHandler ℕ
no_handler = record { on_loop_start = none; on_loop_stop = none; on_loop_idle = none }

register-IsTable : IsTable register
unfolding register
register-IsTable = record { size = refl; differ = tt }

construct-Destroys_example :
    Destroys 64
      (λ s. s)
      register
      (construct_loop 64 (λ s. s) 10 no_handler memory 8 register (some 5))
unfolding efd_lookup_locked find register
construct-Destroys_example =
    construct-Destroys 64 (λ s. s) 10 no_handler memory 8 register (some 5) register-IsTable refl
