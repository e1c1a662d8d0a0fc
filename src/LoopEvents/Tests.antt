-- ===== src/LoopEvents/Tests.antt =====
-- Runs of xsp_loop_events.c with a queue of two events of one byte.
use xsp.Prelude.{
  ℕ, ◌<◌, ◌≡◌, ◌↔◌, refl, Bool, true, false, List, [], ◌∷◌, ◌++◌, none, some, arith, ltb,
  if◌then◌else◌, length,
}
use xsp.Esp.{EspErr, esp_ok}
use xsp.EventFd.{create, handle_write, overflows}
use xsp.EventFd.Calls.{signalled, drained}
use xsp.LoopEvents.{
  LoopEvents, post_event, begin_read, dispatch_one, event_queue_push_tail_locked,
  event_queue_pop_head_locked,
}
use xsp.LoopEvents.Queue.{contents, IsValid, Popped, push-refines, pop-refines}
use xsp.LoopEvents.Dispatch.{System, post, begin, deliver, Reach, here, next, IsFresh}
use xsp.LoopEvents.Safety.{
  Posted, delivered_in_order, post_event-Posted, begin_read_lem, dispatch_one_lem, readable_iff,
  stopped_fails,
}
use xsp.LoopEvents.Invariant.{begin_counted}

abbrev queue_of : List ℕ → ℕ → ℕ → LoopEvents
queue_of queue head count = record {
  data_size = 1;
  queue_size = 2;
  queue = queue;
  queue_head = head;
  queue_count = count;
  wake = create 0 true;
  bounce_buffer = 0 ∷ [];
}

abbrev fresh : LoopEvents
fresh = queue_of (0 ∷ 0 ∷ []) 0 0

fresh-IsFresh : IsFresh fresh
fresh-IsFresh = record {
  valid = record {
    some_room = omega arith;
    head_inside = omega arith;
    count_inside = omega arith;
    block_size = refl;
  };
  bounded = omega arith;
  empty = refl;
  wake = refl;
}

-- 8 at the end of the block.
abbrev wrapping : LoopEvents
wrapping = queue_of (0 ∷ 8 ∷ []) 1 1

wrapping-IsValid : IsValid wrapping
wrapping-IsValid = record {
  some_room = omega arith;
  head_inside = omega arith;
  count_inside = omega arith;
  block_size = refl;
}

push-refines_here :
    let (pushed, le') = event_queue_push_tail_locked wrapping (9 ∷ []) in
    IsValid le'
    × (pushed ≡ ltb (length (contents wrapping)) 2)
    × (contents le' ≡ (if pushed then contents wrapping ++ ((9 ∷ []) ∷ []) else contents wrapping))
push-refines_here = push-refines wrapping (9 ∷ []) wrapping-IsValid refl

pop-refines_here :
    let (success, le') = event_queue_pop_head_locked wrapping in
    IsValid le' × Popped (contents wrapping) success le'
pop-refines_here = pop-refines wrapping wrapping-IsValid

abbrev system : LoopEvents → ℕ → Bool → List (List ℕ) → List (List ℕ) → System
system le remaining stopped accepted delivered = record {
  le = le;
  remaining = remaining;
  stopped = stopped;
  accepted = accepted;
  delivered = delivered;
}

-- Two posts, the start of a dispatch, and its first round, at which the loop should stop.
abbrev one : LoopEvents
one = record fresh { queue = 5 ∷ 0 ∷ []; queue_count = 1; wake = signalled (create 0 true) }

abbrev two : LoopEvents
two = record one { queue = 5 ∷ 6 ∷ []; queue_count = 2; wake = signalled one.wake }

abbrev begun : LoopEvents
begun = record two { wake = drained two.wake }

abbrev dispatched : LoopEvents
dispatched = record begun { bounce_buffer = 5 ∷ []; queue_head = 1; queue_count = 1 }

abbrev both : List (List ℕ)
both = (5 ∷ []) ∷ (6 ∷ []) ∷ []

Reach-one : Reach fresh (system one 0 false ((5 ∷ []) ∷ []) [])
unfolding post_event event_queue_push_tail_locked handle_write overflows create
Reach-one = next here (post (5 ∷ []) esp_ok one refl refl refl)

Reach-two : Reach fresh (system two 0 false both [])
unfolding post_event event_queue_push_tail_locked handle_write overflows create
Reach-two = next Reach-one (post (6 ∷ []) esp_ok two refl refl refl)

Reach-begun : Reach fresh (system begun 2 false both [])
unfolding create
Reach-begun =
    next Reach-two
      (begin 2 begun refl (omega arith) (begin_counted two refl (omega arith) refl) refl)

Reach-stopped : Reach fresh (system dispatched 0 true both ((5 ∷ []) ∷ []))
unfolding dispatch_one event_queue_pop_head_locked
Reach-stopped = next Reach-begun (deliver 1 dispatched true refl refl refl)

delivered_in_order_example : both ≡ ((5 ∷ []) ∷ []) ++ contents dispatched
delivered_in_order_example = delivered_in_order fresh-IsFresh Reach-stopped

post_event-Posted_example :
    (result : EspErr × LoopEvents) × (post_event two (7 ∷ []) ≡ some result)
    × Posted two (7 ∷ []) result
post_event-Posted_example = post_event-Posted (7 ∷ []) fresh-IsFresh Reach-two refl

begin_read_lem_example :
    begin_read two ≡ some (length (contents two), record two { wake = drained two.wake })
unfolding create
begin_read_lem_example = begin_read_lem fresh-IsFresh Reach-two refl refl (omega arith)

dispatch_one_here :
    (le : LoopEvents) × (dispatch_one begun ≡ some le)
    × (contents begun ≡ le.bounce_buffer ∷ contents le)
dispatch_one_here = dispatch_one_lem fresh-IsFresh Reach-begun (omega arith)

readable_iff_example : (0 < two.wake.value) ↔ (0 < length (contents two))
readable_iff_example = readable_iff fresh-IsFresh Reach-two refl refl

stopped_fails_example : begin_read dispatched ≡ none
stopped_fails_example = stopped_fails fresh-IsFresh Reach-stopped refl
