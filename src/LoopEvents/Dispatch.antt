-- ===== src/LoopEvents/Dispatch.antt =====
-- The loop's task and the posting tasks at one queue of xsp_loop_events.c, in every order of their
-- critical sections, and what holds between these.
use xsp.Prelude.{
  ℕ, suc, ◌+◌, ◌≤◌, ◌<◌, ◌≡◌, Bool, true, false, ◌&&◌, ◌||◌, List, [], ◌∷◌, ◌++◌, some, ltb,
  if◌then◌else◌, length,
}
use xsp.Prelude.Int.{int_max}
use xsp.Esp.{EspErr, is_ok}
use xsp.EventFd.{create}
use xsp.LoopEvents.{LoopEvents, post_event, begin_read, dispatch_one}
use xsp.LoopEvents.Queue.{contents, IsValid}

-- What is still to be dispatched of the current call of `on_loop_can_read_fd`, whether some call
-- stopped before its last event, and the events accepted and handed to the handler so far.
pub record System : Type 0 where
  pub le : LoopEvents
  pub remaining : ℕ
  pub stopped : Bool
  pub accepted : List (List ℕ)
  pub delivered : List (List ℕ)

-- One critical section. The loop calls `on_loop_can_read_fd` when the wake descriptor is readable;
-- after each call of the handler it may find that `xsp_loop_should_stop`.
pub data Step (s t : System) : Type 0 where
  post :
      (bytes : List ℕ) (rv : EspErr) (le : LoopEvents)
      → length bytes ≡ s.le.data_size
      → post_event s.le bytes ≡ some (rv, le)
      → t ≡ record s {
        le = le;
        accepted = if is_ok rv then s.accepted ++ (bytes ∷ []) else s.accepted;
      }
      → Step s t
  begin :
      (count : ℕ) (le : LoopEvents)
      → s.remaining ≡ 0
      → 0 < s.le.wake.value
      → begin_read s.le ≡ some (count, le)
      → t ≡ record s { le = le; remaining = count }
      → Step s t
  deliver :
      (others : ℕ) (le : LoopEvents) (should_stop : Bool)
      → s.remaining ≡ suc others
      → dispatch_one s.le ≡ some le
      → t ≡ record s {
        le = le;
        remaining = if should_stop then 0 else others;
        stopped = s.stopped || (should_stop && ltb 0 others);
        delivered = s.delivered ++ (le.bounce_buffer ∷ []);
      }
      → Step s t

pub data Reach (first : LoopEvents) : System → Type 0 where
  here :
      Reach first
        (record { le = first; remaining = 0; stopped = false; accepted = []; delivered = [] })
  next : {s t : System} → Reach first s → Step s t → Reach first t

-- A queue that `xsp_loop_events_init` has just made.
pub record IsFresh (le : LoopEvents) : Type 0 where
  pub valid : IsValid le
  pub bounded : le.queue_size ≤ int_max
  pub empty : le.queue_count ≡ 0
  pub wake : le.wake ≡ create 0 true

-- While no dispatch was stopped, the wake value and the events still to be dispatched make up the
-- queue; once one was, the value stays below the number of events.
pub record Holds (s : System) : Type 0 where
  pub valid : IsValid s.le
  pub bounded : s.le.queue_size ≤ int_max
  pub one_reference : s.le.wake.refcount ≡ 1
  pub nonblock : s.le.wake.nonblock ≡ true
  pub in_order : s.accepted ≡ s.delivered ++ contents s.le
  pub counted : s.stopped ≡ false → s.le.wake.value + s.remaining ≡ s.le.queue_count
  pub behind : s.stopped ≡ true → (s.remaining ≡ 0) × (s.le.wake.value < s.le.queue_count)
