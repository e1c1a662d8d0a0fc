-- ===== src/LoopEvents/Safety.antt =====
-- What the tasks at one queue of xsp_loop_events.c can rely on, and where they cannot.
use xsp.Prelude.{
  ℕ, ◌<◌, ◌≡◌, ◌↔◌, refl, sym, ap, ◌∙◌, true, false, List, [], ◌∷◌, ◌++◌, none, some, arith, ltb,
  if◌then◌else◌, length,
}
use native.Mathlib.Decide.{ℕ_discrete}
use xsp.Esp.{EspErr, esp_ok, esp_fail, is_ok}
use xsp.EventFd.Calls.{drained}
use xsp.LoopEvents.{LoopEvents, post_event, begin_read, dispatch_one}
use xsp.LoopEvents.Queue.{contents, contents-pushed, contents-popped, length-contents, popped_from}
use xsp.LoopEvents.Dispatch.{System, Reach, IsFresh, Holds}
use xsp.LoopEvents.Invariant.{
  Reach-Holds, post_refused, post_accepted, posted, begin_counted, begin_uncounted, dispatch_some,
  value-bounded, remaining-queued,
}

-- Whatever the order of the posts and the rounds, from a new queue, the events accepted are those
-- handed to the handler followed by those still queued: none is lost, doubled or overtaken.
pub delivered_in_order :
    {first : LoopEvents} {s : System}
    → IsFresh first
    → Reach first s
    → s.accepted ≡ s.delivered ++ contents s.le
delivered_in_order f r = (Reach-Holds f r).in_order

-- What a post gives: ESP_OK and the event queued last if there is room, ESP_FAIL and no change of the
-- queue if there is none.
abbrev pub Posted : LoopEvents → List ℕ → EspErr × LoopEvents → Type 0
Posted le bytes (rv, le') =
    (rv ≡ (if ltb (length (contents le)) le.queue_size then esp_ok else esp_fail))
    × (contents le' ≡ (if is_ok rv then contents le ++ (bytes ∷ []) else contents le))

-- In every state that is reached from a new queue the assertion of a post holds, and the post takes
-- the event at the end of the queue exactly if there is room.
pub post_event-Posted :
    {first : LoopEvents} {s : System} (bytes : List ℕ)
    → IsFresh first
    → Reach first s
    → length bytes ≡ s.le.data_size
    → (result : EspErr × LoopEvents) × (post_event s.le bytes ≡ some result)
      × Posted s.le bytes result
post_event-Posted {s} bytes f r b = elim (ℕ_discrete s.le.queue_count s.le.queue_size) [
  | yes full ↦ ((esp_fail, s.le), post_refused s.le bytes full, (ground (arith, count), refl))
  | no room ↦ (
    (esp_ok, posted s.le bytes),
    post_accepted s.le bytes h.valid room
        (omega (arith, value-bounded s h, h.valid.count_inside, h.bounded)),
    (ground (arith, count, h.valid.count_inside), contents-pushed s.le bytes h.valid b room),
  )
]
  where
    h : Holds s
    h = Reach-Holds f r

    count : length (contents s.le) ≡ s.le.queue_count
    count = length-contents s.le

-- As long as no dispatch stopped before its last event, the loop's callback can rely on its
-- assertions when the wake descriptor is readable: it is to dispatch the events queued, all of them,
-- and leaves the descriptor not readable.
pub begin_read_lem :
    {first : LoopEvents} {s : System}
    → IsFresh first
    → Reach first s
    → s.stopped ≡ false
    → s.remaining ≡ 0
    → 0 < s.le.wake.value
    → begin_read s.le ≡ some (length (contents s.le), record s.le { wake = drained s.le.wake })
begin_read_lem {s} f r go z p =
    begin_counted s.le h.one_reference p (omega (arith, h.counted go))
    ∙ ap (λ n. some (n, record s.le { wake = drained s.le.wake })) (sym (length-contents s.le))
  where
    h : Holds s
    h = Reach-Holds f r

-- In each round that is still to come there is an event: the round's assertion holds, and the oldest
-- event goes to the handler.
pub dispatch_one_lem :
    {first : LoopEvents} {s : System}
    → IsFresh first
    → Reach first s
    → 0 < s.remaining
    → (le : LoopEvents) × (dispatch_one s.le ≡ some le)
      × (contents s.le ≡ le.bounce_buffer ∷ contents le)
dispatch_one_lem {s} f r p = (
  popped_from s.le,
  dispatch_some s.le h.valid (remaining-queued s h p),
  contents-popped s.le h.valid (remaining-queued s h p),
)
  where
    h : Holds s
    h = Reach-Holds f r

-- Between the calls of the callback, as long as none stopped before its last event, the wake
-- descriptor is readable exactly when an event is queued: no event waits unnoticed.
pub readable_iff :
    {first : LoopEvents} {s : System}
    → IsFresh first
    → Reach first s
    → s.stopped ≡ false
    → s.remaining ≡ 0
    → (0 < s.le.wake.value) ↔ (0 < length (contents s.le))
readable_iff {s} f r go z = (
  λ p. omega (arith, h.counted go, length-contents s.le),
  λ p. omega (arith, h.counted go, length-contents s.le),
)
  where
    h : Holds s
    h = Reach-Holds f r

-- Once a dispatch stopped before its last event, the callback fails an assertion whenever it is
-- called again, whatever was posted since.
pub stopped_fails :
    {first : LoopEvents} {s : System}
    → IsFresh first
    → Reach first s
    → s.stopped ≡ true
    → begin_read s.le ≡ none
stopped_fails {s} f r t =
    let h = Reach-Holds f r in begin_uncounted s.le h.one_reference h.nonblock (h.behind t).1
