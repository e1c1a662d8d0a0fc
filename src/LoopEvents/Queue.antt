-- ===== src/LoopEvents/Queue.antt =====
-- The queue of xsp_loop_events.c as a bounded FIFO of entries.
use xsp.Prelude.{
  ℕ, suc, ◌+◌, ◌-◌, ◌*◌, ◌≤◌, ◌<◌, ◌≡◌, ◌≢◌, refl, sym, ap, ◌∙◌, Bool, true, false, List, [], ◌∷◌,
  ◌++◌, arith, ltb, if◌then◌else◌, length, memcpy, ==-eq_false,
}
use mathlib.Core.Path.{subst}
use native.Mathlib.Decide.{ℕ_discrete}
use xsp.LoopEvents.{LoopEvents, event_queue_pop_head_locked, event_queue_push_tail_locked}
use xsp.LoopEvents.Entries.{entry, length-memcpy}
use xsp.LoopEvents.Window.{
  wrap, mod-wrap, window, window-wrap, index-fits, wrap-inside, window-push, length-window,
  window_one,
}

-- The events queued, oldest first.
abbrev pub contents : LoopEvents → List (List ℕ)
contents le = window le.data_size le.queue_size le.queue le.queue_head le.queue_count

pub record IsValid (le : LoopEvents) : Type 0 where
  pub some_room : 0 < le.queue_size
  pub head_inside : le.queue_head < le.queue_size
  pub count_inside : le.queue_count ≤ le.queue_size
  pub block_size : length le.queue ≡ le.queue_size * le.data_size

pub length-contents : (le : LoopEvents) → length (contents le) ≡ le.queue_count
length-contents le = length-window le.data_size le.queue_size le.queue le.queue_head le.queue_count

-- The two branches of a push.
abbrev pub pushed_onto : LoopEvents → List ℕ → LoopEvents
pushed_onto le bytes = record le {
  queue =
      memcpy le.queue (wrap le.queue_size (le.queue_head + le.queue_count) * le.data_size) bytes;
  queue_count = le.queue_count + 1;
}

pub push_full :
    (le : LoopEvents) (bytes : List ℕ)
    → le.queue_count ≡ le.queue_size
    → event_queue_push_tail_locked le bytes ≡ (false, le)
unfolding event_queue_push_tail_locked
push_full le bytes h = ground arith

pub push_room :
    (le : LoopEvents) (bytes : List ℕ)
    → IsValid le
    → le.queue_count ≢ le.queue_size
    → event_queue_push_tail_locked le bytes ≡ (true, pushed_onto le bytes)
unfolding event_queue_push_tail_locked
push_room le bytes v h = rw (==-eq_false le.queue_count le.queue_size h) (
    ap
      (λ i. (
        true,
        record le {
          queue = memcpy le.queue (i * le.data_size) bytes;
          queue_count = le.queue_count + 1;
        },
      ))
      (mod-wrap le.queue_size (le.queue_head + le.queue_count)
        (omega (arith, v.head_inside, v.count_inside))))

pub pushed-IsValid :
    (le : LoopEvents) (bytes : List ℕ)
    → IsValid le
    → length bytes ≡ le.data_size
    → le.queue_count ≢ le.queue_size
    → IsValid (pushed_onto le bytes)
pushed-IsValid le bytes v e h = record {
  some_room = v.some_room;
  head_inside = v.head_inside;
  count_inside = omega (arith, v.count_inside);
  block_size = length-memcpy le.queue _ bytes (omega (arith, e, fits)) ∙ v.block_size;
}
  where
    tail : ℕ
    tail = wrap le.queue_size (le.queue_head + le.queue_count)

    fits : suc tail * le.data_size ≤ length le.queue
    fits =
        index-fits le.data_size le.queue_size tail le.queue v.block_size
          (wrap-inside le.queue_size _ (omega (arith, v.head_inside, v.count_inside)))

pub contents-pushed :
    (le : LoopEvents) (bytes : List ℕ)
    → IsValid le
    → length bytes ≡ le.data_size
    → le.queue_count ≢ le.queue_size
    → contents (pushed_onto le bytes) ≡ contents le ++ (bytes ∷ [])
contents-pushed le bytes v e h =
    ap (window le.data_size le.queue_size _ le.queue_head) {y = suc le.queue_count} (omega arith)
    ∙ window-push le.data_size le.queue_size le.queue bytes le.queue_head le.queue_count _
        v.block_size e refl (omega (arith, v.count_inside))
        (omega (arith, v.head_inside, v.count_inside))

-- With an entry's bytes, a valid queue takes the event at its tail if there is room, and refuses it
-- with no change if there is none; it stays valid.
pub push-refines :
    (le : LoopEvents) (bytes : List ℕ)
    → IsValid le
    → length bytes ≡ le.data_size
    → let (pushed, le') = event_queue_push_tail_locked le bytes in
      IsValid le'
      × (pushed ≡ ltb (length (contents le)) le.queue_size)
      × (contents le' ≡ (if pushed then contents le ++ (bytes ∷ []) else contents le))
push-refines le bytes v e = elim (ℕ_discrete le.queue_count le.queue_size) [
  | yes full ↦ rw (push_full le bytes full) (v, ground (arith, count), refl)
  | no room ↦ rw (push_room le bytes v room) (
    pushed-IsValid le bytes v e room,
    ground (arith, count, v.count_inside),
    contents-pushed le bytes v e room,
  )
]
  where
    count : length (contents le) ≡ le.queue_count
    count = length-window le.data_size le.queue_size le.queue le.queue_head le.queue_count

abbrev pub popped_from : LoopEvents → LoopEvents
popped_from le = record le {
  bounce_buffer = entry le.data_size le.queue_head le.queue;
  queue_head = wrap le.queue_size (le.queue_head + 1);
  queue_count = le.queue_count - 1;
}

pub pop_empty :
    (le : LoopEvents) → le.queue_count ≡ 0 → event_queue_pop_head_locked le ≡ (false, le)
unfolding event_queue_pop_head_locked
pop_empty le h = ground arith

pub pop_some :
    (le : LoopEvents)
    → IsValid le
    → 0 < le.queue_count
    → event_queue_pop_head_locked le ≡ (true, popped_from le)
unfolding event_queue_pop_head_locked
pop_some le v h = rw (==-eq_false le.queue_count 0 (omega arith)) (
    ap
      (λ i. (
        true,
        record le {
          bounce_buffer = entry le.data_size le.queue_head le.queue;
          queue_head = i;
          queue_count = le.queue_count - 1;
        },
      ))
      (mod-wrap le.queue_size (le.queue_head + 1) (omega (arith, v.head_inside))))

pub popped-IsValid : (le : LoopEvents) → IsValid le → 0 < le.queue_count → IsValid (popped_from le)
popped-IsValid le v h = record {
  some_room = v.some_room;
  head_inside = wrap-inside le.queue_size (le.queue_head + 1) (omega (arith, v.head_inside));
  count_inside = omega (arith, v.count_inside);
  block_size = v.block_size;
}

pub contents-popped :
    (le : LoopEvents)
    → IsValid le
    → 0 < le.queue_count
    → contents le ≡ (popped_from le).bounce_buffer ∷ contents (popped_from le)
contents-popped le v h =
    window_one le.data_size le.queue_size le.queue le.queue_head le.queue_count v.head_inside h
    ∙ ap (◌∷◌ (entry le.data_size le.queue_head le.queue)) (
        ap (λ i. window le.data_size le.queue_size le.queue i (le.queue_count - 1)) (omega arith)
        ∙ sym (
            window-wrap le.data_size le.queue_size le.queue (le.queue_head + 1) (le.queue_count - 1)
              (omega (arith, v.head_inside, v.count_inside))))

-- What a pop leaves of the events `before`: nothing to take, or the oldest one in the bounce buffer.
abbrev pub Popped : List (List ℕ) → Bool → LoopEvents → Type 0
Popped [] success after = (success ≡ false) × (contents after ≡ [])
Popped (x ∷ xs) success after = (success ≡ true) × (after.bounce_buffer ≡ x) × (contents after ≡ xs)

pub contents-empty : (le : LoopEvents) → le.queue_count ≡ 0 → contents le ≡ []
unfolding window
contents-empty le h = ap (window le.data_size le.queue_size le.queue le.queue_head) h

-- A valid queue gives its oldest event, if it has one, in the bounce buffer, and keeps the others in
-- order; it stays valid.
pub pop-refines :
    (le : LoopEvents)
    → IsValid le
    → let (success, le') = event_queue_pop_head_locked le in
      IsValid le' × Popped (contents le) success le'
pop-refines le v = elim (ℕ_discrete le.queue_count 0) [
  | yes none ↦ rw (pop_empty le none) (
    v,
    subst (λ c. Popped c false le) (sym (contents-empty le none)) (refl, contents-empty le none),
  )
  | no some ↦ rw (pop_some le v (omega arith)) (
    popped-IsValid le v (omega arith),
    subst (λ c. Popped c true (popped_from le)) (sym (contents-popped le v (omega arith)))
        (refl, refl, refl),
  )
]
