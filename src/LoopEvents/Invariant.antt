-- ===== src/LoopEvents/Invariant.antt =====
-- The critical sections of xsp_loop_events.c keep the invariant of `LoopEvents.Dispatch`.
use xsp.Prelude.{
  ℕ, suc, ◌≤◌, ◌<◌, ◌≡◌, ◌≢◌, refl, sym, ap, ◌∙◌, inl, inr, Bool, true, false, ◌&&◌, ◌||◌, List, [],
  ◌∷◌, ◌++◌, append_assoc, none, some, arith, ltb, if◌then◌else◌, length, Bool-cases,
}
use mathlib.Core.Path.{subst}
use native.Mathlib.Decide.{ℕ_discrete}
use xsp.Prelude.Int.{int_max}
use xsp.Esp.{EspErr, esp_ok, esp_fail, is_ok}
use xsp.EventFd.{Efd}
use xsp.EventFd.Calls.{signalled, handle_write_one, create_lem, drained, read_drains, read_refuses}
use xsp.LoopEvents.{LoopEvents, post_event, begin_read, dispatch_one}
use xsp.LoopEvents.Queue.{
  contents, IsValid, pushed_onto, push_full, push_room, pushed-IsValid, contents-pushed,
  popped_from, contents-empty, pop_some, popped-IsValid, contents-popped,
}
use xsp.LoopEvents.Dispatch.{System, Step, post, begin, deliver, Reach, here, next, IsFresh, Holds}

pub post_refused :
    (le : LoopEvents) (bytes : List ℕ)
    → le.queue_count ≡ le.queue_size
    → post_event le bytes ≡ some (esp_fail, le)
unfolding post_event
post_refused le bytes h = rw (push_full le bytes h) refl

abbrev pub posted : LoopEvents → List ℕ → LoopEvents
posted le bytes = record (pushed_onto le bytes) { wake = signalled le.wake }

pub post_accepted :
    (le : LoopEvents) (bytes : List ℕ)
    → IsValid le
    → le.queue_count ≢ le.queue_size
    → le.wake.value ≤ int_max
    → post_event le bytes ≡ some (esp_ok, posted le bytes)
unfolding post_event
post_accepted le bytes v h k = rw (push_room le bytes v h) (rw (handle_write_one le.wake k) refl)

pub begin_counted :
    (le : LoopEvents)
    → le.wake.refcount ≡ 1
    → 0 < le.wake.value
    → le.wake.value ≡ le.queue_count
    → begin_read le ≡ some (le.queue_count, record le { wake = drained le.wake })
unfolding begin_read
begin_counted le r p e = rw (read_drains le.wake r p) (ground arith)

pub begin_uncounted :
    (le : LoopEvents)
    → le.wake.refcount ≡ 1
    → le.wake.nonblock ≡ true
    → le.wake.value < le.queue_count
    → begin_read le ≡ none
unfolding begin_read
begin_uncounted le r n h = elim (ℕ_discrete le.wake.value 0) [
  | yes z ↦ rw (read_refuses le.wake r n z) (ground arith)
  | no p ↦ rw (read_drains le.wake r (omega arith)) (ground arith)
]

pub dispatch_some :
    (le : LoopEvents) → IsValid le → 0 < le.queue_count → dispatch_one le ≡ some (popped_from le)
unfolding dispatch_one
dispatch_some le v h = rw (pop_some le v h) refl

some_inj {ℓ} : {A : Type ℓ} {x y : A} → some x ≡ some y → x ≡ y
some_inj e = cc e

wake-IsValid : (le : LoopEvents) (wake : Efd) → IsValid le → IsValid (record le { wake = wake })
wake-IsValid le wake v = record {
  some_room = v.some_room;
  head_inside = v.head_inside;
  count_inside = v.count_inside;
  block_size = v.block_size;
}

fresh-Holds :
    (le : LoopEvents)
    → IsFresh le
    → Holds (record { le = le; remaining = 0; stopped = false; accepted = []; delivered = [] })
fresh-Holds le f = record {
  valid = f.valid;
  bounded = f.bounded;
  one_reference = ap (λ e. e.refcount) made;
  nonblock = ap (λ e. e.nonblock) made;
  in_order = sym (contents-empty le f.empty);
  counted = λ h. omega (arith, ap (λ e. e.value) made, f.empty);
  behind = λ h. absurd (ground (arith, h));
}
  where
    made : le.wake ≡ record {
      refcount = 1;
      value = 0;
      nonblock = true;
      closed = false;
      dec_bit = false;
      inc_bit = false;
      dec_waiters = 0;
      inc_waiters = 0;
      select_active = false;
    }
    made = f.wake ∙ create_lem 0 true

-- The value of the wake descriptor never exceeds the number of events queued.
pub value-bounded : (s : System) → Holds s → s.le.wake.value ≤ s.le.queue_count
value-bounded s h = elim (Bool-cases s.stopped) [
  | inl t ↦ omega (arith, (h.behind t).1)
  | inr f ↦ omega (arith, h.counted f)
]

-- The state behind a call that gave this result.
abbrev after_post : System → List ℕ → EspErr × LoopEvents → System
after_post s bytes (rv, le) = record s {
  le = le;
  accepted = if is_ok rv then s.accepted ++ (bytes ∷ []) else s.accepted;
}

posted-Holds :
    (s : System) (bytes : List ℕ)
    → Holds s
    → length bytes ≡ s.le.data_size
    → s.le.queue_count ≢ s.le.queue_size
    → Holds (after_post s bytes (esp_ok, posted s.le bytes))
posted-Holds s bytes h b room = record {
  valid =
      wake-IsValid (pushed_onto s.le bytes) (signalled s.le.wake)
        (pushed-IsValid s.le bytes h.valid b room);
  bounded = h.bounded;
  one_reference = h.one_reference;
  nonblock = h.nonblock;
  in_order =
      ap (λ xs. xs ++ (bytes ∷ [])) h.in_order
      ∙ append_assoc s.delivered (contents s.le) (bytes ∷ [])
      ∙ ap (◌++◌ s.delivered) (sym (contents-pushed s.le bytes h.valid b room));
  counted = λ f. omega (arith, h.counted f);
  behind = λ t. ((h.behind t).0, omega (arith, (h.behind t).1));
}

post-Holds :
    (s : System) (bytes : List ℕ) (rv : EspErr) (le : LoopEvents)
    → Holds s
    → length bytes ≡ s.le.data_size
    → post_event s.le bytes ≡ some (rv, le)
    → Holds (after_post s bytes (rv, le))
post-Holds s bytes rv le h b e = elim (ℕ_discrete s.le.queue_count s.le.queue_size) [
  | yes full ↦
      subst (λ r. Holds (after_post s bytes r)) (some_inj (sym (post_refused s.le bytes full) ∙ e))
        h
  | no room ↦
      subst (λ r. Holds (after_post s bytes r))
        (some_inj (sym (post_accepted s.le bytes h.valid room small) ∙ e))
        (posted-Holds s bytes h b room)
]
  where
    small : s.le.wake.value ≤ int_max
    small = omega (arith, value-bounded s h, h.valid.count_inside, h.bounded)

begin-Holds :
    (s : System) (count : ℕ) (le : LoopEvents)
    → Holds s
    → s.remaining ≡ 0
    → 0 < s.le.wake.value
    → begin_read s.le ≡ some (count, le)
    → Holds (record s { le = le; remaining = count })
begin-Holds s count le h z p e = elim (Bool-cases s.stopped) [
  | inl t ↦
      absurd (ground (arith, begin_uncounted s.le h.one_reference h.nonblock (h.behind t).1, e))
  | inr f ↦
      subst (λ r. Holds (record s { le = r.1; remaining = r.0 }))
        (some_inj (sym (begin_counted s.le h.one_reference p (omega (arith, h.counted f))) ∙ e))
        (record {
          valid = wake-IsValid s.le (drained s.le.wake) h.valid;
          bounded = h.bounded;
          one_reference = h.one_reference;
          nonblock = h.nonblock;
          in_order = h.in_order;
          counted = λ f'. omega arith;
          behind = λ t. absurd (ground (arith, t, f));
        })
]

-- There is an event queued for each round still to come.
pub remaining-queued : (s : System) → Holds s → 0 < s.remaining → 0 < s.le.queue_count
remaining-queued s h p = elim (Bool-cases s.stopped) [
  | inl t ↦ absurd (omega (arith, (h.behind t).0))
  | inr f ↦ omega (arith, h.counted f)
]

deliver-Holds :
    (s : System) (others : ℕ) (le : LoopEvents) (should_stop : Bool)
    → Holds s
    → s.remaining ≡ suc others
    → dispatch_one s.le ≡ some le
    → Holds (record s {
      le = le;
      remaining = if should_stop then 0 else others;
      stopped = s.stopped || (should_stop && ltb 0 others);
      delivered = s.delivered ++ (le.bounce_buffer ∷ []);
    })
deliver-Holds s others le stop h z e = elim (Bool-cases s.stopped) [
  | inl t ↦ absurd (omega (arith, (h.behind t).0))
  | inr f ↦
      subst
        (λ r. Holds (record s {
          le = r;
          remaining = if stop then 0 else others;
          stopped = s.stopped || (stop && ltb 0 others);
          delivered = s.delivered ++ (r.bounce_buffer ∷ []);
        }))
        (some_inj (sym (dispatch_some s.le h.valid queued) ∙ e))
        (record {
          valid = popped-IsValid s.le h.valid queued;
          bounded = h.bounded;
          one_reference = h.one_reference;
          nonblock = h.nonblock;
          in_order =
              h.in_order
              ∙ ap (◌++◌ s.delivered) (contents-popped s.le h.valid queued)
              ∙ sym (append_assoc s.delivered _ _);
          counted = λ g. ground (arith, h.counted f, g, f, z);
          behind = λ g. ground (arith, h.counted f, g, f, z);
        })
]
  where
    queued : 0 < s.le.queue_count
    queued = remaining-queued s h (omega arith)

Step-Holds : {s t : System} → Step s t → Holds s → Holds t
Step-Holds {s} {t} (post bytes rv le b e q) h = subst Holds (sym q) (post-Holds s bytes rv le h b e)
Step-Holds {s} {t} (begin count le z p e q) h = subst Holds (sym q) (begin-Holds s count le h z p e)
Step-Holds {s} {t} (deliver others le stop z e q) h =
    subst Holds (sym q) (deliver-Holds s others le stop h z e)

pub Reach-Holds : {first : LoopEvents} {s : System} → IsFresh first → Reach first s → Holds s
Reach-Holds f here = fresh-Holds _ f
Reach-Holds f (next r st) = Step-Holds st (Reach-Holds f r)
