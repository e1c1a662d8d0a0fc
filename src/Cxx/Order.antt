-- ===== src/Cxx/Order.antt =====
-- The tasks of components/xsp_cxx/loop.cc in every order of posts and rounds of the loop.
use xsp.Prelude.{
  ℕ, suc, ◌<◌, ◌≡◌, refl, sym, ap, ◌∙◌, Bool, false, ◌&&◌, ◌||◌, List, [], ◌∷◌, ◌++◌, append_assoc,
  append-nil, none, some, ltb, if◌then◌else◌, length, Bool-cases, inl, inr,
}
use xsp.Esp.{EspErr, is_ok}
use xsp.LoopEvents.{LoopEvents, post_event, begin_read, dispatch_one}
use xsp.LoopEvents.Queue.{contents}
use xsp.LoopEvents.Dispatch.{System, Reach, here, next, post, begin, deliver, IsFresh}
use xsp.LoopEvents.Safety.{delivered_in_order, dispatch_one_lem}
use xsp.Cxx.Tasks.{Tasks, bytes_of, find_task, after_post, on_loop_events_event}
use xsp.Cxx.Pending.{events_of, tasks_of, append_cancel, Apart, taken, after_post-Apart, first_task}

-- The queue with its rounds, the tasks in memory, those that were accepted and those that were run.
pub record Posts (A : Type 0) : Type 0 where
  pub system : System
  pub tasks : Tasks A
  pub accepted : List A
  pub ran : List A

-- The states that a loop reaches: `new` returns an address of four bytes where no task is.
pub data Runs {A : Type 0} (first : LoopEvents) : Posts A → Type 0 where
  start : Runs first (record {
    system = record { le = first; remaining = 0; stopped = false; accepted = []; delivered = [] };
    tasks = [];
    accepted = [];
    ran = [];
  })
  posts :
      (s : Posts A) (address : ℕ) (task : A) (err : EspErr) (le : LoopEvents)
      → Runs first s
      → find_task s.tasks address ≡ none
      → address < 4294967296
      → length (bytes_of address) ≡ s.system.le.data_size
      → post_event s.system.le (bytes_of address) ≡ some (err, le)
      → Runs first (record {
        system = record s.system {
          le = le;
          accepted =
              if is_ok err then s.system.accepted ++ (bytes_of address ∷ []) else s.system.accepted;
        };
        tasks = after_post s.tasks address task err;
        accepted = if is_ok err then s.accepted ++ (task ∷ []) else s.accepted;
        ran = s.ran;
      })
  begins :
      (s : Posts A) (count : ℕ) (le : LoopEvents)
      → Runs first s
      → s.system.remaining ≡ 0
      → 0 < s.system.le.wake.value
      → begin_read s.system.le ≡ some (count, le)
      → Runs first (record s { system = record s.system { le = le; remaining = count } })
  runs :
      (s : Posts A) (others : ℕ) (le : LoopEvents) (should_stop : Bool) (task : A) (tasks : Tasks A)
      → Runs first s
      → s.system.remaining ≡ suc others
      → dispatch_one s.system.le ≡ some le
      → on_loop_events_event s.tasks le.bounce_buffer ≡ some (task, tasks)
      → Runs first (record {
        system = record s.system {
          le = le;
          remaining = if should_stop then 0 else others;
          stopped = s.system.stopped || (should_stop && ltb 0 others);
          delivered = s.system.delivered ++ (le.bounce_buffer ∷ []);
        };
        tasks = tasks;
        accepted = s.accepted;
        ran = s.ran ++ (task ∷ []);
      })

record Keeps {A : Type 0} (first : LoopEvents) (s : Posts A) : Type 0 where
  reached : Reach first s.system
  queued : contents s.system.le ≡ events_of s.tasks
  in_order : s.accepted ≡ s.ran ++ tasks_of s.tasks
  apart : Apart s.tasks

module _ {first : LoopEvents} (fresh : IsFresh first) where
  -- What is queued, by what was accepted and delivered.
  queue_step :
      {s t : System} (bytes : List (List ℕ))
      → Reach first s
      → Reach first t
      → t.delivered ≡ s.delivered ++ bytes
      → t.accepted ≡ s.accepted
      → contents s.le ≡ bytes ++ contents t.le
  queue_step {s} {t} bytes r r' d e =
      append_cancel s.delivered (contents s.le) (bytes ++ contents t.le) (
        sym (delivered_in_order fresh r)
        ∙ (sym e ∙ delivered_in_order fresh r')
        ∙ ap (λ l. l ++ contents t.le) d
        ∙ append_assoc s.delivered bytes (contents t.le))

  queue_post :
      {s t : System} (err : EspErr) (bytes : List ℕ)
      → Reach first s
      → Reach first t
      → t.delivered ≡ s.delivered
      → t.accepted ≡ (if is_ok err then s.accepted ++ (bytes ∷ []) else s.accepted)
      → contents t.le ≡ (if is_ok err then contents s.le ++ (bytes ∷ []) else contents s.le)
  queue_post {s} {t} err bytes r r' d e = elim (Bool-cases (is_ok err)) [
    | inl ok ↦ rw ok (
        append_cancel s.delivered (contents t.le) (contents s.le ++ (bytes ∷ [])) (
          ap (λ l. l ++ contents t.le) (sym d)
          ∙ sym (delivered_in_order fresh r')
          ∙ (e ∙ ap (λ b. if b then s.accepted ++ (bytes ∷ []) else s.accepted) ok)
          ∙ ap (λ l. l ++ (bytes ∷ [])) (delivered_in_order fresh r)
          ∙ append_assoc s.delivered (contents s.le) (bytes ∷ [])))
    | inr bad ↦ rw bad (
        append_cancel s.delivered (contents t.le) (contents s.le) (
          ap (λ l. l ++ contents t.le) (sym d)
          ∙ sym (delivered_in_order fresh r')
          ∙ (e ∙ ap (λ b. if b then s.accepted ++ (bytes ∷ []) else s.accepted) bad)
          ∙ delivered_in_order fresh r))
  ]

module _ {A : Type 0} {first : LoopEvents} (fresh : IsFresh first) where
  Runs-Keeps : (s : Posts A) → Runs first s → Keeps first s
  Runs-Keeps s start = record {
    reached = here;
    queued = sym (delivered_in_order fresh here);
    in_order = refl;
    apart = tt;
  }
  Runs-Keeps s (posts s0 address task err le r new h size e) =
      let k = Runs-Keeps s0 r in
      let reached = next k.reached (post (bytes_of address) err le size e refl) in
      let (queued, in_order, apart) =
        after_post-Apart err s0.tasks address task (contents s0.system.le) (contents le) s0.accepted
          s0.ran h new k.queued k.in_order k.apart
          (queue_post fresh err (bytes_of address) k.reached reached refl refl) in
      record { reached = reached; queued = queued; in_order = in_order; apart = apart }
  Runs-Keeps s (begins s0 count le r idle readable e) =
      let k = Runs-Keeps s0 r in
      let reached = next k.reached (begin count le idle readable e refl) in
      record {
        reached = reached;
        queued =
            sym (queue_step fresh [] k.reached reached (sym (append-nil s0.system.delivered)) refl)
            ∙ k.queued;
        in_order = k.in_order;
        apart = k.apart;
      }
  Runs-Keeps s (runs s0 others le should_stop task tasks r more e found) =
      let k = Runs-Keeps s0 r in
      let reached = next k.reached (deliver others le should_stop more e refl) in
      let (ran, queued, apart) =
        taken s0.tasks tasks le.bounce_buffer task (contents le) k.apart
          (sym k.queued ∙ queue_step fresh (le.bounce_buffer ∷ []) k.reached reached refl refl)
          found in
      record {
        reached = reached;
        queued = sym queued;
        in_order =
            k.in_order
            ∙ ap (λ l. s0.ran ++ l) ran
            ∙ sym (append_assoc s0.ran (task ∷ []) (tasks_of tasks));
        apart = apart;
      }

  -- However tasks are posted and run, the tasks accepted are those that were run, once each and in
  -- the order in which they were accepted, followed by those in memory, and each of the latter is in
  -- the queue: no task is lost, run twice or freed before it is run.
  pub tasks_in_order :
      (s : Posts A)
      → Runs first s
      → (s.accepted ≡ s.ran ++ tasks_of s.tasks) × (contents s.system.le ≡ events_of s.tasks)
  tasks_in_order s r = let k = Runs-Keeps s r in (k.in_order, k.queued)

  -- In each round of the loop that is still to come, the pointer that the event holds is to a task in
  -- memory, the oldest, which is run and freed.
  pub task_is_found :
      (s : Posts A)
      → Runs first s
      → 0 < s.system.remaining
      → (le : LoopEvents) × (address : ℕ) × (task : A) × (tasks : Tasks A) × (dispatch_one
            s.system.le
          ≡ some le)
        × (s.tasks ≡ (address, task) ∷ tasks)
        × (on_loop_events_event s.tasks le.bounce_buffer ≡ some (task, tasks))
  task_is_found s r more =
      let k = Runs-Keeps s r in
      let (le, dispatched, oldest) = dispatch_one_lem fresh k.reached more in
      let (address, task, tasks, first_one, found) =
        first_task s.tasks le.bounce_buffer (contents le) k.apart (sym k.queued ∙ oldest) in
      (le, address, task, tasks, dispatched, first_one, found)
