-- ===== src/Cxx/Pending.antt =====
-- The tasks of components/xsp_cxx/loop.cc in memory, and the events that point to them.
use xsp.Prelude.{
  ℕ, ◌<◌, ◌≡◌, refl, sym, ap, ◌∙◌, Bool, true, false, List, [], ◌∷◌, ◌++◌, append_assoc, Option,
  none, some, arith, ◌==◌, ==_iff, if◌then◌else◌, length, drop, drop-length-append, flip_key,
  Bool-cases, inl, inr,
}
use mathlib.Core.Path.{subst, ap₂}
use xsp.Esp.{EspErr, is_ok}
use xsp.Cxx.Tasks.{
  Tasks, bytes_of, pointer_of, find_task, delete_task, run_task, after_post, on_loop_events_event,
}

pub pointer_of-bytes_of :
    (address : ℕ) → address < 4294967296 → pointer_of (bytes_of address) ≡ address
unfolding pointer_of bytes_of
pointer_of-bytes_of address h = omega (arith, h)

pub append_cancel : (xs ys zs : List (List ℕ)) → xs ++ ys ≡ xs ++ zs → ys ≡ zs
append_cancel xs ys zs h =
    sym (drop-length-append xs ys) ∙ ap (drop (length xs)) h ∙ drop-length-append xs zs

first_of :
    {x y : List ℕ} {xs ys : List (List ℕ)} → ◌≡◌ {A = List (List ℕ)} (x ∷ xs) (y ∷ ys) → x ≡ y
first_of {x} e = ap (λ (l : List (List ℕ)). elim l [ [] ↦ x | z ∷ zs ↦ z ]) e

module _ {A : Type 0} where
  abbrev pub events_of : Tasks A → List (List ℕ)
  events_of [] = []
  events_of ((address, task) ∷ tasks) = bytes_of address ∷ events_of tasks

  abbrev pub tasks_of : Tasks A → List A
  tasks_of [] = []
  tasks_of ((address, task) ∷ tasks) = task ∷ tasks_of tasks

  events_of-append : (xs ys : Tasks A) → events_of (xs ++ ys) ≡ events_of xs ++ events_of ys
  events_of-append [] ys = refl
  events_of-append ((address, task) ∷ xs) ys = ap (◌∷◌ (bytes_of address)) (events_of-append xs ys)

  tasks_of-append : (xs ys : Tasks A) → tasks_of (xs ++ ys) ≡ tasks_of xs ++ tasks_of ys
  tasks_of-append [] ys = refl
  tasks_of-append ((address, task) ∷ xs) ys = ap (◌∷◌ task) (tasks_of-append xs ys)

module _ {A : Type 0} where
  -- Each address is of four bytes, and of one task.
  abbrev pub Apart : Tasks A → Type 0
  Apart [] = Unit
  Apart ((address, task) ∷ tasks) =
      (address < 4294967296) × (find_task tasks address ≡ none) × Apart tasks

  -- A lookup that fails at a list fails at its first and behind it.
  missed :
      (b : Bool) (task : A) (o : Option A)
      → (if b then some task else o) ≡ none
      → (b ≡ false) × (o ≡ none)
  missed true task o h = absurd (ground (arith, h))
  missed false task o h = (refl, h)

  find_task-snoc :
      (tasks : Tasks A) (k address : ℕ) (task : A)
      → find_task tasks k ≡ none
      → (address == k) ≡ false
      → find_task (tasks ++ ((address, task) ∷ [])) k ≡ none
  unfolding find_task
  find_task-snoc [] k address task h n = rw n refl
  find_task-snoc ((j, t) ∷ tasks) k address task h n =
      let (ne, rest) = missed (j == k) t (find_task tasks k) h in
      rw ne (find_task-snoc tasks k address task rest n)

  Apart-snoc :
      (tasks : Tasks A) (address : ℕ) (task : A)
      → address < 4294967296
      → find_task tasks address ≡ none
      → Apart tasks
      → Apart (tasks ++ ((address, task) ∷ []))
  unfolding find_task
  Apart-snoc [] address task h n a = (h, refl, tt)
  Apart-snoc ((k, t) ∷ tasks) address task h n (kh, kn, a) =
      let (ne, rest) = missed (k == address) t (find_task tasks address) n in
      (
        kh,
        find_task-snoc tasks k address task kn (flip_key k address ne),
        Apart-snoc tasks address task h rest a,
      )

  -- The first task is found at the address of its event, and deleted.
  found_first :
      (address : ℕ) (task : A) (tasks : Tasks A)
      → run_task ((address, task) ∷ tasks) address ≡ some (task, tasks)
  unfolding run_task find_task delete_task
  found_first address task tasks =
      ap
        (λ b. elim (if b then some task else find_task tasks address) [
          | none ↦ none
          | some x ↦ some (x, if b then tasks else (address, task) ∷ delete_task tasks address)
        ])
        ((==_iff address address).1 refl)

  event_first :
      (address : ℕ) (task : A) (tasks : Tasks A)
      → address < 4294967296
      → on_loop_events_event ((address, task) ∷ tasks) (bytes_of address) ≡ some (task, tasks)
  unfolding on_loop_events_event
  event_first address task tasks h =
      ap (run_task ((address, task) ∷ tasks)) (pointer_of-bytes_of address h)
      ∙ found_first address task tasks

  -- The tasks behind a round whose event is the first in the queue.
  pub taken :
      (tasks tasks' : Tasks A) (bytes : List ℕ) (task : A) (rest : List (List ℕ))
      → Apart tasks
      → events_of tasks ≡ bytes ∷ rest
      → on_loop_events_event tasks bytes ≡ some (task, tasks')
      → (tasks_of tasks ≡ task ∷ tasks_of tasks') × (events_of tasks' ≡ rest) × Apart tasks'
  taken [] tasks' bytes task rest a e found = absurd (ground (arith, e))
  taken ((address, t) ∷ tasks) tasks' bytes task rest (h, n, a) e found =
      let same =
        sym (event_first address t tasks h)
        ∙ ap (on_loop_events_event ((address, t) ∷ tasks)) (first_of e)
        ∙ found in
      let left = ap (λ (o : Option (A × Tasks A)). elim o [ none ↦ tasks | some r ↦ r.1 ]) same in
      (
        ap₂ (λ x xs. x ∷ tasks_of xs)
            (ap (λ (o : Option (A × Tasks A)). elim o [ none ↦ t | some r ↦ r.0 ]) same) left,
        ap events_of (sym left) ∙ ap (drop 1) e,
        subst Apart left a,
      )

  pub after_post-Apart :
      (err : EspErr) (tasks : Tasks A) (address : ℕ) (task : A) (queue queue' : List (List ℕ))
      (accepted ran : List A)
      → address < 4294967296
      → find_task tasks address ≡ none
      → queue ≡ events_of tasks
      → accepted ≡ ran ++ tasks_of tasks
      → Apart tasks
      → queue' ≡ (if is_ok err then queue ++ (bytes_of address ∷ []) else queue)
      → (queue' ≡ events_of (after_post tasks address task err))
        × ((if is_ok err then accepted ++ (task ∷ []) else accepted)
            ≡ ran ++ tasks_of (after_post tasks address task err))
        × Apart (after_post tasks address task err)
  after_post-Apart err tasks address task queue queue' accepted ran h n q o a q' =
      elim (Bool-cases (is_ok err)) [
        | inl ok ↦ rw ok (
          q'
              ∙ ap (λ b. if b then queue ++ (bytes_of address ∷ []) else queue) ok
              ∙ ap (λ l. l ++ (bytes_of address ∷ [])) q
              ∙ sym (events_of-append tasks ((address, task) ∷ [])),
          ap (λ l. l ++ (task ∷ [])) o
              ∙ append_assoc ran (tasks_of tasks) (task ∷ [])
              ∙ ap (λ l. ran ++ l) (sym (tasks_of-append tasks ((address, task) ∷ []))),
          Apart-snoc tasks address task h n a,
        )
        | inr bad ↦
            rw bad
              (q' ∙ ap (λ b. if b then queue ++ (bytes_of address ∷ []) else queue) bad ∙ q, o, a)
      ]

  -- A queue that is not empty begins with a task in memory.
  pub first_task :
      (tasks : Tasks A) (bytes : List ℕ) (rest : List (List ℕ))
      → Apart tasks
      → events_of tasks ≡ bytes ∷ rest
      → (address : ℕ) × (task : A) × (tasks' : Tasks A) × (tasks ≡ (address, task) ∷ tasks')
        × (on_loop_events_event tasks bytes ≡ some (task, tasks'))
  first_task [] bytes rest a e = absurd (ground (arith, e))
  first_task ((address, task) ∷ tasks) bytes rest (h, n, a) e = (
    address,
    task,
    tasks,
    refl,
    ap (on_loop_events_event ((address, task) ∷ tasks)) (sym (first_of e))
        ∙ event_first address task tasks h,
  )
