-- ===== src/Cxx/Loops.antt =====
-- components/xsp_cxx/loop.cc: a `Loop` with its queue of tasks, made and destroyed.
--
-- An assertion that fails is `none`. A `size_t` and an `int` have 32 bits, a pointer four bytes.
use xsp.Prelude.{
  ℕ, ◌+◌, ◌-◌, ◌^◌, ◌≡◌, refl, sym, ap, ◌∙◌, true, List, [], ◌∷◌, ◌++◌, Option, none, some, arith,
  ltb, ◌==◌, if◌then◌else◌, All, ==_iff, if_both, option_both,
}
use mathlib.Core.Path.{subst}
use xsp.Prelude.Int.{ℤ, pos, negsuc}
use xsp.Prelude.Count.{count, count-append}
use xsp.Esp.{EspErr, esp_ok}
use xsp.EventFd.Table.{Ctx, efd_lookup_locked}
use xsp.EventFd.Slots.{IsTable}
use xsp.Loop.{State, Watcher, EventHandler, Loop, remove_fd_watcher, slist_remove}
use xsp.Loop.Watchers.{IsWatcher}
use xsp.LoopEvents.Setup.{Object, Setup, Memory, Leaves, Made, init-Leaves}
use xsp.LoopEvents.Setup as Setup
use xsp.Loop as XspLoop

-- The address and the rest of `handle_`, and what is behind `loop_events_`, where it is not null.
pub record LoopObject (W : Type 0) : Type 0 where
  pub address : ℕ
  pub loop : Loop W
  pub loop_events : Option Object

-- What a call leaves: the object, the table of eventfds, and what was allocated but for an entry of the
-- loop's list, and freed.
pub record Constructed (W : Type 0) : Type 0 where
  pub object : LoopObject W
  pub ctx : Ctx
  pub allocated : List ℕ
  pub freed : List ℕ

-- `static_cast<int>`
unfoldable pub to_int : ℕ → ℤ
to_int n = if ltb n (2 ^ 31) then pos n else negsuc (2 ^ 32 - n - 1)

-- The destructor of a loop that does not run: the table of eventfds behind it, and what is freed.
abbrev pub destroyed : {W : Type 0} → LoopObject W → Ctx × List ℕ → Ctx × List ℕ
destroyed o (ctx, freed) = (ctx, freed ++ (XspLoop.cleanup o.loop.fd_watchers ++ (o.address ∷ [])))

unfoldable pub destroy : {W : Type 0} → LoopObject W → Ctx → Ctx × List ℕ
destroy o ctx = elim o.loop_events [
  | none ↦ destroyed o (ctx, [])
  | some events ↦ destroyed o ((Setup.cleanup ctx events).1, (Setup.cleanup ctx events).2)
]

cleanup_nothing : (W : Type 0) (x : ℕ) → count x (XspLoop.cleanup {W = W} []) ≡ 0
unfolding XspLoop.cleanup
cleanup_nothing W x = refl

alone :
    (W : Type 0) (address x : ℕ)
    → count x (address ∷ []) + 0
      ≡ 0 + count x ([] ++ (XspLoop.cleanup {W = W} [] ++ (address ∷ [])))
unfolding XspLoop.cleanup
alone W address x = omega arith

module _ {W : Type 0} where
  abbrev Frees : ℕ → ℕ → List (Watcher W) → Option (List (Watcher W)) → Type 0
  Frees x address ws none = Unit
  Frees x address ws (some rest) =
      count x (XspLoop.cleanup ws) ≡ count x (address ∷ []) + count x (XspLoop.cleanup rest)

  slist_remove-Frees :
      (x address : ℕ) (ws : List (Watcher W)) → Frees x address ws (slist_remove address ws)
  unfolding XspLoop.cleanup
  slist_remove-Frees x address [] = tt
  slist_remove-Frees x address (w ∷ ws) =
      if_both (Frees x address (w ∷ ws)) (w.address == address) _ _
        (λ e.
          ap (λ a. count x (a ∷ XspLoop.cleanup ws)) ((==_iff w.address address).0 e) ∙ omega arith)
        (λ e.
          option_both (Frees x address (w ∷ ws)) (slist_remove address ws) _ _ (λ e'. tt)
            (λ rest e'.
              omega (arith, subst (Frees x address ws) e' (slist_remove-Frees x address ws))))

  -- An entry that can be removed is freed with the list.
  removed_entry :
      (x address : ℕ) (loop loop' : Loop W)
      → remove_fd_watcher loop address ≡ some (esp_ok, address ∷ [], loop')
      → count x (XspLoop.cleanup loop.fd_watchers)
        ≡ count x (address ∷ []) + count x (XspLoop.cleanup loop'.fd_watchers)
  unfolding remove_fd_watcher
  removed_entry x address loop loop' e = subst Removes e freed
    where
      Removes : Option (EspErr × List ℕ × Loop W) → Type 0
      Removes o = elim o [
        | none ↦ Unit
        | some r ↦ Frees x address loop.fd_watchers (some r.2.fd_watchers)
      ]

      freed : Removes (remove_fd_watcher loop address)
      freed =
          option_both Removes (slist_remove address loop.fd_watchers) _ _ (λ e'. tt)
            (λ rest e'.
              subst (Frees x address loop.fd_watchers) e'
                (slist_remove-Frees x address loop.fd_watchers))

module _ {W : Type 0} (fd_setsize : ℕ) (on_loop_can_read_fd : State W → State W) where
  -- Behind `xsp_loop_events_init`, which must not have returned null.
  abbrev pub with_events : ℕ → Setup W → Option Object → Option (Constructed W)
  with_events address setup none = none
  with_events address setup (some events) = some (record {
    object = record { address = address; loop = setup.loop; loop_events = some events };
    ctx = setup.ctx;
    allocated = address ∷ setup.allocated;
    freed = setup.freed;
  })

  -- The queue of tasks, if there is to be one.
  abbrev pub events_made : Memory → ℕ → Ctx → Loop W → Setup W
  events_made memory task_queue_size ctx loop =
      Setup.init fd_setsize on_loop_can_read_fd memory (some (pos 4, to_int task_queue_size)) true
        true ctx loop

  abbrev pub with_loop : Memory → ℕ → Ctx → ℕ → Option (Loop W) → Option (Constructed W)
  with_loop memory task_queue_size ctx address none = none
  with_loop memory task_queue_size ctx address (some loop) =
      if ltb 0 task_queue_size
      then with_events address (events_made memory task_queue_size ctx loop)
          (events_made memory task_queue_size ctx loop).object
      else some (record {
        object = record { address = address; loop = loop; loop_events = none };
        ctx = ctx;
        allocated = address ∷ [];
        freed = [];
      })

  -- The constructor, with the address that calloc returns in `xsp_loop_init`, or null.
  unfoldable pub construct :
      ℕ → EventHandler W → Memory → ℕ → Ctx → Option ℕ → Option (Constructed W)
  construct default_ms evt_handler memory task_queue_size ctx none = none
  construct default_ms evt_handler memory task_queue_size ctx (some address) =
      with_loop memory task_queue_size ctx address
        (XspLoop.init default_ms none (some evt_handler) true)

  -- What `Destroys` asks of a constructed object: destroyed at once, the table is as it was, and all
  -- is freed.
  abbrev pub entry_of : Option Object → List ℕ
  entry_of none = []
  entry_of (some events) = events.fd_watcher ∷ []

  abbrev pub Destroys : Ctx → Option (Constructed W) → Type 0
  Destroys ctx none = Unit
  Destroys ctx (some c) =
      ((destroy c.object c.ctx).0 ≡ ctx)
      × ((x : ℕ)
          → count x c.allocated + count x (entry_of c.object.loop_events)
            ≡ count x c.freed + count x (destroy c.object c.ctx).1)

  with_events-Destroys :
      (ctx : Ctx) (loop : Loop W) (address : ℕ) (setup : Setup W) (o : Option Object)
      → loop.fd_watchers ≡ []
      → Made fd_setsize on_loop_can_read_fd ctx loop setup o
      → Destroys ctx (with_events address setup o)
  unfolding destroy
  with_events-Destroys ctx loop address setup none empty made = tt
  with_events-Destroys ctx loop address setup (some events) empty
        (found, back, counts, valid, removed) =
      (
        back,
        λ x. omega (
          arith,
          counts x,
          removed_entry x events.fd_watcher setup.loop loop removed,
          ap (λ ws. count x (XspLoop.cleanup ws)) empty,
          cleanup_nothing W x,
          count-append x (Setup.cleanup setup.ctx events).2
              (XspLoop.cleanup setup.loop.fd_watchers ++ (address ∷ [])),
          count-append x (XspLoop.cleanup setup.loop.fd_watchers) (address ∷ []),
        ),
      )

  with_loop-Destroys :
      (memory : Memory) (task_queue_size : ℕ) (ctx : Ctx) (address : ℕ) (loop : Loop W)
      → loop.fd_watchers ≡ []
      → IsTable ctx
      → efd_lookup_locked ctx (pos memory.registered.1) ≡ none
      → Destroys ctx (with_loop memory task_queue_size ctx address (some loop))
  unfolding destroy
  with_loop-Destroys memory task_queue_size ctx address loop empty table new =
      if_both (Destroys ctx) (ltb 0 task_queue_size) _ _
        (λ e.
          with_events-Destroys ctx loop address (events_made memory task_queue_size ctx loop)
            (events_made memory task_queue_size ctx loop).object empty
            (init-Leaves fd_setsize on_loop_can_read_fd memory _ true true ctx loop table new
              (subst (All (IsWatcher fd_setsize)) (sym empty) tt)))
        (λ e. (
          refl,
          λ x.
              alone W address x
              ∙ ap (λ ws. 0 + count x ([] ++ (XspLoop.cleanup ws ++ (address ∷ [])))) (sym empty),
        ))

  -- In a table in which the VFS's new descriptor does not stand, a `Loop` of the C++ wrapper that was
  -- constructed, with or without a queue of tasks, and is destroyed at once gives back the table and
  -- frees each block that was allocated for it once, the entry of its list included.
  pub construct-Destroys :
      (default_ms : ℕ) (evt_handler : EventHandler W) (memory : Memory) (task_queue_size : ℕ)
      (ctx : Ctx) (allocated : Option ℕ)
      → IsTable ctx
      → efd_lookup_locked ctx (pos memory.registered.1) ≡ none
      → Destroys ctx (construct default_ms evt_handler memory task_queue_size ctx allocated)
  unfolding construct XspLoop.init
  construct-Destroys default_ms evt_handler memory task_queue_size ctx none table new = tt
  construct-Destroys default_ms evt_handler memory task_queue_size ctx (some address) table new =
      with_loop-Destroys memory task_queue_size ctx address
        (record { poll_timeout_ms = default_ms; evt_handler = evt_handler; fd_watchers = [] }) refl
        table new
