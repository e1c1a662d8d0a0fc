-- ===== src/LoopEvents/Setup.antt =====
-- components/xsp_loop_events/xsp_loop_events.c: the memory, the descriptor and the watcher of a queue of
-- events, when it is made and cleaned up.
--
-- The eventfd is in the table of xsp_eventfd.c, the watcher in a loop of xsp_loop.c. What the
-- allocations return, and the function that the loop calls, are arguments.
use xsp.Prelude.{
  ℕ, ◌+◌, ◌*◌, ◌≡◌, refl, sym, ap, ◌∙◌, Bool, true, not, ◌||◌, List, [], ◌∷◌, ◌++◌, Option, none,
  some, arith, ltb, ==_iff, if◌then◌else◌, if_both, option_both, All,
}
use mathlib.Core.Path.{subst}
use xsp.Prelude.Int.{ℤ, pos}
use xsp.Esp.{EspErr, esp_ok}
use xsp.Prelude.Count.{count, count-append}
use xsp.EventFd.{Efd, create}
use xsp.EventFd.Table.{
  Ctx, Answer, fails, returns, xsp_eventfd, efd_close, efd_ioctl, ioctl_get_handle,
  efd_lookup_locked,
}
use xsp.EventFd.Slots.{IsTable, Opens, xsp_eventfd-Opens}
use xsp.Loop.{State, Loop, add_fd_watcher, remove_fd_watcher}
use xsp.Loop.Watchers.{IsWatcher, add_fd_watcher-remove_fd_watcher}
use xsp.LoopEvents.{validate_config, with_default, to_size}

-- `xsp_loop_events_t`: its address, those of the two buffers where they are not null, and the
-- descriptor.
pub record Object : Type 0 where
  pub address : ℕ
  pub queue : List ℕ
  pub bounce_buffer : List ℕ
  pub wake_fd : ℕ
  pub fd_watcher : ℕ

-- What is returned, the table of eventfds and the loop behind the call, and what the call allocated, but
-- for the loop's entry, and freed.
pub record Setup (W : Type 0) : Type 0 where
  pub object : Option Object
  pub ctx : Ctx
  pub loop : Loop W
  pub allocated : List ℕ
  pub freed : List ℕ

-- What calloc and malloc return, whether the eventfd gets memory, and what the VFS registers it as.
pub record Memory : Type 0 where
  pub for_object : Option ℕ
  pub for_queue : Option ℕ
  pub for_bounce_buffer : Option ℕ
  pub for_eventfd : Bool
  pub registered : EspErr × ℕ
  pub for_watcher : Option ℕ

-- The address of a block, which is not allocated for no bytes; `none` where malloc returned null.
abbrev pub block_for : ℕ → Option ℕ → Option (List ℕ)
block_for size allocated =
    if ltb 0 size then elim allocated [ none ↦ none | some a ↦ some (a ∷ []) ] else some []

-- `xsp_loop_events_cleanup` of an object: the table of eventfds behind it, and what it frees. It does
-- not touch the loop.
unfoldable pub cleanup : Ctx → Object → EspErr × Ctx × List ℕ
cleanup ctx o =
    (esp_ok, (efd_close ctx (pos o.wake_fd)).0, o.bounce_buffer ++ (o.queue ++ (o.address ∷ [])))

module _ {W : Type 0} (fd_setsize : ℕ) (on_loop_can_read_fd : State W → State W) where
  -- The label `fail`, with the descriptor if there is one.
  abbrev pub fail : Ctx → Loop W → Option ℕ → List ℕ → List ℕ → ℕ → Setup W
  fail ctx loop none bounce_buffer queue address = record {
    object = none;
    ctx = ctx;
    loop = loop;
    allocated = address ∷ (queue ++ bounce_buffer);
    freed = bounce_buffer ++ (queue ++ (address ∷ []));
  }
  fail ctx loop (some fd) bounce_buffer queue address = record {
    object = none;
    ctx = (efd_close ctx (pos fd)).0;
    loop = loop;
    allocated = address ∷ (queue ++ bounce_buffer);
    freed = bounce_buffer ++ (queue ++ (address ∷ []));
  }

  -- Behind the entry of the loop.
  abbrev pub on_watcher : Ctx → Loop W → ℕ → List ℕ → List ℕ → ℕ → Option (ℕ × Loop W) → Setup W
  on_watcher ctx loop fd bounce_buffer queue address none =
      fail ctx loop (some fd) bounce_buffer queue address
  on_watcher ctx loop fd bounce_buffer queue address (some (watcher, loop')) = record {
    object = some (record {
      address = address;
      queue = queue;
      bounce_buffer = bounce_buffer;
      wake_fd = fd;
      fd_watcher = watcher;
    });
    ctx = ctx;
    loop = loop';
    allocated = address ∷ (queue ++ bounce_buffer);
    freed = [];
  }

  -- Behind `ioctl`.
  abbrev pub on_ioctl : Memory → Ctx → Loop W → ℕ → List ℕ → List ℕ → ℕ → Answer Efd → Setup W
  on_ioctl memory ctx loop fd bounce_buffer queue address (fails errno) =
      fail ctx loop (some fd) bounce_buffer queue address
  on_ioctl memory ctx loop fd bounce_buffer queue address (returns wake_handle) =
      on_watcher ctx loop fd bounce_buffer queue address (
        add_fd_watcher fd_setsize loop none none (some on_loop_can_read_fd) (pos fd)
          memory.for_watcher)

  -- Behind `xsp_eventfd`.
  abbrev pub on_eventfd : Memory → Loop W → List ℕ → List ℕ → ℕ → Ctx × Answer ℕ → Setup W
  on_eventfd memory loop bounce_buffer queue address (ctx, fails errno) =
      fail ctx loop none bounce_buffer queue address
  on_eventfd memory loop bounce_buffer queue address (ctx, returns fd) =
      on_ioctl memory ctx loop fd bounce_buffer queue address
        (efd_ioctl ctx (pos fd) (ioctl_get_handle true))

  -- A call that did nothing.
  abbrev pub untouched : Ctx → Loop W → Setup W
  untouched ctx loop = record { object = none; ctx = ctx; loop = loop; allocated = []; freed = [] }

  -- Behind the checks.
  unfoldable pub set_up : Memory → ℕ → ℕ → Ctx → Loop W → Setup W
  set_up memory data_size queue_size ctx loop = elim memory.for_object [
    | none ↦ untouched ctx loop
    | some address ↦ elim (block_for (data_size * queue_size) memory.for_queue) [
      | none ↦ fail ctx loop none [] [] address
      | some queue ↦ elim (block_for data_size memory.for_bounce_buffer) [
        | none ↦ fail ctx loop none [] queue address
        | some bounce_buffer ↦
            on_eventfd memory loop bounce_buffer queue address
              (xsp_eventfd ctx 0 true memory.for_eventfd memory.registered)
      ]
    ]
  ]

  -- `xsp_loop_events_init`; the flags say that the handler and the loop are not null.
  unfoldable pub init : Memory → Option (ℤ × ℤ) → Bool → Bool → Ctx → Loop W → Setup W
  init memory config has_handler has_loop ctx loop =
      if not (validate_config (some (with_default config)))
      then untouched ctx loop
      else if not has_handler || not has_loop
      then untouched ctx loop
      else set_up memory (to_size (with_default config).0) (to_size (with_default config).1) ctx
          loop

  -- What a call leaves: nothing; or an object whose descriptor is a new eventfd, whose cleanup gives
  -- back the table and the memory, and whose watcher is in the loop, until it is removed.
  abbrev pub Made : Ctx → Loop W → Setup W → Option Object → Type 0
  Made ctx loop setup none =
      (setup.ctx ≡ ctx)
      × (setup.loop ≡ loop)
      × ((x : ℕ) → count x setup.allocated ≡ count x setup.freed)
  Made ctx loop setup (some o) =
      (efd_lookup_locked setup.ctx (pos o.wake_fd) ≡ some (create 0 true))
      × ((cleanup setup.ctx o).1 ≡ ctx)
      × ((x : ℕ) → count x setup.allocated ≡ count x (cleanup setup.ctx o).2 + count x setup.freed)
      × All (IsWatcher fd_setsize) setup.loop.fd_watchers
      × (remove_fd_watcher setup.loop o.fd_watcher ≡ some (esp_ok, o.fd_watcher ∷ [], loop))

  abbrev pub Leaves : Ctx → Loop W → Setup W → Type 0
  Leaves ctx loop setup = Made ctx loop setup setup.object

  count_all :
      (x address : ℕ) (queue bounce_buffer : List ℕ)
      → count x (address ∷ (queue ++ bounce_buffer))
        ≡ count x (bounce_buffer ++ (queue ++ (address ∷ [])))
  count_all x address queue bounce_buffer = omega (
    arith,
    count-append x queue bounce_buffer,
    count-append x bounce_buffer (queue ++ (address ∷ [])),
    count-append x queue (address ∷ []),
  )

  on_watcher-Leaves :
      (ctx ctx' : Ctx) (loop : Loop W) (fd : ℕ) (bounce_buffer queue : List ℕ) (address : ℕ)
      (allocated : Option ℕ) (o : Option (ℕ × Loop W))
      → efd_lookup_locked ctx' (pos fd) ≡ some (create 0 true)
      → (efd_close ctx' (pos fd)).0 ≡ ctx
      → All (IsWatcher fd_setsize) loop.fd_watchers
      → add_fd_watcher fd_setsize loop none none (some on_loop_can_read_fd) (pos fd) allocated ≡ o
      → Leaves ctx loop (on_watcher ctx' loop fd bounce_buffer queue address o)
  unfolding cleanup
  on_watcher-Leaves ctx ctx' loop fd bounce_buffer queue address allocated none found back valid e =
      (back, refl, λ x. count_all x address queue bounce_buffer)
  on_watcher-Leaves ctx ctx' loop fd bounce_buffer queue address allocated (some (watcher, loop'))
        found back valid e =
      let (kept, removed) =
        add_fd_watcher-remove_fd_watcher fd_setsize watcher loop loop' none none
          (some on_loop_can_read_fd) (pos fd) allocated valid e in
      (found, back, λ x. omega (arith, count_all x address queue bounce_buffer), kept, removed)

  looked_up :
      (ctx : Ctx) (fd : ℕ) (e : Efd)
      → efd_lookup_locked ctx (pos fd) ≡ some e
      → efd_ioctl ctx (pos fd) (ioctl_get_handle true) ≡ returns e
  unfolding efd_ioctl
  looked_up ctx fd e found = rw (found, efd_ioctl) refl

  on_eventfd-Leaves :
      (memory : Memory) (ctx : Ctx) (loop : Loop W) (bounce_buffer queue : List ℕ) (address : ℕ)
      (r : Ctx × Answer ℕ)
      → All (IsWatcher fd_setsize) loop.fd_watchers
      → Opens ctx memory.registered.1 (create 0 true) memory.for_eventfd memory.registered.0 r
      → Leaves ctx loop (on_eventfd memory loop bounce_buffer queue address r)
  on_eventfd-Leaves memory ctx loop bounce_buffer queue address (ctx', fails errno) valid h =
      (h.0, refl, λ x. count_all x address queue bounce_buffer)
  on_eventfd-Leaves memory ctx loop bounce_buffer queue address (ctx', returns fd) valid
        (same, table, found, back) =
      subst (λ o. Leaves ctx loop (on_ioctl memory ctx' loop fd bounce_buffer queue address o))
        (sym (looked_up ctx' fd _ here))
        (on_watcher-Leaves ctx ctx' loop fd bounce_buffer queue address memory.for_watcher _ here
          (ap (λ k. (efd_close ctx' (pos k)).0) same
            ∙ ap (λ (r : Ctx × Answer (Option Efd)). r.0) back)
          valid refl)
    where
      here : efd_lookup_locked ctx' (pos fd) ≡ some (create 0 true)
      here =
          found fd
          ∙ ap (λ b. if b then some (create 0 true) else efd_lookup_locked ctx (pos fd))
              ((==_iff memory.registered.1 fd).1 (sym same))

  set_up-Leaves :
      (memory : Memory) (data_size queue_size : ℕ) (ctx : Ctx) (loop : Loop W)
      → IsTable ctx
      → efd_lookup_locked ctx (pos memory.registered.1) ≡ none
      → All (IsWatcher fd_setsize) loop.fd_watchers
      → Leaves ctx loop (set_up memory data_size queue_size ctx loop)
  unfolding set_up
  set_up-Leaves memory data_size queue_size ctx loop table new valid =
      option_both (Leaves ctx loop) memory.for_object _ _ (λ e. (refl, refl, λ x. refl))
        (λ address e.
          option_both (Leaves ctx loop) (block_for (data_size * queue_size) memory.for_queue) _ _
            (λ e'. (refl, refl, λ x. count_all x address [] []))
            (λ queue e'.
              option_both (Leaves ctx loop) (block_for data_size memory.for_bounce_buffer) _ _
                (λ e''. (refl, refl, λ x. count_all x address queue []))
                (λ bounce_buffer e''.
                  on_eventfd-Leaves memory ctx loop bounce_buffer queue address _ valid (
                    xsp_eventfd-Opens ctx 0 memory.registered.1 true memory.for_eventfd
                      memory.registered.0 table new))))

  pub init-Leaves :
      (memory : Memory) (config : Option (ℤ × ℤ)) (has_handler has_loop : Bool) (ctx : Ctx)
      (loop : Loop W)
      → IsTable ctx
      → efd_lookup_locked ctx (pos memory.registered.1) ≡ none
      → All (IsWatcher fd_setsize) loop.fd_watchers
      → Leaves ctx loop (init memory config has_handler has_loop ctx loop)
  unfolding init
  init-Leaves memory config has_handler has_loop ctx loop table new valid =
      if_both (Leaves ctx loop) (not (validate_config (some (with_default config)))) _ _
        (λ e. (refl, refl, λ x. refl))
        (λ e.
          if_both (Leaves ctx loop) (not has_handler || not has_loop) _ _
            (λ e'. (refl, refl, λ x. refl))
            (λ e'. set_up-Leaves memory _ _ ctx loop table new valid))
