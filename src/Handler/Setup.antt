-- ===== src/Handler/Setup.antt =====
-- components/xsp_ws_client/xsp_ws_client_handler.c: a handler is made and cleaned up, in a loop of
-- xsp_loop.c.
--
-- The three functions of the handler that the loop calls, and what the allocations return, are
-- arguments.
use xsp.Prelude.{
  ℕ, ◌≡◌, refl, sym, ap, Bool, true, false, not, ◌||◌, List, [], ◌∷◌, ◌++◌, Option, none, some,
  arith, if◌then◌else◌, if_both, option_both, All, leb, inl, inr, ◌⊎◌,
}
use mathlib.Core.Path.{subst}
use xsp.Prelude.Int.{ℤ, pos, negsuc}
use xsp.Esp.{EspErr, esp_ok, esp_err_invalid_state}
use xsp.Loop.{State, WatchFor, Loop, add_fd_watcher, remove_fd_watcher}
use xsp.Loop.Watchers.{IsWatcher, add_fd_watcher-remove_fd_watcher}
use xsp.Handler.{validate_config}

-- The handler's address or null, the loop behind the call, and what the call allocated and did not free,
-- but for the loop's own entry.
pub record Setup (W : Type 0) : Type 0 where
  pub handler : Option ℕ
  pub loop : Loop W
  pub live : List ℕ

-- The four fields of a configuration that is given, and whether the others arguments are.
pub record Given : Type 0 where
  pub max_frame_read_size : ℤ
  pub max_data_frame_write_size : ℤ
  pub read_timeout_ms : ℤ
  pub write_timeout_ms : ℤ

unfoldable pub is_valid : Option Given → Bool
is_valid none = true
is_valid (some g) =
    validate_config g.max_frame_read_size g.max_data_frame_write_size g.read_timeout_ms
      g.write_timeout_ms

-- What malloc returns for the handler, the entry of the loop and the read buffer.
pub record Memory : Type 0 where
  pub for_handler : Option ℕ
  pub for_watcher : Option ℕ
  pub for_buffer : Option ℕ

-- `xsp_ws_client_handler_cleanup` of a handler at `handler`, with its loop's flag, its buffer and its
-- entry of the loop: what it frees. `none` where the list has no such entry.
unfoldable pub handler_cleanup :
    {W : Type 0} → Bool → Loop W → ℕ → ℕ → ℕ → Option (EspErr × List ℕ × Loop W)
handler_cleanup true loop handler buffer watcher = some (esp_err_invalid_state, [], loop)
handler_cleanup false loop handler buffer watcher = elim (remove_fd_watcher loop watcher) [
  | none ↦ none
  | some (err, freed, loop') ↦ some (esp_ok, buffer ∷ (freed ++ (handler ∷ [])), loop')
]

abbrev pub is_null {ℓ} : {A : Type ℓ} → Option A → Bool
is_null none = true
is_null (some a) = false

module _ {W : Type 0} (fd_setsize : ℕ) (on_loop_will_select : State W → WatchFor × State W)
    (on_loop_can_write_fd on_loop_can_read_fd : State W → State W) where
  -- Behind the entry of the loop; `none` where the list has no such entry.
  abbrev pub with_buffer : ℕ → Option ℕ → ℕ × Loop W → Option (Setup W)
  with_buffer handler (some buffer) (watcher, loop) =
      some (record { handler = some handler; loop = loop; live = handler ∷ buffer ∷ [] })
  with_buffer handler none (watcher, loop) = elim (remove_fd_watcher loop watcher) [
    | none ↦ none
    | some (err, freed, loop') ↦ some (record { handler = none; loop = loop'; live = [] })
  ]

  -- Behind the allocation of the handler.
  abbrev pub with_watcher : Loop W → ℕ → Option ℕ → Option (ℕ × Loop W) → Option (Setup W)
  with_watcher loop handler buffer none =
      some (record { handler = none; loop = loop; live = handler ∷ [] })
  with_watcher loop handler buffer (some entry) = with_buffer handler buffer entry

  -- `xsp_ws_client_handler_init`: `given` says that the other three arguments are not null.
  unfoldable pub handler_init : Loop W → Option Given → Bool → ℤ → Memory → Option (Setup W)
  handler_init loop config given (negsuc n) memory =
      some (record { handler = none; loop = loop; live = [] })
  handler_init loop config given (pos fd) memory =
      if not (is_valid config) || not given
      then some (record { handler = none; loop = loop; live = [] })
      else elim memory.for_handler [
        | none ↦ some (record { handler = none; loop = loop; live = [] })
        | some handler ↦ with_watcher loop handler memory.for_buffer (
            add_fd_watcher fd_setsize loop (some on_loop_will_select) (some on_loop_can_write_fd)
              (some on_loop_can_read_fd) (pos fd) memory.for_watcher)
      ]

  -- Whether the loop refuses the descriptor or has no memory for its entry.
  abbrev pub refused : ℕ → Memory → Bool
  refused fd memory = leb fd_setsize fd || is_null memory.for_watcher

  -- Whether an argument is refused, or an allocation returns null.
  abbrev pub lacks : Option Given → Bool → ℤ → Memory → Bool
  lacks config given (negsuc n) memory = true
  lacks config given (pos fd) memory =
      not (is_valid config)
      || not given
      || is_null memory.for_handler
      || refused fd memory
      || is_null memory.for_buffer

  -- A handler in its memory, with a buffer and a valid entry of the loop, whose cleanup frees these
  -- three and leaves the loop as it was.
  pub record IsMade (loop : Loop W) (memory : Memory) (handler : ℕ) (setup : Setup W) : Type 0 where
    pub buffer : ℕ
    pub watcher : ℕ
    pub in_memory : memory.for_handler ≡ some handler
    pub in_buffer : memory.for_buffer ≡ some buffer
    pub in_watcher : memory.for_watcher ≡ some watcher
    pub allocated : setup.live ≡ handler ∷ buffer ∷ []
    pub valid : All (IsWatcher fd_setsize) setup.loop.fd_watchers
    pub cleans_up :
        handler_cleanup false setup.loop handler buffer watcher
        ≡ some (esp_ok, buffer ∷ watcher ∷ handler ∷ [], loop)

  -- No handler, and nothing allocated but the handler's memory if the loop refused the entry.
  pub record IsRefused (loop : Loop W) (fd : ℤ) (memory : Memory) (setup : Setup W) : Type 0 where
    pub loop_kept : setup.loop ≡ loop
    pub left_over :
        (setup.live ≡ [])
        ⊎ ((handler n : ℕ) × (memory.for_handler ≡ some handler)
            × (setup.live ≡ handler ∷ [])
            × (fd ≡ pos n)
            × (refused n memory ≡ true))

  -- What a call leaves, by whether it returns a handler.
  abbrev Made : Loop W → Bool → ℤ → Memory → Option ℕ → Setup W → Type 0
  Made loop lacking fd memory none setup = IsRefused loop fd memory setup × (lacking ≡ true)
  Made loop lacking fd memory (some handler) setup =
      IsMade loop memory handler setup × (lacking ≡ false)

  abbrev pub Leaves : Loop W → Bool → ℤ → Memory → Option (Setup W) → Type 0
  Leaves loop lacking fd memory none = ⊥
  Leaves loop lacking fd memory (some setup) = Made loop lacking fd memory setup.handler setup

  -- What it says of the descriptor and the memory that an entry was added or not.
  abbrev Added : ℕ → Memory → Option (ℕ × Loop W) → Type 0
  Added fd memory none = refused fd memory ≡ true
  Added fd memory (some (watcher, loop)) =
      (leb fd_setsize fd ≡ false) × (memory.for_watcher ≡ some watcher)

  add_fd_watcher-Added :
      (loop : Loop W) (fd : ℕ) (memory : Memory)
      → Added fd memory (
          add_fd_watcher fd_setsize loop
            (some on_loop_will_select)
            (some on_loop_can_write_fd)
            (some on_loop_can_read_fd)
            (pos fd)
            memory.for_watcher)
  unfolding add_fd_watcher
  add_fd_watcher-Added loop fd memory =
      if_both (Added fd memory) (leb fd_setsize fd) _ _ (λ e. ground (arith, e))
        (λ e.
          option_both (Added fd memory) memory.for_watcher _ _ (λ e'. ground (arith, ap is_null e'))
            (λ watcher e'. (e, e')))

  module _ (loop : Loop W) (lacking : Bool) (fd : ℕ) (memory : Memory) (handler : ℕ)
      (in_memory : memory.for_handler ≡ some handler) where
    with_buffer-Leaves :
        (loop' : Loop W) (watcher : ℕ) (o : Option ℕ)
        → memory.for_buffer ≡ o
        → memory.for_watcher ≡ some watcher
        → is_null o ≡ lacking
        → All (IsWatcher fd_setsize) loop'.fd_watchers
        → remove_fd_watcher loop' watcher ≡ some (esp_ok, watcher ∷ [], loop)
        → Leaves loop lacking (pos fd) memory (with_buffer handler o (watcher, loop'))
    unfolding handler_cleanup
    with_buffer-Leaves loop' watcher (some buffer) e e' same valid removed = (
      record {
        buffer = buffer;
        watcher = watcher;
        in_memory = in_memory;
        in_buffer = e;
        in_watcher = e';
        allocated = refl;
        valid = valid;
        cleans_up = rw (removed, handler_cleanup) refl;
      },
      sym same,
    )
    with_buffer-Leaves loop' watcher none e e' same valid removed =
        subst
          (λ r. Leaves loop lacking (pos fd) memory (elim r [
            | none ↦ none
            | some (err, freed, loop'') ↦ some (record { handler = none; loop = loop''; live = [] })
          ]))
          (sym removed) (record { loop_kept = refl; left_over = inl refl }, sym same)

    with_watcher-Leaves :
        (o : Option (ℕ × Loop W))
        → lacking ≡ (refused fd memory || is_null memory.for_buffer)
        → All (IsWatcher fd_setsize) loop.fd_watchers
        → add_fd_watcher fd_setsize loop
            (some on_loop_will_select)
            (some on_loop_can_write_fd)
            (some on_loop_can_read_fd)
            (pos fd)
            memory.for_watcher
          ≡ o
        → Leaves loop lacking (pos fd) memory (with_watcher loop handler memory.for_buffer o)
    with_watcher-Leaves none same valid e =
        let no_entry = subst (Added fd memory) e (add_fd_watcher-Added loop fd memory) in
        (
          record {
            loop_kept = refl;
            left_over = inr (handler, fd, in_memory, refl, refl, no_entry);
          },
          ground (arith, same, no_entry),
        )
    with_watcher-Leaves (some (watcher, loop')) same valid e =
        let (small, in_watcher) = subst (Added fd memory) e (add_fd_watcher-Added loop fd memory) in
        let (kept, removed) =
          add_fd_watcher-remove_fd_watcher fd_setsize watcher loop loop' (some on_loop_will_select)
            (some on_loop_can_write_fd) (some on_loop_can_read_fd) (pos fd) memory.for_watcher valid
            e in
        with_buffer-Leaves loop' watcher memory.for_buffer refl in_watcher
          (ground (arith, same, small, ap is_null in_watcher)) kept removed

  -- In a loop whose watchers were accepted, `xsp_ws_client_handler_init` follows no null pointer, and
  -- returns null exactly if an argument is refused or an allocation returns null. Then the loop is as it
  -- was, and nothing stays allocated but the handler's memory if the loop refused the entry. Else the
  -- handler and its buffer are in the memory that was allocated, the watchers of the loop are valid, and
  -- `xsp_ws_client_handler_cleanup` frees the three blocks and leaves the loop as it was.
  pub handler_init-Leaves :
      (loop : Loop W) (config : Option Given) (given : Bool) (fd : ℤ) (memory : Memory)
      → All (IsWatcher fd_setsize) loop.fd_watchers
      → Leaves loop
          (lacks config given fd memory)
          fd
          memory
          (handler_init loop config given fd memory)
  unfolding handler_init
  handler_init-Leaves loop config given (negsuc n) memory valid =
      (record { loop_kept = refl; left_over = inl refl }, refl)
  handler_init-Leaves loop config given (pos fd) memory valid =
      if_both (Leaves loop (lacks config given (pos fd) memory) (pos fd) memory)
        (not (is_valid config) || not given) _ _
        (λ e. (record { loop_kept = refl; left_over = inl refl }, ground (arith, e)))
        (λ e.
          option_both (Leaves loop (lacks config given (pos fd) memory) (pos fd) memory)
            memory.for_handler _ _
            (λ e'.
              (record { loop_kept = refl; left_over = inl refl }, ground (arith, ap is_null e')))
            (λ handler e'.
              with_watcher-Leaves loop (lacks config given (pos fd) memory) fd memory handler e' _
                (ground (arith, e, ap is_null e')) valid refl))
