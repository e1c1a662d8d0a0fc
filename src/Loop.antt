-- ===== src/Loop.antt =====
-- components/xsp_loop/xsp_loop.c: the loop that waits with select() and calls the event handlers.
--
-- The handlers and what they work on are arguments: a handler is a function on `State`, which holds the
-- loop's flags, that xsp_loop_stop writes, beside all else. Watchers are neither added nor removed by a
-- handler, as include/xsp_loop.h demands. A call of a null function is `none`.
pub mod Flow
pub mod Calls
pub mod Watchers
pub mod Tests
use xsp.Prelude.{
  ℕ, zero, suc, ◌+◌, Bool, true, false, not, ◌&&◌, ◌||◌, List, [], ◌∷◌, Option, none, some, ltb,
  leb, ◌==◌, if◌then◌else◌,
}
use xsp.Prelude.FdSet.{has}
use xsp.Prelude.Int.{ℤ, pos, negsuc}
use xsp.Esp.{EspErr, esp_ok, esp_err_invalid_arg, esp_err_invalid_state}

pub record State (W : Type 0) : Type 0 where
  pub is_running : Bool
  pub should_stop : Bool
  pub env : W

-- `xsp_loop_fd_watch_for_t`, its two bits.
pub record WatchFor : Type 0 where
  pub write : Bool
  pub read : Bool

-- `xsp_loop_fd_event_handler_t`; `xsp_loop_add_fd_watcher` sees to it that `fd` is not negative.
pub record Watcher (W : Type 0) : Type 0 where
  pub on_loop_will_select : Option (State W → WatchFor × State W)
  pub on_loop_can_write_fd : Option (State W → State W)
  pub on_loop_can_read_fd : Option (State W → State W)
  pub fd : ℕ
  -- The address of the list's entry, which is the handle.
  pub address : ℕ

-- `xsp_loop_event_handler_t`
pub record EventHandler (W : Type 0) : Type 0 where
  pub on_loop_start : Option (State W → State W)
  pub on_loop_stop : Option (State W → State W)
  pub on_loop_idle : Option (State W → State W)

-- `xsp_loop_t` but for the flags: the configuration, the handler and the list of watchers.
pub record Loop (W : Type 0) : Type 0 where
  pub poll_timeout_ms : ℕ
  pub evt_handler : EventHandler W
  pub fd_watchers : List (Watcher W)

abbrev pub is_set {ℓ} : {A : Type ℓ} → Option A → Bool
is_set none = false
is_set (some a) = true

-- `xsp_loop_init`: a null configuration is the default one, a null handler has no functions.
unfoldable pub init : {W : Type 0} → ℕ → Option ℤ → Option (EventHandler W) → Bool → Option (Loop W)
init default_ms none evt_handler allocated =
    if allocated
    then some (record {
      poll_timeout_ms = default_ms;
      evt_handler = elim evt_handler [
        | none ↦ record { on_loop_start = none; on_loop_stop = none; on_loop_idle = none }
        | some h ↦ h
      ];
      fd_watchers = [];
    })
    else none
init default_ms (some (negsuc n)) evt_handler allocated = none
init default_ms (some (pos ms)) evt_handler allocated =
    if allocated
    then some (record {
      poll_timeout_ms = ms;
      evt_handler = elim evt_handler [
        | none ↦ record { on_loop_start = none; on_loop_stop = none; on_loop_idle = none }
        | some h ↦ h
      ];
      fd_watchers = [];
    })
    else none

-- `xsp_loop_should_stop` and `xsp_loop_stop`.
unfoldable pub should_stop : Bool → Bool → Bool
should_stop is_running stop = not is_running || stop

unfoldable pub stop : {W : Type 0} → State W → EspErr × State W
stop s =
    if s.is_running then (esp_ok, record s { should_stop = true }) else (esp_err_invalid_state, s)

-- `xsp_loop_add_fd_watcher`, with FD_SETSIZE and the address that malloc returns, if it does.
unfoldable pub add_fd_watcher :
    {W : Type 0}
    → ℕ
    → Loop W
    → Option (State W → WatchFor × State W)
    → Option (State W → State W)
    → Option (State W → State W)
    → ℤ
    → Option ℕ
    → Option (ℕ × Loop W)
add_fd_watcher fd_setsize loop will_select can_write can_read (negsuc n) allocated = none
add_fd_watcher fd_setsize loop will_select can_write can_read (pos fd) allocated =
    if (not (is_set can_read) && not (is_set can_write)) || leb fd_setsize fd
    then none
    else elim allocated [
      | none ↦ none
      | some address ↦ some (
        address,
        record loop {
          fd_watchers =
              record {
                on_loop_will_select = will_select;
                on_loop_can_write_fd = can_write;
                on_loop_can_read_fd = can_read;
                fd = fd;
                address = address;
              }
              ∷ loop.fd_watchers;
        },
      )
    ]

-- SLIST_REMOVE, which follows a null pointer where the entry is not in the list.
abbrev pub slist_remove : {W : Type 0} → ℕ → List (Watcher W) → Option (List (Watcher W))
slist_remove address [] = none
slist_remove address (w ∷ ws) =
    if w.address == address
    then some ws
    else elim (slist_remove address ws) [ none ↦ none | some rest ↦ some (w ∷ rest) ]

-- `xsp_loop_remove_fd_watcher`, with the addresses that it frees.
unfoldable pub remove_fd_watcher : {W : Type 0} → Loop W → ℕ → Option (EspErr × List ℕ × Loop W)
remove_fd_watcher loop address = elim (slist_remove address loop.fd_watchers) [
  | none ↦ none
  | some ws ↦ some (esp_ok, address ∷ [], record loop { fd_watchers = ws })
]

-- The addresses that `xsp_loop_cleanup` frees, before the loop itself.
unfoldable pub cleanup : {W : Type 0} → List (Watcher W) → List ℕ
cleanup [] = []
cleanup (w ∷ ws) = w.address ∷ cleanup ws

-- What is asked of select(): its first argument, and the two sets.
pub record Asked : Type 0 where
  pub nfds : ℕ
  pub write_fds : List ℕ
  pub read_fds : List ℕ

abbrev pub nothing_asked : Asked
nothing_asked = record { nfds = 0; write_fds = []; read_fds = [] }

unfoldable pub ask : ℕ → WatchFor → Asked → Asked
ask fd watch_for asked = record {
  nfds =
      if (watch_for.write || watch_for.read) && ltb asked.nfds (fd + 1) then fd + 1 else asked.nfds;
  write_fds = if watch_for.write then fd ∷ asked.write_fds else asked.write_fds;
  read_fds = if watch_for.read then fd ∷ asked.read_fds else asked.read_fds;
}

-- `select`: what it returns, the sets behind it, and all else.
abbrev pub Select : Type 0 → Type 0
Select W = ℕ → List ℕ → List ℕ → ℕ → W → ℤ × List ℕ × List ℕ × W

abbrev pub is_positive : ℤ → Bool
is_positive (pos n) = ltb 0 n
is_positive (negsuc n) = false

module _ {W : Type 0} where
  -- The first walk over the watchers: false if it returned early.
  unfoldable pub will_select : List (Watcher W) → Asked → State W → Bool × Asked × State W
  will_select [] asked s = (true, asked, s)
  will_select (w ∷ ws) asked s = elim w.on_loop_will_select [
    | none ↦
        will_select ws
          (ask w.fd
            (record { write = is_set w.on_loop_can_write_fd; read = is_set w.on_loop_can_read_fd })
            asked)
          s
    | some f ↦
        let (watch_for, s') = f s in
        let rest = will_select ws (ask w.fd watch_for asked) s' in
        if s'.should_stop then (false, asked, s') else rest
  ]

  -- One call of a handler that may be null: whether to go on.
  unfoldable pub call : Bool → Option (State W → State W) → State W → Option (Bool × State W)
  call false f s = some (true, s)
  call true none s = none
  call true (some f) s = some (not (f s).should_stop, f s)

  abbrev pub and_then :
      Option (Bool × State W) → (State W → Option (Bool × State W)) → Option (Bool × State W)
  and_then none k = none
  and_then (some (false, s)) k = some (false, s)
  and_then (some (true, s)) k = k s

  -- The second walk.
  unfoldable pub dispatch : List (Watcher W) → List ℕ → List ℕ → State W → Option (Bool × State W)
  dispatch [] write_fds read_fds s = some (true, s)
  dispatch (w ∷ ws) write_fds read_fds s =
      and_then (call (has w.fd write_fds) w.on_loop_can_write_fd s) (λ s'.
        and_then (call (has w.fd read_fds) w.on_loop_can_read_fd s')
          (λ s''. dispatch ws write_fds read_fds s''))

  -- Where a null function is left out.
  abbrev pub notify : Option (State W → State W) → State W → State W
  notify none s = s
  notify (some f) s = f s

  -- What the `while` does with the result of an iteration.
  abbrev pub after_iteration :
      (State W → Option (State W)) → Option (Bool × State W) → Option (State W)
  after_iteration k none = none
  after_iteration k (some (true, s)) = k s
  after_iteration k (some (false, s)) = some s

  -- The rest of `xsp_loop_run` behind the `while`.
  abbrev pub end_run : EventHandler W → Option (State W) → Option (EspErr × State W)
  end_run h none = none
  end_run h (some s) = some (esp_ok, record (notify h.on_loop_stop s) { is_running = false })

  module _ (select : Select W) (loop : Loop W) where
    -- From the return of select() on.
    pub after_select : ℤ × List ℕ × List ℕ × W → State W → Option (Bool × State W)
    after_select (result, write_fds, read_fds, env) s =
        let s' = record s { env = env } in
        if is_positive result
        then dispatch loop.fd_watchers write_fds read_fds s'
        else (let idle = notify loop.evt_handler.on_loop_idle s' in
            some (not idle.should_stop, idle))

    -- `do_loop_iteration`
    unfoldable pub do_loop_iteration : State W → Option (Bool × State W)
    unfolding after_select
    do_loop_iteration s =
        let (go_on, asked, s') = will_select loop.fd_watchers nothing_asked s in
        if s.should_stop
        then some (false, s)
        else if go_on
        then after_select
            (select asked.nfds asked.write_fds asked.read_fds loop.poll_timeout_ms s'.env) s'
        else some (false, s')

    -- `while (do_loop_iteration(loop))`; also `none` for want of fuel.
    unfoldable pub iterate : ℕ → State W → Option (State W)
    iterate zero s = none
    iterate (suc fuel) s = after_iteration (iterate fuel) (do_loop_iteration s)

    -- `xsp_loop_run`
    unfoldable pub run : ℕ → State W → Option (EspErr × State W)
    run fuel s =
        if s.is_running
        then some (esp_err_invalid_state, s)
        else end_run loop.evt_handler (
            iterate fuel (
              notify loop.evt_handler.on_loop_start
                (record s { is_running = true; should_stop = false })))
