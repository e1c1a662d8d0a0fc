-- ===== src/Loop/Calls.antt =====
-- The functions that xsp_loop.c calls through a watcher without a test for null, and its termination.
use mathlib.Core.List.{Memᴰ}
use xsp.Prelude.{
  ℕ, zero, suc, ◌<◌, ◌≡◌, ◌≢◌, refl, sym, ap, ◌∙◌, Bool, true, false, not, List, [], ◌∷◌, Option,
  none, some, arith, if◌then◌else◌, Bool-cases, Option-cases, inl, inr, ◌==◌, ==_iff,
}
use xsp.Prelude.Int.{ℤ}
use xsp.Esp.{esp_ok, esp_err_invalid_state}
use xsp.Prelude.FdSet.{has}
use xsp.Loop.{
  State, WatchFor, Watcher, Loop, Select, Asked, nothing_asked, ask, is_set, is_positive,
  will_select, call, and_then, dispatch, after_select, do_loop_iteration, iterate, run,
  after_iteration, end_run, notify,
}
use xsp.Loop.Watchers.{either}
use xsp.Loop.Flow.{started, called, IsTrue, do_loop_iteration-IsTrue}

module _ {W : Type 0} where
  -- Watchers of one file descriptor are the same.
  abbrev pub FdsDiffer : List (Watcher W) → Type 0
  FdsDiffer ws = (v w : Watcher W) → Memᴰ v ws → Memᴰ w ws → v.fd ≡ w.fd → v ≡ w

  -- A watcher's on_loop_will_select asks for nothing that it has no function for.
  abbrev pub AsksHandled : Watcher W → Type 0
  AsksHandled w =
      (f : State W → WatchFor × State W)
      → w.on_loop_will_select ≡ some f
      → (s : State W)
      → ((f s).0.write ≡ true → is_set w.on_loop_can_write_fd ≡ true)
        × ((f s).0.read ≡ true → is_set w.on_loop_can_read_fd ≡ true)

  -- select() leaves no descriptor in a set that was not there.
  abbrev pub SelectShrinks : Select W → Type 0
  SelectShrinks select =
      (nfds : ℕ) (write_fds read_fds : List ℕ) (timeout fd : ℕ) (env : W)
      → (has fd (select nfds write_fds read_fds timeout env).1 ≡ true → has fd write_fds ≡ true)
        × (has fd (select nfds write_fds read_fds timeout env).2 ≡ true → has fd read_fds ≡ true)

  -- Every descriptor in the set has a watcher with a function for it.
  abbrev pub Handled : (Watcher W → Bool) → List (Watcher W) → List ℕ → Type 0
  Handled handles ws fds =
      (fd : ℕ) → has fd fds ≡ true → (w : Watcher W) × Memᴰ w ws × (w.fd ≡ fd) × (handles w ≡ true)

  abbrev pub writes : Watcher W → Bool
  writes w = is_set w.on_loop_can_write_fd

  abbrev pub reads : Watcher W → Bool
  reads w = is_set w.on_loop_can_read_fd

  Handled-add :
      (handles : Watcher W → Bool) (ws : List (Watcher W)) (w : Watcher W) (b : Bool) (fds : List ℕ)
      → Memᴰ w ws
      → (b ≡ true → handles w ≡ true)
      → Handled handles ws fds
      → Handled handles ws (if b then w.fd ∷ fds else fds)
  Handled-add handles ws w false fds m g h fd i = h fd i
  Handled-add handles ws w true fds m g h fd i = elim (Bool-cases (fd == w.fd)) [
    | inl same ↦ (w, m, sym ((==_iff fd w.fd).0 same), g refl)
    | inr other ↦ h fd (rw other at i)
  ]

  -- Both sets of what is asked for.
  abbrev pub AllHandled : List (Watcher W) → Asked → Type 0
  AllHandled ws asked = Handled writes ws asked.write_fds × Handled reads ws asked.read_fds

  AllHandled-ask :
      (ws : List (Watcher W)) (w : Watcher W) (watch_for : WatchFor) (asked : Asked)
      → Memᴰ w ws
      → (watch_for.write ≡ true → writes w ≡ true) × (watch_for.read ≡ true → reads w ≡ true)
      → AllHandled ws asked
      → AllHandled ws (ask w.fd watch_for asked)
  unfolding ask
  AllHandled-ask ws w watch_for asked m g h = (
    Handled-add writes ws w watch_for.write asked.write_fds m g.0 h.0,
    Handled-add reads ws w watch_for.read asked.read_fds m g.1 h.1,
  )

  AllHandled-will_select :
      (all ws : List (Watcher W)) (asked : Asked) (s : State W)
      → ((w : Watcher W) → Memᴰ w ws → Memᴰ w all × AsksHandled w)
      → AllHandled all asked
      → AllHandled all (will_select ws asked s).1
  unfolding will_select
  AllHandled-will_select all [] asked s inc h = h
  AllHandled-will_select all (w ∷ ws) asked s inc h = elim (Option-cases w.on_loop_will_select) [
    | inl e ↦ rw e (
        AllHandled-will_select all ws _ s (λ v m. inc v (Memᴰ.tail m))
          (AllHandled-ask all w _ asked (inc w (Memᴰ.head refl)).0 (λ i. i, λ i. i) h))
    | inr (f, e) ↦ rw e (
        either (AllHandled all) _ (f s).1 asked _ h (
          AllHandled-will_select all ws _ (f s).1 (λ v m. inc v (Memᴰ.tail m))
            (AllHandled-ask all w (f s).0 asked (inc w (Memᴰ.head refl)).0
              ((inc w (Memᴰ.head refl)).1 f e s) h)))
  ]

  call-calls :
      (b : Bool) (f : Option (State W → State W)) (s : State W)
      → (b ≡ true → is_set f ≡ true)
      → call b f s ≢ none
  unfolding call
  call-calls false f s h e = ground arith
  call-calls true none s h e = ground (arith, h refl)
  call-calls true (some f) s h e = ground arith

  and_then-calls :
      (r : Option (Bool × State W)) (k : State W → Option (Bool × State W))
      → r ≢ none
      → ((s : State W) → k s ≢ none)
      → and_then r k ≢ none
  and_then-calls none k h g = h
  and_then-calls (some (false, s)) k h g = λ e. ground arith
  and_then-calls (some (true, s)) k h g = g s

  dispatch-calls :
      (ws : List (Watcher W)) (write_fds read_fds : List ℕ) (s : State W)
      → ((w : Watcher W)
          → Memᴰ w ws
          → (has w.fd write_fds ≡ true → writes w ≡ true)
            × (has w.fd read_fds ≡ true → reads w ≡ true))
      → dispatch ws write_fds read_fds s ≢ none
  unfolding dispatch
  dispatch-calls [] write_fds read_fds s h = λ e. ground arith
  dispatch-calls (w ∷ ws) write_fds read_fds s h =
      and_then-calls _ _ (call-calls _ w.on_loop_can_write_fd s (h w (Memᴰ.head refl)).0) (λ s'.
        and_then-calls _ _ (call-calls _ w.on_loop_can_read_fd s' (h w (Memᴰ.head refl)).1)
          (λ s''. dispatch-calls ws write_fds read_fds s'' (λ v m. h v (Memᴰ.tail m))))

  handles_own :
      (handles : Watcher W → Bool) (ws : List (Watcher W)) (fds : List ℕ) (w : Watcher W)
      → FdsDiffer ws
      → Handled handles ws fds
      → Memᴰ w ws
      → has w.fd fds ≡ true
      → handles w ≡ true
  handles_own handles ws fds w differ h m i =
      let (v, n, same, ok) = h w.fd i in ap handles (differ w v m n (sym same)) ∙ ok

  iteration-calls :
      (b go : Bool) (s s' : State W) (r : Option (Bool × State W))
      → r ≢ none
      → (if b then some (false, s) else if go then r else some (false, s')) ≢ none
  iteration-calls true go s s' r h = λ e. ground arith
  iteration-calls false false s s' r h = λ e. ground arith
  iteration-calls false true s s' r h = h

  module _ (select : Select W) (loop : Loop W) where
    after_select-calls :
        (answer : ℤ × List ℕ × List ℕ × W) (s : State W)
        → ((w : Watcher W)
            → Memᴰ w loop.fd_watchers
            → (has w.fd answer.1 ≡ true → writes w ≡ true)
              × (has w.fd answer.2 ≡ true → reads w ≡ true))
        → after_select select loop answer s ≢ none
    unfolding after_select
    after_select-calls (result, write_fds, read_fds, env) s h =
        elim (Bool-cases (is_positive result)) [
          | inl pos ↦ rw pos (dispatch-calls loop.fd_watchers write_fds read_fds _ h)
          | inr idle ↦ rw idle (λ e. ground arith)
        ]

    -- An iteration calls no null function, if the watchers' file descriptors differ, what their
    -- will-select handlers ask for they have functions for, and select() adds nothing to the sets.
    pub do_loop_iteration-calls :
        (s : State W)
        → FdsDiffer loop.fd_watchers
        → ((w : Watcher W) → Memᴰ w loop.fd_watchers → AsksHandled w)
        → SelectShrinks select
        → do_loop_iteration select loop s ≢ none
    unfolding do_loop_iteration
    do_loop_iteration-calls s differ asks shrinks =
        iteration-calls s.should_stop (will_select loop.fd_watchers nothing_asked s).0 s
          (will_select loop.fd_watchers nothing_asked s).2
          (after_select select loop (called select loop s)
            (will_select loop.fd_watchers nothing_asked s).2)
          (after_select-calls (called select loop s)
            (will_select loop.fd_watchers nothing_asked s).2
            (λ w m. (
              λ i.
                  handles_own writes _ (will_select loop.fd_watchers nothing_asked s).1.write_fds w
                    differ handled.0 m ((still w).0 i),
              λ i.
                  handles_own reads _ (will_select loop.fd_watchers nothing_asked s).1.read_fds w
                    differ handled.1 m ((still w).1 i),
            )))
      where
        handled : AllHandled loop.fd_watchers (will_select loop.fd_watchers nothing_asked s).1
        handled =
            AllHandled-will_select loop.fd_watchers loop.fd_watchers nothing_asked s
              (λ w m. (m, asks w m))
              (λ fd i. absurd (ground (arith, i)), λ fd i. absurd (ground (arith, i)))

        still :
            (w : Watcher W)
            → (has w.fd (called select loop s).1 ≡ true
                → has w.fd (will_select loop.fd_watchers nothing_asked s).1.write_fds ≡ true)
              × (has w.fd (called select loop s).2 ≡ true
                  → has w.fd (will_select loop.fd_watchers nothing_asked s).1.read_fds ≡ true)
        still w =
            let (go, asked, t) = will_select loop.fd_watchers nothing_asked s in
            shrinks asked.nfds asked.write_fds asked.read_fds loop.poll_timeout_ms w.fd t.env

    -- The end of the `while`, with the loop asked to stop.
    abbrev Stops : Option (State W) → Type 0
    Stops r = (u : State W) × (r ≡ some u) × (u.should_stop ≡ true)

    stopped_lem : (b : Bool) → false ≡ not b → b ≡ true
    stopped_lem b e = ground (arith, e)

    after_iteration-Stops :
        (measure : State W → ℕ) (fuel : ℕ) (r : Option (Bool × State W))
        → r ≢ none
        → IsTrue r
        → ((go_on : Bool) (t : State W)
            → r ≡ some (go_on, t)
            → t.should_stop ≡ false
            → measure t < fuel)
        → ((t : State W) → measure t < fuel → Stops (iterate select loop fuel t))
        → Stops (after_iteration (iterate select loop fuel) r)
    after_iteration-Stops measure fuel none calls true_of falls ends = absurd (calls refl)
    after_iteration-Stops measure fuel (some (false, u)) calls true_of falls ends =
        (u, refl, stopped_lem u.should_stop true_of)
    after_iteration-Stops measure fuel (some (true, t)) calls true_of falls ends =
        ends t (falls true t refl (ground (arith, true_of)))

    -- The functions of the application get somewhere: an iteration behind which nobody has asked the
    -- loop to stop makes a measure smaller.
    abbrev pub Progresses : (State W → ℕ) → Type 0
    Progresses measure =
        (s : State W) (go_on : Bool) (t : State W)
        → do_loop_iteration select loop s ≡ some (go_on, t)
        → t.should_stop ≡ false
        → measure t < measure s

    module _ (differ : FdsDiffer loop.fd_watchers)
        (asks : (w : Watcher W) → Memᴰ w loop.fd_watchers → AsksHandled w)
        (shrinks : SelectShrinks select) where
      iterate-Stops :
          (measure : State W → ℕ)
          → Progresses measure
          → (fuel : ℕ) (s : State W) → measure s < fuel
          → Stops (iterate select loop fuel s)
      unfolding iterate
      iterate-Stops measure falls zero s h = absurd (omega (arith, h))
      iterate-Stops measure falls (suc fuel) s h =
          after_iteration-Stops measure fuel (do_loop_iteration select loop s)
            (do_loop_iteration-calls s differ asks shrinks) (do_loop_iteration-IsTrue select loop s)
            (λ go_on t e on. omega (arith, h, falls s go_on t e on))
            (iterate-Stops measure falls fuel)

      -- Under the conditions of an iteration that calls no null function, and if each iteration behind
      -- which nobody has asked the loop to stop makes a measure smaller, the run of a loop that is not
      -- running ends: with ESP_OK, behind an iteration after which the loop was asked to stop, the
      -- function for the stop, and the loop no longer running.
      pub run-ends :
          (measure : State W → ℕ) (s : State W)
          → s.is_running ≡ false
          → Progresses measure
          → (u : State W) × (u.should_stop ≡ true)
            × (run select loop (suc (measure (started select loop s))) s
                ≡ some (
                  esp_ok,
                  record (notify loop.evt_handler.on_loop_stop u) { is_running = false },
                ))
      unfolding run
      run-ends measure s idle falls =
          let (u, e, stops) = iterate-Stops measure falls _ (started select loop s) (omega arith) in
          (
            u,
            stops,
            ap
                  (λ b.
                    if b
                    then some (esp_err_invalid_state, s)
                    else end_run loop.evt_handler (
                        iterate select loop (suc (measure (started select loop s)))
                          (started select loop s)))
                  idle
                ∙ ap (end_run loop.evt_handler) e,
          )
