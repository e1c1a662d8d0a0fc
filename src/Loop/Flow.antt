-- ===== src/Loop/Flow.antt =====
-- When an iteration of xsp_loop.c goes on, and when its run ends.
use xsp.Prelude.{
  ℕ, ◌≡◌, refl, sym, ap, Bool, true, false, not, List, [], ◌∷◌, Option, none, some, arith,
  if◌then◌else◌, Bool-cases, Option-cases, inl, inr,
}
use xsp.Prelude.Int.{ℤ}
use xsp.Loop.{
  State, Watcher, Loop, Select, Asked, nothing_asked, is_positive, will_select, call, and_then,
  dispatch, notify, after_select, do_loop_iteration,
}

-- A result that says whether to go on tells the truth about the flag.
abbrev pub IsTrue : {W : Type 0} → Option (Bool × State W) → Type 0
IsTrue none = Unit
IsTrue (some (go_on, s)) = go_on ≡ not s.should_stop

module _ {W : Type 0} where
  call-IsTrue :
      (b : Bool) (f : Option (State W → State W)) (s : State W)
      → s.should_stop ≡ false
      → IsTrue (call b f s)
  unfolding call
  call-IsTrue false f s h = rw h refl
  call-IsTrue true none s h = tt
  call-IsTrue true (some f) s h = refl

  and_then-IsTrue :
      (r : Option (Bool × State W)) (k : State W → Option (Bool × State W))
      → IsTrue r
      → ((s : State W) → s.should_stop ≡ false → IsTrue (k s))
      → IsTrue (and_then r k)
  and_then-IsTrue none k h g = tt
  and_then-IsTrue (some (false, s)) k h g = h
  and_then-IsTrue (some (true, s)) k h g = g s (ground (arith, h))

  dispatch-IsTrue :
      (ws : List (Watcher W)) (write_fds read_fds : List ℕ) (s : State W)
      → s.should_stop ≡ false
      → IsTrue (dispatch ws write_fds read_fds s)
  unfolding dispatch
  dispatch-IsTrue [] write_fds read_fds s h = rw h refl
  dispatch-IsTrue (w ∷ ws) write_fds read_fds s h =
      and_then-IsTrue _ _ (call-IsTrue _ w.on_loop_can_write_fd s h) (λ s' h'.
        and_then-IsTrue _ _ (call-IsTrue _ w.on_loop_can_read_fd s' h')
          (λ s'' h''. dispatch-IsTrue ws write_fds read_fds s'' h''))

  unless_stopped :
      (b : Bool) (s : State W) (asked : Asked) (rest : Bool × Asked × State W)
      → b ≡ s.should_stop
      → (b ≡ false → rest.0 ≡ not rest.2.should_stop)
      → (if b then (false, asked, s) else rest).0
        ≡ not (if b then (false, asked, s) else rest).2.should_stop
  unless_stopped true s asked rest h g = ap not h
  unless_stopped false s asked rest h g = g refl

  will_select_flag :
      (ws : List (Watcher W)) (asked : Asked) (s : State W)
      → s.should_stop ≡ false
      → (will_select ws asked s).0 ≡ not (will_select ws asked s).2.should_stop
  unfolding will_select
  will_select_flag [] asked s h = sym (ap not h)
  will_select_flag (w ∷ ws) asked s h = elim (Option-cases w.on_loop_will_select) [
    | inl e ↦ rw e (will_select_flag ws _ s h)
    | inr (f, e) ↦
        rw e (unless_stopped _ (f s).1 asked _ refl (λ on. will_select_flag ws _ (f s).1 on))
  ]

  iteration :
      (b go : Bool) (s s' : State W) (r : Option (Bool × State W))
      → b ≡ s.should_stop
      → (b ≡ false → go ≡ not s'.should_stop)
      → (s'.should_stop ≡ false → IsTrue r)
      → IsTrue (if b then some (false, s) else if go then r else some (false, s'))
  iteration true go s s' r h g k = ap not h
  iteration false false s s' r h g k = g refl
  iteration false true s s' r h g k = k (ground (arith, g refl))

  module _ (select : Select W) (loop : Loop W) where
    after_select-IsTrue :
        (answer : ℤ × List ℕ × List ℕ × W) (s : State W)
        → s.should_stop ≡ false
        → IsTrue (after_select select loop answer s)
    unfolding after_select
    after_select-IsTrue (result, write_fds, read_fds, env) s h =
        elim (Bool-cases (is_positive result)) [
          | inl pos ↦ rw pos (dispatch-IsTrue loop.fd_watchers write_fds read_fds _ h)
          | inr idle ↦ rw idle refl
        ]

    -- The answer of select() in an iteration.
    abbrev pub called : State W → ℤ × List ℕ × List ℕ × W
    called s =
        let (go, asked, s') = will_select loop.fd_watchers nothing_asked s in
        select asked.nfds asked.write_fds asked.read_fds loop.poll_timeout_ms s'.env

    -- An iteration that calls no null function returns true exactly if nobody has asked the loop to
    -- stop by its end.
    pub do_loop_iteration-IsTrue : (s : State W) → IsTrue (do_loop_iteration select loop s)
    unfolding do_loop_iteration
    do_loop_iteration-IsTrue s =
        iteration _ _ s _ _ refl (λ on. will_select_flag loop.fd_watchers nothing_asked s on)
          (λ on. after_select-IsTrue (called s) (will_select loop.fd_watchers nothing_asked s).2 on)

    -- What `xsp_loop_run` starts from.
    abbrev pub started : State W → State W
    started s =
        notify loop.evt_handler.on_loop_start (record s { is_running = true; should_stop = false })
