-- ===== src/Loop/Tests.antt =====
-- A loop whose one watcher counts down when file descriptor 3 is readable, and asks to stop at 0.
use mathlib.Core.Path.{subst}
use mathlib.Core.List.{Memᴰ}
use mathlib.Core.List.Memᴰ
use xsp.Prelude.{
  ℕ, zero, suc, ◌<◌, ◌≡◌, ◌≢◌, refl, sym, ◌∙◌, Bool, true, false, [], ◌∷◌, Option, none, some,
  arith, All,
}
use xsp.Prelude.Int.{pos}
use xsp.Esp.{esp_ok}
use xsp.Loop.{
  State, Watcher, EventHandler, Loop, Select, nothing_asked, ask, will_select, call, dispatch,
  do_loop_iteration, iterate, run, init, add_fd_watcher, remove_fd_watcher, cleanup, should_stop,
  stop,
}
use xsp.Loop.Flow.{IsTrue, do_loop_iteration-IsTrue}
use xsp.Loop.Calls.{FdsDiffer, AsksHandled, do_loop_iteration-calls, run-ends}
use xsp.Loop.Watchers.{
  IsWatcher, IsBounded, add_fd_watcher-remove_fd_watcher, will_select-IsBounded,
}

abbrev count_down : State ℕ → State ℕ
count_down s = elim s.env [ zero ↦ record s { should_stop = true } | suc n ↦ record s { env = n } ]

abbrev counter : Watcher ℕ
counter = record {
  on_loop_will_select = none;
  on_loop_can_write_fd = none;
  on_loop_can_read_fd = some count_down;
  fd = 3;
  address = 100;
}

abbrev no_events : EventHandler ℕ
no_events = record { on_loop_start = none; on_loop_stop = none; on_loop_idle = none }

abbrev counting : Loop ℕ
counting = record { poll_timeout_ms = 10; evt_handler = no_events; fd_watchers = counter ∷ [] }

-- Everything that is asked for is ready at once.
abbrev ready : Select ℕ
ready nfds write_fds read_fds timeout env = (pos 1, write_fds, read_fds, env)

abbrev resting : ℕ → State ℕ
resting n = record { is_running = false; should_stop = false; env = n }

counts :
    run ready counting 3 (resting 2)
    ≡ some (esp_ok, record { is_running = false; should_stop = true; env = 0 })
unfolding run iterate do_loop_iteration will_select call dispatch ask
counts = refl

counting-FdsDiffer : FdsDiffer (counter ∷ [])
counting-FdsDiffer v w (Memᴰ.head e) (Memᴰ.head e') same = e ∙ sym e'
counting-FdsDiffer v w (Memᴰ.head e) (Memᴰ.tail m) same = absurd (Memᴰ.not-nil m)
counting-FdsDiffer v w (Memᴰ.tail m) h same = absurd (Memᴰ.not-nil m)

counting-AsksHandled : (w : Watcher ℕ) → Memᴰ w (counter ∷ []) → AsksHandled w
counting-AsksHandled w (Memᴰ.head e) =
    subst AsksHandled (sym e) (λ f none-some. absurd (ground arith))
counting-AsksHandled w (Memᴰ.tail m) = absurd (Memᴰ.not-nil m)

abbrev Falls : ℕ → Option (Bool × State ℕ) → Type 0
Falls n none = Unit
Falls n (some (go_on, t)) = t.should_stop ≡ false → t.env < n

counting-Falls :
    (is_running should_stop : Bool) (n : ℕ)
    → Falls n (
        do_loop_iteration ready counting
          (record { is_running = is_running; should_stop = should_stop; env = n }))
unfolding do_loop_iteration will_select call dispatch ask
counting-Falls r true n = λ e. absurd (ground (arith, e))
counting-Falls r false zero = λ e. absurd (ground (arith, e))
counting-Falls r false (suc n) = λ e. omega arith

run-ends_example :
    (u : State ℕ) × (u.should_stop ≡ true)
    × (run ready counting 3 (resting 2) ≡ some (esp_ok, record u { is_running = false }))
run-ends_example =
    run-ends ready counting counting-FdsDiffer counting-AsksHandled
      (λ n w r t fd env. (λ i. i, λ i. i)) (λ s. s.env) (resting 2) refl
      (λ s go_on t e. subst (Falls s.env) e (counting-Falls s.is_running s.should_stop s.env))

do_loop_iteration-calls_example : do_loop_iteration ready counting (resting 2) ≢ none
do_loop_iteration-calls_example =
    do_loop_iteration-calls ready counting (resting 2) counting-FdsDiffer counting-AsksHandled
      (λ n w r t fd env. (λ i. i, λ i. i))

do_loop_iteration-IsTrue_here : IsTrue (do_loop_iteration ready counting (resting 0))
do_loop_iteration-IsTrue_here = do_loop_iteration-IsTrue ready counting (resting 0)

abbrev running : ℕ → Bool → State ℕ
running n b = record { is_running = true; should_stop = b; env = n }

-- Two watchers of one file descriptor, of which one only reads and the other only writes.
abbrev writer : Watcher ℕ
writer = record {
  on_loop_will_select = none;
  on_loop_can_write_fd = some count_down;
  on_loop_can_read_fd = none;
  fd = 3;
  address = 104;
}

calls_null :
    do_loop_iteration ready (record counting { fd_watchers = writer ∷ counter ∷ [] }) (resting 5)
    ≡ none
unfolding do_loop_iteration will_select call dispatch ask
calls_null = refl

will_select-IsBounded_example :
    IsBounded 64 (will_select (counter ∷ []) nothing_asked (resting 2)).1
will_select-IsBounded_example =
    will_select-IsBounded 64 (counter ∷ []) nothing_asked (resting 2) ((omega arith, refl), tt)
      (omega arith, λ fd i. absurd (ground (arith, i)), λ fd i. absurd (ground (arith, i)))

abbrev empty : Loop ℕ
empty = record { poll_timeout_ms = 10; evt_handler = no_events; fd_watchers = [] }

init_default : init {W = ℕ} 10 none none true ≡ some empty
unfolding init
init_default = refl

add_counter :
    add_fd_watcher 64 empty none none (some count_down) (pos 3) (some 100) ≡ some (100, counting)
unfolding add_fd_watcher
add_counter = refl

too_large : add_fd_watcher 64 empty none none (some count_down) (pos 64) (some 100) ≡ none
unfolding add_fd_watcher
too_large = refl

added_then_removed :
    All (IsWatcher 64) (counter ∷ [])
    × (remove_fd_watcher counting 100 ≡ some (esp_ok, 100 ∷ [], empty))
added_then_removed =
    add_fd_watcher-remove_fd_watcher 64 100 empty counting none none (some count_down) (pos 3)
      (some 100) tt add_counter

cleaned : cleanup (writer ∷ counter ∷ []) ≡ 104 ∷ 100 ∷ []
unfolding cleanup
cleaned = refl

stopped : stop (running 1 false) ≡ (esp_ok, running 1 true)
unfolding stop
stopped = refl

-- A loop that is not running should stop.
resting_should_stop : should_stop false false ≡ true
unfolding should_stop
resting_should_stop = refl
