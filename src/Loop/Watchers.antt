-- ===== src/Loop/Watchers.antt =====
-- The list of watchers of xsp_loop.c, and what its select() is asked.
use xsp.Prelude.{
  ℕ, ◌+◌, ◌≤◌, ◌<◌, ◌≡◌, refl, sym, ap, Bool, true, false, not, ◌&&◌, ◌||◌, List, [], ◌∷◌, Option,
  none, some, arith, if◌then◌else◌, Bool-cases, Option-cases, inl, inr, ◌==◌, ==_iff, ltb, leb, All,
}
use mathlib.Core.Path.{subst}
use xsp.Prelude.Int.{ℤ, pos, negsuc}
use xsp.Esp.{esp_ok}
use xsp.Prelude.FdSet.{has}
use xsp.Loop.{
  State, WatchFor, Watcher, Loop, Asked, ask, is_set, will_select, add_fd_watcher,
  remove_fd_watcher, slist_remove,
}

-- Every descriptor in a set is smaller than the first argument of select(), which is at most FD_SETSIZE.
abbrev pub Below : ℕ → List ℕ → Type 0
Below nfds fds = (fd : ℕ) → has fd fds ≡ true → fd < nfds

abbrev pub IsBounded : ℕ → Asked → Type 0
IsBounded fd_setsize asked =
    (asked.nfds ≤ fd_setsize) × Below asked.nfds asked.write_fds × Below asked.nfds asked.read_fds

Below-add :
    (b : Bool) (fd n m : ℕ) (fds : List ℕ)
    → Below n fds
    → n ≤ m
    → (b ≡ true → fd < m)
    → Below m (if b then fd ∷ fds else fds)
Below-add false fd n m fds h le g other i = omega (arith, le, h other i)
Below-add true fd n m fds h le g other i = elim (Bool-cases (other == fd)) [
  | inl same ↦ subst (λ k. k < m) (sym ((==_iff other fd).0 same)) (g refl)
  | inr ne ↦ omega (arith, le, h other (rw ne at i))
]

ask-IsBounded :
    (fd_setsize fd : ℕ) (watch_for : WatchFor) (asked : Asked)
    → fd < fd_setsize
    → IsBounded fd_setsize asked
    → IsBounded fd_setsize (ask fd watch_for asked)
unfolding ask
ask-IsBounded fd_setsize fd watch_for asked h (le, w, r) = (
  ground (arith, h, le),
  Below-add watch_for.write fd asked.nfds _ asked.write_fds w grows (λ i. ground (arith, i)),
  Below-add watch_for.read fd asked.nfds _ asked.read_fds r grows (λ i. ground (arith, i)),
)
  where
    grows : asked.nfds ≤ (
        if (watch_for.write || watch_for.read) && ltb asked.nfds (fd + 1)
        then fd + 1
        else asked.nfds)
    grows = ground arith

module _ {W : Type 0} where
  -- A watcher that `xsp_loop_add_fd_watcher` accepts.
  abbrev pub IsWatcher : ℕ → Watcher W → Type 0
  IsWatcher fd_setsize w =
      (w.fd < fd_setsize) × ((is_set w.on_loop_can_read_fd || is_set w.on_loop_can_write_fd) ≡ true)

  slist_remove-cons :
      (address : ℕ) (w : Watcher W) (ws : List (Watcher W))
      → w.address ≡ address
      → slist_remove address (w ∷ ws) ≡ some ws
  slist_remove-cons address w ws e = rw ((==_iff w.address address).1 e) refl

  -- What holds of the handle and the loop that `xsp_loop_add_fd_watcher` results in.
  abbrev Adds : ℕ → Loop W → Option (ℕ × Loop W) → Type 0
  Adds fd_setsize loop none = Unit
  Adds fd_setsize loop (some (address, loop')) =
      All (IsWatcher fd_setsize) loop'.fd_watchers
      × (remove_fd_watcher loop' address ≡ some (esp_ok, address ∷ [], loop))

  add_fd_watcher-Adds :
      (fd_setsize : ℕ) (loop : Loop W) (will_select : Option (State W → WatchFor × State W))
      (can_write can_read : Option (State W → State W)) (fd : ℤ) (allocated : Option ℕ)
      → All (IsWatcher fd_setsize) loop.fd_watchers
      → Adds fd_setsize loop
          (add_fd_watcher fd_setsize loop will_select can_write can_read fd allocated)
  unfolding add_fd_watcher remove_fd_watcher
  add_fd_watcher-Adds fd_setsize loop ws cw cr (negsuc n) allocated h = tt
  add_fd_watcher-Adds fd_setsize loop ws cw cr (pos fd) none h =
      elim (Bool-cases ((not (is_set cr) && not (is_set cw)) || leb fd_setsize fd)) [
        | inl bad ↦ rw bad tt
        | inr ok ↦ rw ok tt
      ]
  add_fd_watcher-Adds fd_setsize loop ws cw cr (pos fd) (some address) h =
      elim (Bool-cases ((not (is_set cr) && not (is_set cw)) || leb fd_setsize fd)) [
        | inl bad ↦ rw bad tt
        | inr ok ↦ rw ok (
          ((ground (arith, ok), ground (arith, ok)), h),
          ap
              (λ o. elim o [
                | none ↦ none
                | some ws' ↦ some (esp_ok, address ∷ [], record loop { fd_watchers = ws' })
              ])
              (slist_remove-cons address _ loop.fd_watchers refl),
        )
      ]

  -- Adding a watcher to a loop keeps every watcher within FD_SETSIZE and with a function to call, and
  -- removing the handle that it returned gives the loop back and frees what was allocated.
  pub add_fd_watcher-remove_fd_watcher :
      (fd_setsize address : ℕ) (loop loop' : Loop W)
      (will_select : Option (State W → WatchFor × State W))
      (can_write can_read : Option (State W → State W)) (fd : ℤ) (allocated : Option ℕ)
      → All (IsWatcher fd_setsize) loop.fd_watchers
      → add_fd_watcher fd_setsize loop will_select can_write can_read fd allocated
        ≡ some (address, loop')
      → All (IsWatcher fd_setsize) loop'.fd_watchers
        × (remove_fd_watcher loop' address ≡ some (esp_ok, address ∷ [], loop))
  add_fd_watcher-remove_fd_watcher fd_setsize address loop loop' ws cw cr fd allocated h e =
      subst (Adds fd_setsize loop) e (add_fd_watcher-Adds fd_setsize loop ws cw cr fd allocated h)

  pub either :
      (P : Asked → Type 0) (b : Bool) (s : State W) (asked : Asked) (rest : Bool × Asked × State W)
      → P asked
      → P rest.1
      → P (if b then (false, asked, s) else rest).1
  either P true s asked rest p q = p
  either P false s asked rest p q = q

  -- If every watcher was accepted by `xsp_loop_add_fd_watcher`, every descriptor in the sets is smaller
  -- than the first argument of select(), and that is at most FD_SETSIZE.
  pub will_select-IsBounded :
      (fd_setsize : ℕ) (ws : List (Watcher W)) (asked : Asked) (s : State W)
      → All (IsWatcher fd_setsize) ws
      → IsBounded fd_setsize asked
      → IsBounded fd_setsize (will_select ws asked s).1
  unfolding will_select
  will_select-IsBounded fd_setsize [] asked s valid h = h
  will_select-IsBounded fd_setsize (w ∷ ws) asked s (here, rest) h =
      elim (Option-cases w.on_loop_will_select) [
        | inl e ↦ rw e (
            will_select-IsBounded fd_setsize ws _ s rest
              (ask-IsBounded fd_setsize w.fd _ asked here.0 h))
        | inr (f, e) ↦ rw e (
            either (IsBounded fd_setsize) _ (f s).1 asked _ h (
              will_select-IsBounded fd_setsize ws _ (f s).1 rest
                (ask-IsBounded fd_setsize w.fd (f s).0 asked here.0 h)))
      ]
