-- ===== src/Cxx/Twice.antt =====
-- components/xsp_cxx/ws_client_handler.cc: a handler that is destroyed, and one that is shut down first.
use xsp.Prelude.{
  ℕ, ◌+◌, ◌≡◌, refl, sym, ap, Bool, true, false, List, [], ◌∷◌, Option, none, some, arith, ==_iff,
  option_both, Option-cases, inl, inr,
}
use mathlib.Core.Path.{subst}
use xsp.Prelude.Count.{count}
use xsp.Cxx.Owners.{
  release, shutdown, HandlerObject, Live, after_cleanup, shutdown_handler, then_destroy_client,
  destroy_handler,
}
use xsp.Cxx.Ownership.{Releases, release-Releases}

-- A handle that is not live is not freed.
release-none : (live : List ℕ) (handle : ℕ) → count handle live ≡ 0 → release live handle ≡ none
release-none live handle gone = elim (Option-cases (release live handle)) [
  | inl e ↦ e
  | inr (rest, e) ↦ absurd (
      omega (
        arith,
        subst (Releases live handle) e (release-Releases live handle) handle,
        counted,
        gone,
      ))
]
  where
    counted : count handle (handle ∷ []) ≡ 1
    counted = rw ((==_iff handle handle).1 refl) refl

module _ {U : Type 0} where
  -- What `Shutdown` of a handler leaves: its handle is not live, and still stored; no event is forwarded.
  abbrev pub IsDead : HandlerObject U → Live → Option (HandlerObject U × Live) → Type 0
  IsDead o live none = Unit
  IsDead o live (some (o', live')) =
      (o'.handle ≡ o.handle)
      × (o'.evt_handler ≡ none)
      × ((x : ℕ) → count x live'.handlers + count x (o.handle ∷ []) ≡ count x live.handlers)

  after_cleanup-IsDead :
      (o : HandlerObject U) (live : Live) (handlers : List ℕ) (r : Option (Option ℕ × List ℕ))
      → ((x : ℕ) → count x handlers + count x (o.handle ∷ []) ≡ count x live.handlers)
      → IsDead o live (after_cleanup o live handlers r)
  after_cleanup-IsDead o live handlers none h = tt
  after_cleanup-IsDead o live handlers (some (ws_client, clients)) h = (refl, refl, h)

  shutdown_handler-IsDead :
      (is_running : Bool) (o : HandlerObject U) (live : Live)
      → IsDead o live (shutdown_handler is_running o live)
  unfolding shutdown_handler
  shutdown_handler-IsDead true o live = tt
  shutdown_handler-IsDead false o live =
      option_both (IsDead o live) (release live.handlers o.handle) _ _ (λ e. tt)
        (λ handlers e.
          after_cleanup-IsDead o live handlers _
            (subst (Releases live.handlers o.handle) e (release-Releases live.handlers o.handle)))

  -- After a `WsClientHandler` has been shut down by its user, its destructor, which shuts it down
  -- again, passes a handle that is already freed to `xsp_ws_client_handler_cleanup`.
  pub destroyed_twice :
      (is_running : Bool) (o o' : HandlerObject U) (live live' : Live)
      → count o.handle live.handlers ≡ 1
      → shutdown_handler false o live ≡ some (o', live')
      → destroy_handler is_running o' live' ≡ none
  unfolding destroy_handler shutdown_handler
  destroyed_twice true o o' live live' once e = refl
  destroyed_twice false o o' live live' once e =
      let (same, quiet, counts) = subst (IsDead o live) e (shutdown_handler-IsDead false o live) in
      ap
        (λ (r : Option (List ℕ)). then_destroy_client (elim r [
          | none ↦ none
          | some handlers ↦ after_cleanup o' live' handlers (shutdown o'.ws_client live'.clients)
        ]))
        (release-none live'.handlers o'.handle (
          subst (λ k. count k live'.handlers ≡ 0) (sym same)
            (omega (arith, counts o.handle, once, counted o.handle))))
    where
      counted : (x : ℕ) → count x (x ∷ []) ≡ 1
      counted x = rw ((==_iff x x).1 refl) refl
