-- ===== src/EventFd/Selects.antt =====
-- What select() reports of eventfds.
use xsp.Prelude.{
  flip_key, ℕ, ◌≡◌, refl, sym, ap, ◌∙◌, Bool, true, false, ◌&&◌, List, [], ◌∷◌, Option, none, some,
  ◌==◌, ==_iff, if◌then◌else◌, Bool-cases, inl, inr,
}
use mathlib.Core.Path.{subst, ap₂}
use xsp.Prelude.FdSet.{FdSet, has, assign, has-assign}
use xsp.EventFd.{Efd}
use xsp.EventFd.Table.{
  Slot, Ctx, find, set_active, selecting, is_readable, is_writable, collect, end_select,
  end_selected, copy_of,
}
use xsp.EventFd.Slots.{Differ}

-- Whether a descriptor is in a set behind select(), with its object: whether it is ready if it is open
-- and was watched, and else what it was.
abbrev pub reports : (Efd → Bool) → FdSet → FdSet → ℕ → Option Efd → Bool
reports ready watched fds fd none = has fd fds
reports ready watched fds fd (some e) = if has fd watched then ready e else has fd fds

abbrev next_set : (Efd → Bool) → FdSet → ℕ → Efd → FdSet → FdSet
next_set ready watched fd e fds = if has fd watched then assign fd (ready e) fds else fds

has-next_set :
    (ready : Efd → Bool) (watched : FdSet) (fd k : ℕ) (e : Efd) (fds : FdSet)
    → has k (next_set ready watched fd e fds)
      ≡ (if (k == fd) && has fd watched then ready e else has k fds)
has-next_set ready watched fd k e fds = elim (Bool-cases (has fd watched)) [
  | inl w ↦ rw w (has-assign fd k (ready e) fds ∙ both (k == fd) (ready e) (has k fds))
  | inr u ↦ rw u (neither (k == fd) (ready e) (has k fds))
]
  where
    both : (b x y : Bool) → (if b then x else y) ≡ (if b && true then x else y)
    both true x y = refl
    both false x y = refl

    neither : (b x y : Bool) → y ≡ (if b && false then x else y)
    neither true x y = refl
    neither false x y = refl

reports_cong :
    (ready : Efd → Bool) (watched xs ys : FdSet) (k : ℕ) (o : Option Efd)
    → has k xs ≡ has k ys
    → reports ready watched xs k o ≡ reports ready watched ys k o
reports_cong ready watched xs ys k none h = h
reports_cong ready watched xs ys k (some e) h = ap (λ b. if has k watched then ready e else b) h

key_refl : (fd : ℕ) → (fd == fd) ≡ true
key_refl fd = (==_iff fd fd).1 refl

collect_lem :
    (ready : Efd → Bool) (slots : List Slot) (watched fds : FdSet)
    → Differ slots
    → (out : FdSet) × (collect ready slots watched (some fds) ≡ some (some out))
      × ((k : ℕ) → has k out ≡ reports ready watched fds k (find slots k))
unfolding collect find
collect_lem ready [] watched fds d = (fds, refl, λ k. refl)
collect_lem ready (none ∷ slots) watched fds d = collect_lem ready slots watched fds d
collect_lem ready (some (fd, e) ∷ slots) watched fds d =
    let (out, runs, says) = collect_lem ready slots watched (next_set ready watched fd e fds) d.1 in
    (out, runs, λ k. says k ∙ here k)
  where
    here :
        (k : ℕ)
        → reports ready watched (next_set ready watched fd e fds) k (find slots k)
          ≡ reports ready watched fds k (if fd == k then some e else find slots k)
    here k = elim (Bool-cases (fd == k)) [
      | inl same ↦
          subst
            (λ j.
              reports ready watched (next_set ready watched fd e fds) j (find slots j)
              ≡ reports ready watched fds j (if fd == j then some e else find slots j))
            ((==_iff fd k).0 same)
            (ap (reports ready watched (next_set ready watched fd e fds) fd) d.0
              ∙ has-next_set ready watched fd fd e fds
              ∙ ap (λ b. if b && has fd watched then ready e else has fd fds) (key_refl fd)
              ∙ sym (
                  ap (λ b. reports ready watched fds fd (if b then some e else find slots fd))
                    (key_refl fd)))
      | inr other ↦
          reports_cong ready watched (next_set ready watched fd e fds) fds k (find slots k) (
            has-next_set ready watched fd k e fds
            ∙ ap (λ b. if b && has fd watched then ready e else has k fds) (flip_key fd k other))
          ∙ sym (ap (λ b. reports ready watched fds k (if b then some e else find slots k)) other)
    ]

collect_null : (ready : Efd → Bool) (slots : List Slot) → collect ready slots [] none ≡ some none
unfolding collect
collect_null ready [] = refl
collect_null ready (none ∷ slots) = collect_null ready slots
collect_null ready (some (fd, e) ∷ slots) = collect_null ready slots

-- What the caller's set is behind select(): null if it was, else what `reports` says.
abbrev pub Reported : (Efd → Bool) → List Slot → Option FdSet → Option FdSet → Type 0
Reported ready slots none out = out ≡ none
Reported ready slots (some fds) none = ⊥
Reported ready slots (some fds) (some out) =
    (k : ℕ) → has k out ≡ reports ready fds fds k (find slots k)

collect-Reported :
    (ready : Efd → Bool) (slots : List Slot) (fds : Option FdSet)
    → Differ slots
    → (out : Option FdSet) × (collect ready slots (copy_of fds) fds ≡ some out)
      × Reported ready slots fds out
collect-Reported ready slots none d = (none, collect_null ready slots, refl)
collect-Reported ready slots (some fds) d =
    let (out, runs, says) = collect_lem ready slots fds fds d in (some out, runs, says)

-- At the end of a select() on the two sets of the caller, of which each may be null, no assertion
-- fails and no null pointer is followed; in a set that was given, each open descriptor is afterwards if
-- it was and its value is not 0 (not the greatest, in the set for writing), and others are if they were.
pub end_select-Reported :
    (ctx : Ctx) (readfds writefds : Option FdSet)
    → Differ ctx.eventfds
    → ctx.select ≡ some (selecting readfds writefds)
    → (ctx' : Ctx) × (read_out : Option FdSet) × (write_out : Option FdSet) × (end_select ctx
        ≡ some (ctx', read_out, write_out))
      × (ctx'.select ≡ none)
      × Reported is_readable ctx.eventfds readfds read_out
      × Reported is_writable ctx.eventfds writefds write_out
unfolding end_select
end_select-Reported ctx readfds writefds d sel =
    let (r, r_runs, r_says) = collect-Reported is_readable ctx.eventfds readfds d in
    let (w, w_runs, w_says) = collect-Reported is_writable ctx.eventfds writefds d in
    (
      record {
        eventfds = set_active false (selecting readfds writefds) ctx.eventfds;
        select = none;
      },
      r,
      w,
      ap
            (λ o. elim o as (λ x. Option (Ctx × Option FdSet × Option FdSet)) [
              | none ↦ none
              | some x ↦
                  end_selected ctx.eventfds x
                    (collect is_readable ctx.eventfds x.readfds_in x.readfds_out)
                    (collect is_writable ctx.eventfds x.writefds_in x.writefds_out)
            ])
            sel
          ∙ ap₂ (end_selected ctx.eventfds (selecting readfds writefds)) r_runs w_runs,
      refl,
      r_says,
      w_says,
    )
