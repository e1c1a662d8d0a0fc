-- ===== src/EventFd/Slots.antt =====
-- The table of eventfds: opening, finding and closing.
use xsp.Prelude.{
  flip_key, ℕ, suc, ◌≡◌, ◌≢◌, refl, sym, ap, ◌∙◌, Bool, true, false, List, [], ◌∷◌, Option, none,
  some, arith, ◌==◌, ==_iff, if◌then◌else◌, Bool-cases, inl, inr, ◌⊎◌, length, All,
}
use mathlib.Core.Path.{subst}
use xsp.Prelude.Int.{pos}
use xsp.Esp.{EspErr, is_ok}
use xsp.EventFd.{Efd, create, close_locked}
use xsp.EventFd.Table.{
  Slot, Ctx, Answer, fails, returns, enfile, find, vacate, fill, efd_lookup_locked, register_errno,
  xsp_eventfd, efd_close, max_num_eventfd,
}

-- Each descriptor is in one slot.
abbrev pub Differ : List Slot → Type 0
Differ [] = Unit
Differ (none ∷ slots) = Differ slots
Differ (some (fd, e) ∷ slots) = (find slots fd ≡ none) × Differ slots

pub record IsTable (ctx : Ctx) : Type 0 where
  pub size : length ctx.eventfds ≡ max_num_eventfd
  pub differ : Differ ctx.eventfds

other_key : (j fd k : ℕ) → (j == fd) ≡ true → (fd == k) ≡ false → (j == k) ≡ false
other_key j fd k same n = ground (arith, same, n)

find-vacate_ne :
    (slots : List Slot) (fd k : ℕ) → (fd == k) ≡ false → find (vacate slots fd) k ≡ find slots k
unfolding find vacate
find-vacate_ne [] fd k n = refl
find-vacate_ne (none ∷ slots) fd k n = find-vacate_ne slots fd k n
find-vacate_ne (some (j, e) ∷ slots) fd k n = elim (Bool-cases (j == fd)) [
  | inl same ↦
      rw same (sym (ap (λ b. if b then some e else find slots k) (other_key j fd k same n)))
  | inr ne ↦ rw ne (ap (λ o. if j == k then some e else o) (find-vacate_ne slots fd k n))
]

find-vacate : (slots : List Slot) (fd : ℕ) → Differ slots → find (vacate slots fd) fd ≡ none
unfolding find vacate
find-vacate [] fd d = refl
find-vacate (none ∷ slots) fd d = find-vacate slots fd d
find-vacate (some (j, e) ∷ slots) fd d = elim (Bool-cases (j == fd)) [
  | inl same ↦ rw same (subst (λ x. find slots x ≡ none) ((==_iff j fd).0 same) d.0)
  | inr ne ↦ rw ne (rw ne (find-vacate slots fd d.1))
]

length-vacate : (slots : List Slot) (fd : ℕ) → length (vacate slots fd) ≡ length slots
unfolding vacate
length-vacate [] fd = refl
length-vacate (none ∷ slots) fd = ap suc (length-vacate slots fd)
length-vacate (some (j, e) ∷ slots) fd = elim (Bool-cases (j == fd)) [
  | inl same ↦ rw same refl
  | inr ne ↦ rw ne (ap suc (length-vacate slots fd))
]

Differ-vacate : (slots : List Slot) (fd : ℕ) → Differ slots → Differ (vacate slots fd)
unfolding vacate
Differ-vacate [] fd d = d
Differ-vacate (none ∷ slots) fd d = Differ-vacate slots fd d
Differ-vacate (some (j, e) ∷ slots) fd d = elim (Bool-cases (j == fd)) [
  | inl same ↦ rw same d.1
  | inr ne ↦ rw ne (find-vacate_ne slots fd j (flip_key j fd ne) ∙ d.0, Differ-vacate slots fd d.1)
]

-- What filling the first free slot does.
abbrev Fills : List Slot → ℕ → Efd → Option (List Slot) → Type 0
Fills slots fd e none = All (λ slot. slot ≢ none) slots
Fills slots fd e (some slots') =
    (length slots' ≡ length slots)
    × ((k : ℕ) → find slots' k ≡ (if fd == k then some e else find slots k))
    × (vacate slots' fd ≡ slots)
    × Differ slots'

new_key :
    (b : Bool) (x : Efd) (o : Option Efd)
    → (if b then some x else o) ≡ none
    → (b ≡ false) × (o ≡ none)
new_key true x o h = absurd (ground (arith, h))
new_key false x o h = (refl, h)

old_key : (j fd k : ℕ) → (j == fd) ≡ false → (j == k) ≡ true → (fd == k) ≡ false
old_key j fd k ne same = ground (arith, ne, same)

fill-cons :
    (slot : ℕ × Efd) (slots : List Slot) (fd : ℕ) (e : Efd) (o : Option (List Slot))
    → find (some slot ∷ slots) fd ≡ none
    → Differ (some slot ∷ slots)
    → Fills slots fd e o
    → Fills (some slot ∷ slots) fd e (elim o [ none ↦ none | some rest ↦ some (some slot ∷ rest) ])
unfolding find vacate
fill-cons slot slots fd e none new d h = (λ i. ground (arith, i), h)
fill-cons (j, x) slots fd e (some rest) new d (len, found, back, differ) = (
  ap suc len,
  λ k. elim (Bool-cases (j == k)) [
    | inl same ↦ rw same (rw (old_key j fd k ne same) refl)
    | inr other ↦ rw other (found k)
  ],
  rw ne (ap (◌∷◌ (some (j, x))) back),
  (found j ∙ ap (λ b. if b then some e else find slots j) (flip_key j fd ne) ∙ d.0, differ),
)
  where
    ne : (j == fd) ≡ false
    ne = (new_key (j == fd) x (find slots fd) new).0

fill-Fills :
    (slots : List Slot) (fd : ℕ) (e : Efd)
    → find slots fd ≡ none
    → Differ slots
    → Fills slots fd e (fill slots fd e)
unfolding fill find vacate
fill-Fills [] fd e new d = tt
fill-Fills (none ∷ slots) fd e new d = (refl, λ k. refl, rw ((==_iff fd fd).1 refl) refl, (new, d))
fill-Fills (some slot ∷ slots) fd e new d =
    fill-cons slot slots fd e (fill slots fd e) new d
      (fill-Fills slots fd e (new_key (slot.0 == fd) slot.1 (find slots fd) new).1 d.1)

-- What `xsp_eventfd` results in: it fails, for one of its reasons, and changes nothing, or it returns the
-- descriptor, which is then found, and can be closed.
abbrev pub Opens : Ctx → ℕ → Efd → Bool → EspErr → Ctx × Answer ℕ → Type 0
Opens ctx fd e allocated err (ctx', fails errno) =
    (ctx' ≡ ctx)
    × ((allocated ≡ false) ⊎ (is_ok err ≡ false) ⊎ All (λ slot. slot ≢ none) ctx.eventfds)
Opens ctx fd e allocated err (ctx', returns k) =
    (k ≡ fd)
    × IsTable ctx'
    × ((j : ℕ)
        → efd_lookup_locked ctx' (pos j)
          ≡ (if fd == j then some e else efd_lookup_locked ctx (pos j)))
    × (efd_close ctx' (pos fd) ≡ (ctx, returns (close_locked e)))

efd_close-fill :
    (ctx : Ctx) (slots : List Slot) (fd : ℕ) (e : Efd)
    → find slots fd ≡ some e
    → vacate slots fd ≡ ctx.eventfds
    → efd_close (record ctx { eventfds = slots }) (pos fd) ≡ (ctx, returns (close_locked e))
unfolding efd_close
efd_close-fill ctx slots fd e found back =
    rw (found, efd_close) (ap (λ v. (record ctx { eventfds = v }, returns (close_locked e))) back)

filled-Opens :
    (ctx : Ctx) (fd : ℕ) (e : Efd) (err : EspErr) (o : Option (List Slot))
    → IsTable ctx
    → Fills ctx.eventfds fd e o
    → Opens ctx fd e true err (elim o [
      | none ↦ (ctx, fails enfile)
      | some slots ↦
          if is_ok err
          then (record ctx { eventfds = slots }, returns fd)
          else (ctx, fails (register_errno err))
    ])
unfolding efd_close efd_lookup_locked
filled-Opens ctx fd e err none t h = (refl, inr (inr h))
filled-Opens ctx fd e err (some slots) t (len, found, back, differ) =
    elim (Bool-cases (is_ok err)) [
      | inr bad ↦ rw bad (refl, inr (inl bad))
      | inl ok ↦ rw ok (
        refl,
        record { size = len ∙ t.size; differ = differ },
        found,
        efd_close-fill ctx slots fd e
            (found fd
              ∙ ap (λ b. if b then some e else find ctx.eventfds fd) ((==_iff fd fd).1 refl))
            back,
      )
    ]

-- `xsp_eventfd`, on a table of four slots with different descriptors, when the VFS gives a descriptor
-- that is not in it: either it fails and changes nothing, and memory is not allocated, the VFS does
-- not register it or no slot is free; or it returns the descriptor, which is found with the new object
-- while the others are found as before, and closing it gives the table back.
pub xsp_eventfd-Opens :
    (ctx : Ctx) (initval fd : ℕ) (nonblock allocated : Bool) (err : EspErr)
    → IsTable ctx
    → efd_lookup_locked ctx (pos fd) ≡ none
    → Opens ctx fd
        (create initval nonblock)
        allocated
        err
        (xsp_eventfd ctx initval nonblock allocated (err, fd))
unfolding xsp_eventfd efd_lookup_locked
xsp_eventfd-Opens ctx initval fd nonblock false err t new = (refl, inl refl)
xsp_eventfd-Opens ctx initval fd nonblock true err t new =
    filled-Opens ctx fd (create initval nonblock) err
      (fill ctx.eventfds fd (create initval nonblock)) t
      (fill-Fills ctx.eventfds fd (create initval nonblock) new t.differ)
