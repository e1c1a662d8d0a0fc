-- ===== src/Cxx/Ownership.antt =====
-- Each handle of components/xsp_cxx has one owner, and what a handler does that is shut down.
use xsp.Prelude.{
  ℕ, zero, suc, ◌+◌, ◌≤◌, ◌<◌, ◌≡◌, refl, sym, ap, ◌∙◌, Bool, true, false, List, [], ◌∷◌, ◌++◌,
  Option, none, some, arith, ◌==◌, ==_iff, if◌then◌else◌, if_both, option_both, flip_key, get_or,
  set, length-set, get_or-set_self, get_or-set_ne, length, Bool-cases, inl, inr,
}
use mathlib.Core.Path.{subst}
use native.Mathlib.Decide.{ℕ_discrete}
use xsp.Prelude.Count.{count, count-append}
use xsp.Cxx.Owners.{
  release, shutdown, Clients, handle_of, construct, move_construct, after_shutdown, shutdown_at,
  take_over, then_take_over, move_assign,
}

abbrev pub one_of : Option ℕ → List ℕ
one_of none = []
one_of (some handle) = handle ∷ []

-- The handles that the objects hold.
abbrev pub held : List (Option ℕ) → List ℕ
held [] = []
held (o ∷ objects) = one_of o ++ held objects

-- What is freed is one live handle.
abbrev pub Releases : List ℕ → ℕ → Option (List ℕ) → Type 0
Releases live handle none = count handle live ≡ 0
Releases live handle (some rest) = (x : ℕ) → count x rest + count x (handle ∷ []) ≡ count x live

not_first :
    (h handle : ℕ) (live : List ℕ)
    → (h == handle) ≡ false
    → count handle live ≡ 0
    → count handle (h ∷ live) ≡ 0
not_first h handle live ne e = rw (flip_key h handle ne) (omega (arith, e))

pub release-Releases : (live : List ℕ) (handle : ℕ) → Releases live handle (release live handle)
unfolding release
release-Releases [] handle = refl
release-Releases (h ∷ live) handle =
    if_both (Releases (h ∷ live) handle) (h == handle) _ _
      (λ e x.
        subst (λ k. count x live + count x (handle ∷ []) ≡ count x (k ∷ live))
          (sym ((==_iff h handle).0 e)) (omega arith))
      (λ ne.
        option_both (Releases (h ∷ live) handle) (release live handle) _ _
          (λ e.
            not_first h handle live ne
              (subst (Releases live handle) e (release-Releases live handle)))
          (λ rest e x.
            omega (arith, subst (Releases live handle) e (release-Releases live handle) x)))

-- What `WsClient::Shutdown` does to the live handles: it frees that of the object, if it has one.
abbrev pub Shuts : List ℕ → Option ℕ → Option (Option ℕ × List ℕ) → Type 0
Shuts live o none = (handle : ℕ) × (o ≡ some handle) × (count handle live ≡ 0)
Shuts live o (some (left, rest)) =
    (left ≡ none) × ((x : ℕ) → count x rest + count x (one_of o) ≡ count x live)

pub shutdown-Shuts : (o : Option ℕ) (live : List ℕ) → Shuts live o (shutdown o live)
unfolding shutdown
shutdown-Shuts none live = (refl, λ x. omega arith)
shutdown-Shuts (some handle) live =
    option_both (Shuts live (some handle)) (release live handle) _ _
      (λ e. (handle, refl, subst (Releases live handle) e (release-Releases live handle)))
      (λ rest e. (refl, subst (Releases live handle) e (release-Releases live handle)))

held-set :
    (objects : List (Option ℕ)) (i x : ℕ) (o : Option ℕ)
    → i < length objects
    → count x (held (set objects i o)) + count x (one_of (get_or objects i none))
      ≡ count x (held objects) + count x (one_of o)
held-set [] i x o h = absurd (omega arith)
held-set (p ∷ objects) zero x o h =
    omega
      (arith, count-append x (one_of p) (held objects), count-append x (one_of o) (held objects))
held-set (p ∷ objects) (suc i) x o h = omega (
  arith,
  held-set objects i x o (omega arith),
  count-append x (one_of p) (held objects),
  count-append x (one_of p) (held (set objects i o)),
)

-- Each live handle is held by one object, and each handle that an object holds is live.
pub record IsOwned (c : Clients) : Type 0 where
  pub same : (x : ℕ) → count x (held c.objects) ≡ count x c.live
  pub once : (x : ℕ) → count x c.live ≤ 1

held_live :
    (objects : List (Option ℕ)) (i handle : ℕ)
    → i < length objects
    → get_or objects i none ≡ some handle
    → 1 ≤ count handle (held objects)
held_live objects i handle h e =
    omega
      (arith, held-set objects i handle none h, ap (λ o. count handle (one_of o)) e, counted handle)
  where
    counted : (x : ℕ) → count x (x ∷ []) ≡ 1
    counted x = rw ((==_iff x x).1 refl) refl

-- What `Shutdown` of an object leaves.
abbrev pub Frees : Clients → ℕ → Option Clients → Type 0
Frees c i none = ⊥
Frees c i (some c') =
    IsOwned c'
    × ((x : ℕ) → count x c'.live + count x (one_of (handle_of c i)) ≡ count x c.live)
    × (length c'.objects ≡ length c.objects)
    × (handle_of c' i ≡ none)

shutdown_at-Frees :
    (c : Clients) (i : ℕ) → IsOwned c → i < length c.objects → Frees c i (shutdown_at c i)
unfolding shutdown_at
shutdown_at-Frees c i owned h = frees _ (shutdown-Shuts (handle_of c i) c.live)
  where
    frees :
        (r : Option (Option ℕ × List ℕ))
        → Shuts c.live (handle_of c i) r
        → Frees c i (after_shutdown c i r)
    frees none (handle, e, gone) =
        absurd (omega (arith, gone, owned.same handle, held_live c.objects i handle h e))
    frees (some (left, rest)) (e, counts) =
        subst (λ l. Frees c i (after_shutdown c i (some (l, rest)))) (sym e)
          (
            record {
              same = λ x. omega (arith, held-set c.objects i x none h, owned.same x, counts x);
              once = λ x. omega (arith, owned.once x, counts x);
            },
            counts,
            length-set c.objects i none,
            get_or-set_self c.objects i none none h,
          )

-- What is left at `rhs` when its handle has been written to the object `i`.
written :
    (c : Clients) (i rhs : ℕ)
    → i < length c.objects
    → get_or (set c.objects i (handle_of c rhs)) rhs none ≡ handle_of c rhs
written c i rhs h = elim (ℕ_discrete i rhs) [
  | yes e ↦
      subst (λ k. get_or (set c.objects i (handle_of c rhs)) k none ≡ handle_of c rhs) e
        (get_or-set_self c.objects i (handle_of c rhs) none h)
  | no ne ↦ get_or-set_ne c.objects (handle_of c rhs) none ne
]

take_over-IsOwned :
    (c : Clients) (i rhs : ℕ)
    → IsOwned c
    → i < length c.objects
    → rhs < length c.objects
    → handle_of c i ≡ none
    → IsOwned (take_over c i rhs)
take_over-IsOwned c i rhs owned h h' e = record {
  same = λ x. omega (
    arith,
    held-set c.objects i x (handle_of c rhs) h,
    held-set (set c.objects i (handle_of c rhs)) rhs x none
        (omega (arith, h', length-set c.objects i (handle_of c rhs))),
    ap (λ o. count x (one_of o)) e,
    ap (λ o. count x (one_of o)) (written c i rhs h),
    owned.same x,
  );
  once = owned.once;
}

-- The objects that a program makes, moves, assigns and shuts down; the destructor is `Shutdown`, and an
-- object that is destroyed stays in the list without a handle.
pub data Owners : Clients → Type 0 where
  no_objects : Owners (record { objects = []; live = [] })
  constructed :
      (c : Clients) (handle : ℕ) → Owners c → count handle c.live ≡ 0 → Owners (construct c handle)
  moved : (c : Clients) (i : ℕ) → Owners c → i < length c.objects → Owners (move_construct c i)
  shut :
      (c c' : Clients) (i : ℕ)
      → Owners c
      → i < length c.objects
      → shutdown_at c i ≡ some c'
      → Owners c'
  assigned :
      (c c' : Clients) (i rhs : ℕ)
      → Owners c
      → i < length c.objects
      → rhs < length c.objects
      → move_assign c i rhs ≡ some c'
      → Owners c'

move_assign-IsOwned :
    (c : Clients) (i rhs : ℕ) (o : Option Clients)
    → i < length c.objects
    → rhs < length c.objects
    → Frees c i o
    → (c' : Clients) × (then_take_over o i rhs ≡ some c') × IsOwned c'
move_assign-IsOwned c i rhs none h h' f = absurd f
move_assign-IsOwned c i rhs (some c') h h' (owned, counts, len, empty) = (
  take_over c' i rhs,
  refl,
  take_over-IsOwned c' i rhs owned (omega (arith, h, len)) (omega (arith, h', len)) empty,
)

at_most_one : (b : Bool) → (if b then 1 else 0) ≤ 1
at_most_one true = omega arith
at_most_one false = omega arith

Owners-IsOwned : (c : Clients) → Owners c → IsOwned c
unfolding move_assign
Owners-IsOwned c no_objects = record { same = λ x. refl; once = λ x. omega arith }
Owners-IsOwned c (constructed c0 handle o new) =
    let owned = Owners-IsOwned c0 o in
    record {
      same = λ x. omega (arith, owned.same x);
      once = λ x. elim (Bool-cases (x == handle)) [
        | inl e ↦ omega (
          arith,
          at_most_one (x == handle),
          ap (λ k. count k c0.live) ((==_iff x handle).0 e),
          new,
        )
        | inr ne ↦ rw ne (omega (arith, owned.once x))
      ];
    }
Owners-IsOwned c (moved c0 i o h) =
    let owned = Owners-IsOwned c0 o in
    record {
      same = λ x. omega (
        arith,
        count-append x (one_of (handle_of c0 i)) (held (set c0.objects i none)),
        held-set c0.objects i x none h,
        owned.same x,
      );
      once = owned.once;
    }
Owners-IsOwned c (shut c0 c' i o h e) =
    (subst (Frees c0 i) e (shutdown_at-Frees c0 i (Owners-IsOwned c0 o) h)).0
Owners-IsOwned c (assigned c0 c' i rhs o h h' e) =
    let (found, e', owned) =
      move_assign-IsOwned c0 i rhs (shutdown_at c0 i) h h'
        (shutdown_at-Frees c0 i (Owners-IsOwned c0 o) h) in
    subst IsOwned (ap (λ r. elim r [ none ↦ found | some x ↦ x ]) (sym e' ∙ e)) owned

-- However objects of class `WsClient` are made, moved, assigned and destroyed, `Shutdown` of one frees
-- the handle that it holds, once, or none if it holds none; then each handle that is not freed is
-- held by one object still, and the object holds none.
pub handles_have_one_owner :
    (c : Clients) (i : ℕ) → Owners c → i < length c.objects → Frees c i (shutdown_at c i)
handles_have_one_owner c i o h = shutdown_at-Frees c i (Owners-IsOwned c o) h
