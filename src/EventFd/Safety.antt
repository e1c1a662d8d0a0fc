-- ===== src/EventFd/Safety.antt =====
-- What holds of an eventfd of components/xsp_eventfd/xsp_eventfd.c in every order of its calls.
use xsp.Prelude.{
  ◌↔◌, Option-cases, Bool-cases, ℕ, ◌+◌, ◌<◌, ◌≡◌, refl, ap, ◌⊎◌, inl, inr, Bool, true, false, List,
  [], ◌∷◌, ◌++◌, some, arith, length, All,
}
use mathlib.Core.Path.{subst}
use xsp.EventFd.{u64_mod, Efd, create, set_flags}
use xsp.EventFd.Threads.{
  System, Step, write, wake_writer, read, wake_reader, write_by_handle, close, set_nonblock, select,
  start, Reach, here, next,
}
use xsp.EventFd.Invariant.{Served, Inv, Holds, All-remove}
use xsp.EventFd.Rounds.{write_enter-Holds, write_wake-Holds}
use xsp.EventFd.Reads.{read_enter-Holds, read_wake-Holds, handle_write-Holds, close_locked-Holds}

abbrev pub SystemHolds : System → Type 0
SystemHolds s = Holds s.object s.linked s.writers s.readers

there :
    (s : System) (e : Efd) → s.object ≡ some e → SystemHolds s → Inv e s.linked s.writers s.readers
there s e h v = subst (λ o. Holds o s.linked s.writers s.readers) h v

-- The two flags that no fact is about.
same_facts :
    (e : Efd) (active nonblock : Bool) (linked : Bool) (writers : List ℕ) (readers : ℕ)
    → Inv e linked writers readers
    → Inv (record e { select_active = active; nonblock = nonblock }) linked writers readers
same_facts e active nonblock linked ws r v = record {
  held = v.held;
  positive = v.positive;
  facts = record {
    blocked_writers = v.facts.blocked_writers;
    blocked_readers = v.facts.blocked_readers;
    open_while_linked = v.facts.open_while_linked;
    in_range = v.facts.in_range;
    reader_wakes = v.facts.reader_wakes;
    writer_wakes = v.facts.writer_wakes;
    writer_wakes_at_close = v.facts.writer_wakes_at_close;
  };
}

-- Every critical section keeps the invariant.
pub Step-SystemHolds : {s t : System} → Step s t → SystemHolds s → SystemHolds t
Step-SystemHolds {s} (write e a o l pos small h) v =
    rw (h, l)
      (write_enter-Holds e s.writers s.readers a
        (subst (λ b. Inv e b s.writers s.readers) l (there s e o v)) (omega arith))
Step-SystemHolds {s} (wake_writer e a before behind o w h) v = rw h (
    write_wake-Holds e s.linked before behind s.readers a found
      ((All-remove (Served e.value e.dec_bit) before a behind found.facts.writer_wakes).0.0))
  where
    found : Inv e s.linked (before ++ (a ∷ behind)) s.readers
    found = subst (λ ws. Inv e s.linked ws s.readers) w (there s e o v)
Step-SystemHolds {s} (read e o l h) v =
    rw (h, l)
      (read_enter-Holds e s.writers s.readers
        (subst (λ b. Inv e b s.writers s.readers) l (there s e o v)))
Step-SystemHolds {s} (wake_reader e others o r h) v = rw h (
    read_wake-Holds e s.linked s.writers others
      (subst (Inv e s.linked s.writers) r (there s e o v)))
Step-SystemHolds {s} (write_by_handle e a o small h) v =
    rw h (handle_write-Holds e s.linked s.writers s.readers a (there s e o v) small)
Step-SystemHolds {s} (close e o l h) v = rw h (
    close_locked-Holds e s.writers s.readers
      (subst (λ b. Inv e b s.writers s.readers) l (there s e o v)))
Step-SystemHolds {s} (set_nonblock e b o l h) v = rw h (
    unfold set_flags in same_facts e e.select_active b s.linked s.writers s.readers (there s e o v))
Step-SystemHolds {s} (select e b o l h) v =
    rw h (same_facts e b e.nonblock s.linked s.writers s.readers (there s e o v))

start-SystemHolds :
    (initval : ℕ) (nonblock : Bool) → initval < u64_mod → SystemHolds (start initval nonblock)
unfolding create
start-SystemHolds initval nonblock small = record {
  held = refl;
  positive = omega arith;
  facts = record {
    blocked_writers = refl;
    blocked_readers = refl;
    open_while_linked = refl;
    in_range = small;
    reader_wakes = λ p q. absurd (omega arith);
    writer_wakes = tt;
    writer_wakes_at_close = λ q. absurd (ground arith);
  };
}

pub Reach-SystemHolds :
    {initval : ℕ} {nonblock : Bool} {s : System}
    → initval < u64_mod
    → Reach initval nonblock s
    → SystemHolds s
Reach-SystemHolds {initval} {nonblock} small here = start-SystemHolds initval nonblock small
Reach-SystemHolds small (next r st) = Step-SystemHolds st (Reach-SystemHolds small r)

-- The descriptor is in the table, or a call is blocked.
abbrev pub IsHeld : System → Type 0
IsHeld s = (s.linked ≡ true) ⊎ (0 < length s.writers) ⊎ (0 < s.readers)

held_exists : (s : System) → SystemHolds s → IsHeld s → (e : Efd) × (s.object ≡ some e)
held_exists s v h = elim (Option-cases s.object) [
  | inr found ↦ found
  | inl gone ↦ absurd (freed (subst (λ o. Holds o s.linked s.writers s.readers) gone v))
]
  where
    freed : (s.linked ≡ false) × (s.writers ≡ []) × (s.readers ≡ 0) → ⊥
    freed (l, w, r) = ground (arith, ap length w)

exists_IsHeld : (s : System) → SystemHolds s → (e : Efd) → s.object ≡ some e → IsHeld s
exists_IsHeld s v e o = ground (arith, (there s e o v).held, (there s e o v).positive)

-- Whatever the order of the calls, from a new eventfd whose initial value is a uint64_t, its memory
-- is there exactly while the descriptor is in the table or a read or a write is blocked: no call
-- reaches a freed object, and none is leaked.
pub object_exists_iff :
    {initval : ℕ} {nonblock : Bool} {s : System}
    → initval < u64_mod
    → Reach initval nonblock s
    → ((e : Efd) × (s.object ≡ some e)) ↔ IsHeld s
object_exists_iff {s} small r = (
  λ (e, o). exists_IsHeld s (Reach-SystemHolds small r) e o,
  held_exists s (Reach-SystemHolds small r),
)

-- Whatever the order of the calls, from a new eventfd whose initial value is a uint64_t, a blocked
-- write whose sum fits, or whose descriptor was closed, has the bit set that it waits for.
pub writer_is_woken :
    {initval : ℕ} {nonblock : Bool} {s : System}
    → initval < u64_mod
    → Reach initval nonblock s
    → (e : Efd) → s.object ≡ some e
    → (to_add : ℕ) (before behind : List ℕ) → s.writers ≡ before ++ (to_add ∷ behind)
    → (e.value + to_add < u64_mod) ⊎ (e.closed ≡ true)
    → e.dec_bit ≡ true
writer_is_woken {s} small r e o a before behind w h =
    let v = there s e o (Reach-SystemHolds small r) in woken v h
  where
    woken :
        Inv e s.linked s.writers s.readers
        → (e.value + a < u64_mod) ⊎ (e.closed ≡ true)
        → e.dec_bit ≡ true
    woken v (inr closed) = v.facts.writer_wakes_at_close closed
    woken v (inl fits) = elim (Bool-cases e.dec_bit) [
      | inl set ↦ set
      | inr unset ↦ absurd (
          omega (
            arith,
            (All-remove (Served e.value e.dec_bit) before a behind
                  (subst (All (Served e.value e.dec_bit)) w v.facts.writer_wakes)).0.1
                unset,
          ))
    ]

-- Under the same conditions a blocked read has its bit set when the value is not 0 or the
-- descriptor was closed.
pub reader_is_woken :
    {initval : ℕ} {nonblock : Bool} {s : System}
    → initval < u64_mod
    → Reach initval nonblock s
    → (e : Efd) → s.object ≡ some e
    → 0 < s.readers
    → (0 < e.value) ⊎ (e.closed ≡ true)
    → e.inc_bit ≡ true
reader_is_woken {s} small r e o p h =
    let v = there s e o (Reach-SystemHolds small r) in
    elim (Bool-cases e.inc_bit) [
      | inl set ↦ set
      | inr unset ↦ absurd (ground (arith, v.facts.reader_wakes p unset))
    ]
