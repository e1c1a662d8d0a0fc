-- ===== src/EventFd/Reads.antt =====
-- The critical sections of reads, of writes by handle and of the short calls of xsp_eventfd.c keep
-- the invariant of `EventFd.Invariant`.
use xsp.Prelude.{
  ℕ, ◌+◌, ◌-◌, ◌≤◌, ◌<◌, ◌≡◌, refl, sym, ap, ◌∙◌, ◌⊎◌, inl, inr, Bool, true, false, List, [], ◌∷◌,
  Option, some, arith, if◌then◌else◌, length, All, ltb, ◌%◌, ◌≢◌, ==-eq_false, ◌==◌, Bool-cases,
}
use mathlib.Core.Path.{subst}
use native.Mathlib.Decide.{ℕ_discrete}
use xsp.EventFd.{
  u64_mod, Efd, efd_ref_locked, efd_unref_locked, Next, waits, again, was_read, bad_fd, overflows,
  read_round, read_enter, read_wake, handle_write, close_locked,
}
use xsp.EventFd.Threads.{block_reader}
use xsp.EventFd.Rounds.{enter-Inside}
use xsp.EventFd.Invariant.{Served, Inv, Holds, Inside, unref-Holds, All-mono, Served-more}

-- With a bit that is set, any blocked write is served.
All-Served :
    (v : ℕ) (ws : List ℕ) (old : ℕ) (bit : Bool) → All (Served old bit) ws → All (Served v true) ws
All-Served v ws old bit h = All-mono ws (λ a s. (s.0, λ q. absurd (ground arith))) h

read_finish :
    (e : Efd) (writers : List ℕ) (readers : ℕ)
    → Inside e true writers readers
    → Holds
        (efd_unref_locked
          (record e { value = 0; dec_bit = if ltb 0 e.dec_waiters then true else e.dec_bit }))
        true
        writers
        readers
read_finish e writers readers v = unref-Holds _ true writers readers (record {
  held = v.held;
  facts = record {
    blocked_writers = v.facts.blocked_writers;
    blocked_readers = v.facts.blocked_readers;
    open_while_linked = v.facts.open_while_linked;
    in_range = omega arith;
    reader_wakes = λ pos unset. (refl, v.facts.open_while_linked);
    writer_wakes = served writers _ set v.facts.writer_wakes;
    writer_wakes_at_close = λ q. absurd (ground (arith, v.facts.open_while_linked));
  };
})
  where
    set : 0 < length writers → (if ltb 0 e.dec_waiters then true else e.dec_bit) ≡ true
    set h = ground (arith, v.facts.blocked_writers)

    served :
        (ws : List ℕ) (bit : Bool)
        → (0 < length ws → bit ≡ true)
        → All (Served e.value e.dec_bit) ws
        → All (Served 0 bit) ws
    served [] bit h w = tt
    served (x ∷ xs) bit h w =
        subst (λ b. All (Served 0 b) (x ∷ xs)) (sym (h (omega arith)))
          (All-Served 0 (x ∷ xs) e.value e.dec_bit w)

abbrev ReadHolds : Option Efd × Next → List ℕ → ℕ → Type 0
ReadHolds r writers readers = Holds r.0 true writers (block_reader r.1 readers)

read_round_ready :
    (e : Efd)
    → e.value ≢ 0
    → read_round e ≡ (
      efd_unref_locked
          (record e { value = 0; dec_bit = if ltb 0 e.dec_waiters then true else e.dec_bit }),
      was_read e.value e.select_active,
    )
unfolding read_round
read_round_ready e h = rw (==-eq_false e.value 0 h)

read_round_again :
    (e : Efd) → e.value ≡ 0 → e.nonblock ≡ true → read_round e ≡ (efd_unref_locked e, again)
unfolding read_round
read_round_again e h n = ground arith

read_round_waits :
    (e : Efd)
    → e.value ≡ 0
    → e.nonblock ≡ false
    → read_round e ≡ (some (record e { inc_waiters = e.inc_waiters + 1 }), waits)
unfolding read_round
read_round_waits e h n = ground arith

read_round-Holds :
    (e : Efd) (writers : List ℕ) (readers : ℕ)
    → Inside e true writers readers
    → ReadHolds (read_round e) writers readers
read_round-Holds e ws r v = elim (ℕ_discrete e.value 0) [
  | no ready ↦ rw (read_round_ready e ready) (read_finish e ws r v)
  | yes z ↦ elim (Bool-cases e.nonblock) [
    | inl n ↦ rw (read_round_again e z n) (unref-Holds e true ws r v)
    | inr b ↦ rw (read_round_waits e z b) (record {
      held = omega (arith, v.held);
      positive = omega (arith, v.held);
      facts = record {
        blocked_writers = v.facts.blocked_writers;
        blocked_readers = omega (arith, v.facts.blocked_readers);
        open_while_linked = v.facts.open_while_linked;
        in_range = v.facts.in_range;
        reader_wakes = λ p q. (z, v.facts.open_while_linked);
        writer_wakes = v.facts.writer_wakes;
        writer_wakes_at_close = v.facts.writer_wakes_at_close;
      };
    })
  ]
]

pub read_enter-Holds :
    (e : Efd) (writers : List ℕ) (readers : ℕ)
    → Inv e true writers readers
    → ReadHolds (read_enter e) writers readers
unfolding read_enter
read_enter-Holds e ws r v = read_round-Holds (efd_ref_locked e) ws r (enter-Inside e ws r v)

woken_reader :
    (e : Efd) (linked : Bool) (writers : List ℕ) (others : ℕ) (bit : Bool)
    → Inv e linked writers (others + 1)
    → (bit ≡ e.inc_bit) ⊎ (others ≡ 0)
    → Inside (record e { inc_waiters = e.inc_waiters - 1; inc_bit = bit }) linked writers others
woken_reader e linked ws others bit v kept = record {
  held = omega (arith, v.held);
  facts = record {
    blocked_writers = v.facts.blocked_writers;
    blocked_readers = omega (arith, v.facts.blocked_readers);
    open_while_linked = v.facts.open_while_linked;
    in_range = v.facts.in_range;
    reader_wakes = wakes kept;
    writer_wakes = v.facts.writer_wakes;
    writer_wakes_at_close = v.facts.writer_wakes_at_close;
  };
}
  where
    wakes :
        (bit ≡ e.inc_bit) ⊎ (others ≡ 0)
        → 0 < others
        → bit ≡ false
        → (e.value ≡ 0) × (e.closed ≡ false)
    wakes (inl same) p q = v.facts.reader_wakes (omega arith) (sym same ∙ q)
    wakes (inr z) p q = absurd (omega arith)

read_wake_closed :
    (e : Efd)
    → e.closed ≡ true
    → read_wake e ≡ (efd_unref_locked (record e { inc_waiters = e.inc_waiters - 1 }), bad_fd)
unfolding read_wake
read_wake_closed e h = ground arith

read_wake_open :
    (e : Efd)
    → e.closed ≡ false
    → read_wake e
      ≡ read_round (record e {
        inc_waiters = e.inc_waiters - 1;
        inc_bit = if e.inc_waiters - 1 == 0 then false else e.inc_bit;
      })
unfolding read_wake
read_wake_open e h =
    ap
      (λ c.
        if c
        then (efd_unref_locked (record e { inc_waiters = e.inc_waiters - 1 }), bad_fd)
        else (read_round (record e {
          inc_waiters = e.inc_waiters - 1;
          inc_bit = if e.inc_waiters - 1 == 0 then false else e.inc_bit;
        })))
      h

pub read_wake-Holds :
    (e : Efd) (linked : Bool) (writers : List ℕ) (others : ℕ)
    → Inv e linked writers (others + 1)
    → Holds (read_wake e).0 linked writers (block_reader (read_wake e).1 others)
read_wake-Holds e true ws r v =
    rw (read_wake_open e v.facts.open_while_linked)
      (read_round-Holds _ ws r (woken_reader e true ws r _ v cleared))
  where
    cleared : ((if e.inc_waiters - 1 == 0 then false else e.inc_bit) ≡ e.inc_bit) ⊎ (r ≡ 0)
    cleared = elim (ℕ_discrete r 0) [
      | yes z ↦ inr z
      | no n ↦ inl (ground (arith, v.facts.blocked_readers))
    ]
read_wake-Holds e false ws r v =
    rw (read_wake_closed e v.facts.open_while_linked)
      (unref-Holds _ false ws r (woken_reader e false ws r e.inc_bit v (inl refl)))

handle_write_refused :
    (e : Efd) (a : ℕ) → (a ≡ 0) ⊎ (overflows e.value a ≡ true) → (handle_write e a).0 ≡ e
unfolding handle_write
handle_write_refused e a h = ground arith

handle_write_adds :
    (e : Efd) (a : ℕ)
    → a ≢ 0
    → overflows e.value a ≡ false
    → (handle_write e a).0 ≡ record e {
      value = (e.value + a) % u64_mod;
      inc_bit = if ltb 0 e.inc_waiters then true else e.inc_bit;
    }
unfolding handle_write
handle_write_adds e a n h = ground arith

pub handle_write-Holds :
    (e : Efd) (linked : Bool) (writers : List ℕ) (readers to_add : ℕ)
    → Inv e linked writers readers
    → to_add < u64_mod
    → Inv (handle_write e to_add).0 linked writers readers
handle_write-Holds e linked ws r a v small = elim (ℕ_discrete a 0) [
  | yes z ↦ rw (handle_write_refused e a (inl z)) v
  | no n ↦ elim (Bool-cases (overflows e.value a)) [
    | inl over ↦ rw (handle_write_refused e a (inr over)) v
    | inr fits ↦ rw (handle_write_adds e a n fits) (record {
      held = v.held;
      positive = v.positive;
      facts = record {
        blocked_writers = v.facts.blocked_writers;
        blocked_readers = v.facts.blocked_readers;
        open_while_linked = v.facts.open_while_linked;
        in_range = omega arith;
        reader_wakes = λ pos unset. absurd (ground (arith, v.facts.blocked_readers));
        writer_wakes =
            All-mono ws (λ b. Served-more e.value _ b e.dec_bit (true_sum fits))
              v.facts.writer_wakes;
        writer_wakes_at_close = v.facts.writer_wakes_at_close;
      };
    })
  ]
]
  where
    true_sum : overflows e.value a ≡ false → e.value ≤ (e.value + a) % u64_mod
    true_sum fits = unfold overflows in ground arith

pub close_locked-Holds :
    (e : Efd) (writers : List ℕ) (readers : ℕ)
    → Inv e true writers readers
    → Holds (close_locked e) false writers readers
unfolding close_locked
close_locked-Holds e ws r v = unref-Holds _ false ws r (record {
  held = omega (arith, v.held);
  facts = record {
    blocked_writers = v.facts.blocked_writers;
    blocked_readers = v.facts.blocked_readers;
    open_while_linked = refl;
    in_range = v.facts.in_range;
    reader_wakes = λ p q. absurd (ground arith);
    writer_wakes = All-Served e.value ws e.value e.dec_bit v.facts.writer_wakes;
    writer_wakes_at_close = λ q. refl;
  };
})
