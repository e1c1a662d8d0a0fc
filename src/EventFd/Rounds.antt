-- ===== src/EventFd/Rounds.antt =====
-- Each critical section of xsp_eventfd.c keeps the invariant of `EventFd.Invariant`.
use xsp.Prelude.{
  ℕ, ◌+◌, ◌-◌, ◌<◌, ◌≡◌, refl, ap, ◌⊎◌, inl, inr, Bool, true, false, List, ◌∷◌, ◌++◌, Option, some,
  arith, if◌then◌else◌, All, ltb, ◌%◌, ◌==◌, Bool-cases,
}
use native.Mathlib.Decide.{ℕ_discrete}
use xsp.EventFd.{
  u64_mod, Efd, efd_ref_locked, efd_unref_locked, Next, waits, again, wrote, bad_fd, overflows,
  write_round, write_enter, write_wake,
}
use xsp.EventFd.Bounds.{overflows_iff}
use xsp.EventFd.Threads.{block_writer}
use xsp.EventFd.Invariant.{
  length-zero, Served, Inv, Holds, Inside, unref-Holds, All-remove, length-remove, write_finish,
}

pub enter-Inside :
    (e : Efd) (writers : List ℕ) (readers : ℕ)
    → Inv e true writers readers
    → Inside (efd_ref_locked e) true writers readers
unfolding efd_ref_locked
enter-Inside e ws r v = record { held = omega (arith, v.held); facts = ground (arith, v.facts) }

abbrev WriteHolds : Option Efd × Next → List ℕ → ℕ → ℕ → Type 0
WriteHolds r writers readers to_add = Holds r.0 true (block_writer r.1 to_add writers) readers

write_round_fits :
    (e : Efd) (a : ℕ)
    → overflows e.value a ≡ false
    → write_round e a ≡ (
      efd_unref_locked (record e {
        value = (e.value + a) % u64_mod;
        inc_bit = if ltb 0 e.inc_waiters then true else e.inc_bit;
      }),
      wrote e.select_active,
    )
unfolding write_round
write_round_fits e a h = rw h

write_round_again :
    (e : Efd) (a : ℕ)
    → overflows e.value a ≡ true
    → e.nonblock ≡ true
    → write_round e a ≡ (efd_unref_locked e, again)
unfolding write_round
write_round_again e a h n = rw h (rw n)

write_round_waits :
    (e : Efd) (a : ℕ)
    → overflows e.value a ≡ true
    → e.nonblock ≡ false
    → write_round e a ≡ (some (record e { dec_waiters = e.dec_waiters + 1 }), waits)
unfolding write_round
write_round_waits e a h n = rw h (rw n)

-- The round of a write inside a call on an open descriptor.
pub write_round-Holds :
    (e : Efd) (writers : List ℕ) (readers to_add : ℕ)
    → Inside e true writers readers
    → to_add < u64_mod
    → WriteHolds (write_round e to_add) writers readers to_add
write_round-Holds e ws r a v small = elim (Bool-cases (overflows e.value a)) [
  | inr fits ↦
      rw (write_round_fits e a fits)
        (write_finish e ws r a v (ground (arith, overflows_iff e.value a v.facts.in_range small)))
  | inl over ↦ elim (Bool-cases e.nonblock) [
    | inl n ↦ rw (write_round_again e a over n) (unref-Holds e true ws r v)
    | inr b ↦ rw (write_round_waits e a over b) (record {
      held = omega (arith, v.held);
      positive = omega (arith, v.held);
      facts = record {
        blocked_writers = omega (arith, v.facts.blocked_writers);
        blocked_readers = v.facts.blocked_readers;
        open_while_linked = v.facts.open_while_linked;
        in_range = v.facts.in_range;
        reader_wakes = v.facts.reader_wakes;
        writer_wakes = (
          (small, λ q. (overflows_iff e.value a v.facts.in_range small).0 over),
          v.facts.writer_wakes,
        );
        writer_wakes_at_close = v.facts.writer_wakes_at_close;
      };
    })
  ]
]

pub write_enter-Holds :
    (e : Efd) (writers : List ℕ) (readers to_add : ℕ)
    → Inv e true writers readers
    → to_add < u64_mod
    → WriteHolds (write_enter e to_add) writers readers to_add
unfolding write_enter
write_enter-Holds e ws r a v small =
    write_round-Holds (efd_ref_locked e) ws r a (enter-Inside e ws r v) small

-- A blocked call holds a reference: taken off the list, it is inside.
woken_writer :
    (e : Efd) (linked : Bool) (before behind : List ℕ) (readers to_add : ℕ) (bit : Bool)
    → Inv e linked (before ++ (to_add ∷ behind)) readers
    → (bit ≡ e.dec_bit) ⊎ ((e.dec_waiters ≡ 1) × (linked ≡ true))
    → Inside
        (record e { dec_waiters = e.dec_waiters - 1; dec_bit = bit })
        linked
        (before ++ behind)
        readers
woken_writer e linked before behind r a bit v kept = record {
  held = omega (arith, v.held, length-remove before a behind);
  facts = record {
    blocked_writers = omega (arith, v.facts.blocked_writers, length-remove before a behind);
    blocked_readers = v.facts.blocked_readers;
    open_while_linked = v.facts.open_while_linked;
    in_range = v.facts.in_range;
    reader_wakes = v.facts.reader_wakes;
    writer_wakes = served kept;
    writer_wakes_at_close = closing kept;
  };
}
  where
    others : All (Served e.value e.dec_bit) (before ++ behind)
    others = (All-remove (Served e.value e.dec_bit) before a behind v.facts.writer_wakes).1

    served :
        (bit ≡ e.dec_bit) ⊎ ((e.dec_waiters ≡ 1) × (linked ≡ true))
        → All (Served e.value bit) (before ++ behind)
    served (inl same) = rw same others
    served (inr (one, _)) =
        rw
          (length-zero (before ++ behind)
            (omega (arith, v.facts.blocked_writers, length-remove before a behind)))
          tt

    closing :
        (bit ≡ e.dec_bit) ⊎ ((e.dec_waiters ≡ 1) × (linked ≡ true)) → e.closed ≡ true → bit ≡ true
    closing (inl same) q = rw same (v.facts.writer_wakes_at_close q)
    closing (inr (one, l)) q = absurd (ground (arith, v.facts.open_while_linked))

write_wake_closed :
    (e : Efd) (a : ℕ)
    → e.closed ≡ true
    → write_wake e a ≡ (efd_unref_locked (record e { dec_waiters = e.dec_waiters - 1 }), bad_fd)
unfolding write_wake
write_wake_closed e a h = ground arith

write_wake_open :
    (e : Efd) (a : ℕ)
    → e.closed ≡ false
    → write_wake e a
      ≡ write_round
          (record e {
            dec_waiters = e.dec_waiters - 1;
            dec_bit = if e.dec_waiters - 1 == 0 then false else e.dec_bit;
          })
          a
unfolding write_wake
write_wake_open e a h =
    ap
      (λ c.
        if c
        then (efd_unref_locked (record e { dec_waiters = e.dec_waiters - 1 }), bad_fd)
        else (write_round
            (record e {
              dec_waiters = e.dec_waiters - 1;
              dec_bit = if e.dec_waiters - 1 == 0 then false else e.dec_bit;
            })
            a))
      h

pub write_wake-Holds :
    (e : Efd) (linked : Bool) (before behind : List ℕ) (readers to_add : ℕ)
    → Inv e linked (before ++ (to_add ∷ behind)) readers
    → to_add < u64_mod
    → Holds
        (write_wake e to_add).0
        linked
        (block_writer (write_wake e to_add).1 to_add (before ++ behind))
        readers
write_wake-Holds e true before behind r a v small =
    rw (write_wake_open e a v.facts.open_while_linked) (
      write_round-Holds _ (before ++ behind) r a (woken_writer e true before behind r a _ v cleared)
        small)
  where
    cleared :
        ((if e.dec_waiters - 1 == 0 then false else e.dec_bit) ≡ e.dec_bit)
        ⊎ ((e.dec_waiters ≡ 1) × (◌≡◌ {A = Bool} true true))
    cleared = elim (ℕ_discrete e.dec_waiters 1) [
      | yes one ↦ inr (one, refl)
      | no n ↦ inl (ground (arith, v.facts.blocked_writers, length-remove before a behind))
    ]
write_wake-Holds e false before behind r a v small =
    rw (write_wake_closed e a v.facts.open_while_linked) (
      unref-Holds _ false (before ++ behind) r
        (woken_writer e false before behind r a e.dec_bit v (inl refl)))
