-- ===== src/EventFd/Invariant.antt =====
-- What holds of an eventfd between the critical sections of xsp_eventfd.c: who holds references,
-- who is counted as waiting, and which event bits are set.
use xsp.Prelude.{
  ℕ, ◌+◌, ◌≤◌, ◌<◌, ◌≡◌, refl, Bool, true, false, not, List, [], ◌∷◌, ◌++◌, Option, none, some,
  arith, if◌then◌else◌, length, All, ltb, ◌%◌, ==-eq_false,
}
use native.Mathlib.Decide.{ℕ_discrete}
use native.Mathlib.Nat.{le_trans}
use xsp.EventFd.{u64_mod, Efd, efd_unref_locked}

abbrev pub count : Bool → ℕ
count true = 1
count false = 0

-- A blocked write either does not fit yet, or the bit that it waits for is set.
abbrev pub Served : ℕ → Bool → ℕ → Type 0
Served value bit to_add = (to_add < u64_mod) × ((bit ≡ false) → u64_mod ≤ value + to_add)

-- What holds inside a critical section too, but for the reference count.
pub record Facts (e : Efd) (linked : Bool) (writers : List ℕ) (readers : ℕ) : Type 0 where
  pub blocked_writers : e.dec_waiters ≡ length writers
  pub blocked_readers : e.inc_waiters ≡ readers
  pub open_while_linked : e.closed ≡ not linked
  pub in_range : e.value < u64_mod
  pub reader_wakes : 0 < readers → e.inc_bit ≡ false → (e.value ≡ 0) × (e.closed ≡ false)
  pub writer_wakes : All (Served e.value e.dec_bit) writers
  pub writer_wakes_at_close : e.closed ≡ true → e.dec_bit ≡ true

-- Between the critical sections: the descriptor and each blocked call hold one reference.
pub record Inv (e : Efd) (linked : Bool) (writers : List ℕ) (readers : ℕ) : Type 0 where
  pub held : e.refcount ≡ count linked + length writers + readers
  pub positive : 0 < e.refcount
  pub facts : Facts e linked writers readers

abbrev pub Holds : Option Efd → Bool → List ℕ → ℕ → Type 0
Holds none linked writers readers = (linked ≡ false) × (writers ≡ []) × (readers ≡ 0)
Holds (some e) linked writers readers = Inv e linked writers readers

-- Inside a call, which holds one more.
pub record Inside (e : Efd) (linked : Bool) (writers : List ℕ) (readers : ℕ) : Type 0 where
  pub held : e.refcount ≡ 1 + (count linked + length writers + readers)
  pub facts : Facts e linked writers readers

pub length-zero : (xs : List ℕ) → length xs ≡ 0 → xs ≡ []
length-zero [] h = refl
length-zero (x ∷ xs) h = absurd (omega arith)

unheld :
    (linked : Bool) (writers : List ℕ) (readers : ℕ)
    → count linked + length writers + readers ≡ 0
    → (linked ≡ false) × (writers ≡ []) × (readers ≡ 0)
unheld true ws r h = absurd (omega arith)
unheld false [] r h = (refl, refl, omega arith)
unheld false (w ∷ ws) r h = absurd (omega arith)

-- Giving up a reference: the object lives on exactly while something else holds it.
pub unref-Holds :
    (e : Efd) (linked : Bool) (writers : List ℕ) (readers : ℕ)
    → Inside e linked writers readers
    → Holds (efd_unref_locked e) linked writers readers
unfolding efd_unref_locked
unref-Holds e linked writers readers v = elim (ℕ_discrete e.refcount 1) [
  | yes one ↦ rw one (unheld linked writers readers (omega (arith, v.held)))
  | no more ↦ rw (==-eq_false e.refcount 1 more) (record {
    held = omega (arith, v.held);
    positive = omega (arith, v.held);
    facts = record {
      blocked_writers = v.facts.blocked_writers;
      blocked_readers = v.facts.blocked_readers;
      open_while_linked = v.facts.open_while_linked;
      in_range = v.facts.in_range;
      reader_wakes = v.facts.reader_wakes;
      writer_wakes = v.facts.writer_wakes;
      writer_wakes_at_close = v.facts.writer_wakes_at_close;
    };
  })
]

pub All-mono : {P Q : ℕ → Type 0} (xs : List ℕ) → ((a : ℕ) → P a → Q a) → All P xs → All Q xs
All-mono [] f h = tt
All-mono (x ∷ xs) f h = (f x h.0, All-mono xs f h.1)

pub All-remove :
    (P : ℕ → Type 0) (xs : List ℕ) (a : ℕ) (ys : List ℕ)
    → All P (xs ++ (a ∷ ys))
    → P a × All P (xs ++ ys)
All-remove P [] a ys h = h
All-remove P (x ∷ xs) a ys h = let (ha, hs) = All-remove P xs a ys h.1 in (ha, (h.0, hs))

pub length-remove :
    (xs : List ℕ) (a : ℕ) (ys : List ℕ) → length (xs ++ (a ∷ ys)) ≡ 1 + length (xs ++ ys)
length-remove [] a ys = omega arith
length-remove (x ∷ xs) a ys = omega (arith, length-remove xs a ys)

-- More in the counter leaves a write that does not fit unfit.
pub Served-more : (v w a : ℕ) (bit : Bool) → v ≤ w → Served v bit a → Served w bit a
Served-more v w a bit h s = (s.0, λ q. le_trans (s.1 q) (omega arith))

pub write_finish :
    (e : Efd) (writers : List ℕ) (readers to_add : ℕ)
    → Inside e true writers readers
    → e.value + to_add < u64_mod
    → Holds
        (efd_unref_locked (record e {
          value = (e.value + to_add) % u64_mod;
          inc_bit = if ltb 0 e.inc_waiters then true else e.inc_bit;
        }))
        true
        writers
        readers
write_finish e writers readers to_add v fits = unref-Holds _ true writers readers (record {
  held = v.held;
  facts = record {
    blocked_writers = v.facts.blocked_writers;
    blocked_readers = v.facts.blocked_readers;
    open_while_linked = v.facts.open_while_linked;
    in_range = omega arith;
    reader_wakes = λ pos unset. absurd (ground (arith, v.facts.blocked_readers));
    writer_wakes =
        All-mono writers (λ a. Served-more e.value _ a e.dec_bit (omega arith))
          v.facts.writer_wakes;
    writer_wakes_at_close = v.facts.writer_wakes_at_close;
  };
})
