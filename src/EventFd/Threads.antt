-- ===== src/EventFd/Threads.antt =====
-- Threads at one eventfd of components/xsp_eventfd/xsp_eventfd.c: which calls are blocked, and every
-- order in which the critical sections can follow one another.
use xsp.Prelude.{
  ℕ, ◌+◌, ◌<◌, ◌≡◌, Bool, true, false, List, [], ◌∷◌, ◌++◌, Option, some, if◌then◌else◌,
}
use xsp.EventFd.{
  u64_mod, Efd, create, Next, waits, write_enter, write_wake, read_enter, read_wake, handle_write,
  close_locked, set_flags,
}

-- The object, whether its descriptor is still in the table, what each blocked write adds, and how
-- many reads are blocked.
pub record System : Type 0 where
  pub object : Option Efd
  pub linked : Bool
  pub writers : List ℕ
  pub readers : ℕ

abbrev pub is_waiting : Next → Bool
is_waiting waits = true
is_waiting _ = false

abbrev pub block_writer : Next → ℕ → List ℕ → List ℕ
block_writer n to_add ws = if is_waiting n then to_add ∷ ws else ws

abbrev pub block_reader : Next → ℕ → ℕ
block_reader n r = if is_waiting n then r + 1 else r

-- One critical section. A blocked call may wake whenever, its event bit set or not: this covers
-- each moment at which xEventGroupWaitBits can return. A call by descriptor finds the object in the
-- table; one by handle needs only the object.
pub data Step (s t : System) : Type 0 where
  write :
      (e : Efd) (to_add : ℕ)
      → s.object ≡ some e
      → s.linked ≡ true
      → 0 < to_add
      → to_add + 1 < u64_mod
      → t ≡ record s {
        object = (write_enter e to_add).0;
        writers = block_writer (write_enter e to_add).1 to_add s.writers;
      }
      → Step s t
  wake_writer :
      (e : Efd) (to_add : ℕ) (before behind : List ℕ)
      → s.object ≡ some e
      → s.writers ≡ before ++ (to_add ∷ behind)
      → t ≡ record s {
        object = (write_wake e to_add).0;
        writers = block_writer (write_wake e to_add).1 to_add (before ++ behind);
      }
      → Step s t
  read :
      (e : Efd)
      → s.object ≡ some e
      → s.linked ≡ true
      → t
        ≡ record s { object = (read_enter e).0; readers = block_reader (read_enter e).1 s.readers }
      → Step s t
  wake_reader :
      (e : Efd) (others : ℕ)
      → s.object ≡ some e
      → s.readers ≡ others + 1
      → t ≡ record s { object = (read_wake e).0; readers = block_reader (read_wake e).1 others }
      → Step s t
  write_by_handle :
      (e : Efd) (to_add : ℕ)
      → s.object ≡ some e
      → to_add < u64_mod
      → t ≡ record s { object = some (handle_write e to_add).0 }
      → Step s t
  close :
      (e : Efd)
      → s.object ≡ some e
      → s.linked ≡ true
      → t ≡ record s { object = close_locked e; linked = false }
      → Step s t
  set_nonblock :
      (e : Efd) (nonblock : Bool)
      → s.object ≡ some e
      → s.linked ≡ true
      → t ≡ record s { object = some (set_flags e nonblock) }
      → Step s t
  -- `efd_start_select` and `efd_end_select` set the flag and clear it.
  select :
      (e : Efd) (active : Bool)
      → s.object ≡ some e
      → s.linked ≡ true
      → t ≡ record s { object = some (record e { select_active = active }) }
      → Step s t

abbrev pub start : ℕ → Bool → System
start initval nonblock = record {
  object = some (create initval nonblock);
  linked = true;
  writers = [];
  readers = 0;
}

pub data Reach (initval : ℕ) (nonblock : Bool) : System → Type 0 where
  here : Reach initval nonblock (start initval nonblock)
  next : {s t : System} → Reach initval nonblock s → Step s t → Reach initval nonblock t
