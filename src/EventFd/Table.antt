-- ===== src/EventFd/Table.antt =====
-- components/xsp_eventfd/xsp_eventfd.c: the table of eventfds, and select().
--
-- What a call does while it holds the table's lock. A slot has a file descriptor with its object, or
-- none where the source has -1 and NULL. The VFS's esp_vfs_register_fd, and whether memory is
-- allocated, are arguments; the VFS's own table has no part here.
use xsp.Prelude.{
  ℕ, zero, suc, ◌-◌, Bool, true, false, not, ◌&&◌, ◌||◌, List, [], ◌∷◌, Option, none, some, ltb,
  ◌==◌, if◌then◌else◌,
}
use xsp.Prelude.Int.{ℤ, pos, negsuc}
use xsp.Prelude.FdSet.{FdSet, has, assign}
use xsp.Esp.{EspErr, esp_ok, esp_err_invalid_arg, esp_err_invalid_state, esp_err_no_mem, is_ok}
use xsp.EventFd.{
  Efd, Next, u64_mod, create, close_locked, set_flags, get_flags, write_enter, read_enter,
}

abbrev pub Slot : Type 0
Slot = Option (ℕ × Efd)

-- The fields `select_...`, which are meaningful when `select_signal` is set: the copies of the sets, and
-- the caller's sets, which may be null.
pub record Select : Type 0 where
  pub readfds_in : FdSet
  pub writefds_in : FdSet
  pub readfds_out : Option FdSet
  pub writefds_out : Option FdSet

-- `xsp_eventfd_ctx_t`; `select` is none where `select_signal` is null.
pub record Ctx : Type 0 where
  pub eventfds : List Slot
  pub select : Option Select

pub data Errno : Type 0 where
  efault enomem enfile einval ebadf enosys : Errno

-- -1 with an errno, or a result.
pub data Answer (A : Type 0) : Type 0 where
  fails : Errno → Answer A
  returns : A → Answer A

abbrev pub max_num_eventfd : ℕ
max_num_eventfd = 4

abbrev pub free_slots : ℕ → List Slot
free_slots zero = []
free_slots (suc n) = none ∷ free_slots n

-- `xsp_eventfd_register`, the context.
unfoldable pub register : Ctx
register = record { eventfds = free_slots max_num_eventfd; select = none }

-- The walks of `efd_lookup_locked` and `efd_close_p` over the slots.
unfoldable pub find : List Slot → ℕ → Option Efd
find [] fd = none
find (none ∷ slots) fd = find slots fd
find (some (k, e) ∷ slots) fd = if k == fd then some e else find slots fd

unfoldable pub vacate : List Slot → ℕ → List Slot
vacate [] fd = []
vacate (none ∷ slots) fd = none ∷ vacate slots fd
vacate (some (k, e) ∷ slots) fd = if k == fd then none ∷ slots else some (k, e) ∷ vacate slots fd

-- The object of a descriptor is changed.
unfoldable pub change : (Efd → Efd) → List Slot → ℕ → List Slot
change f [] fd = []
change f (none ∷ slots) fd = none ∷ change f slots fd
change f (some (k, e) ∷ slots) fd =
    if k == fd then some (k, f e) ∷ slots else some (k, e) ∷ change f slots fd

-- The walk of `xsp_eventfd` to the first free slot, which is filled.
unfoldable pub fill : List Slot → ℕ → Efd → Option (List Slot)
fill [] fd e = none
fill (none ∷ slots) fd e = some (some (fd, e) ∷ slots)
fill (some slot ∷ slots) fd e = elim (fill slots fd e) [
  | none ↦ none
  | some rest ↦ some (some slot ∷ rest)
]

unfoldable pub efd_lookup_locked : Ctx → ℤ → Option Efd
efd_lookup_locked ctx (negsuc n) = none
efd_lookup_locked ctx (pos fd) = find ctx.eventfds fd

-- The errno for a failed esp_vfs_register_fd.
abbrev pub register_errno : EspErr → Errno
register_errno esp_err_invalid_arg = einval
register_errno esp_err_no_mem = enfile
register_errno _ = efault

-- `xsp_eventfd`, where the context exists: `allocated` says that both allocations succeed.
unfoldable pub xsp_eventfd : Ctx → ℕ → Bool → Bool → EspErr × ℕ → Ctx × Answer ℕ
xsp_eventfd ctx initval nonblock allocated (err, fd) =
    if not allocated
    then (ctx, fails enomem)
    else elim (fill ctx.eventfds fd (create initval nonblock)) [
      | none ↦ (ctx, fails enfile)
      | some slots ↦
          if is_ok err
          then (record ctx { eventfds = slots }, returns fd)
          else (ctx, fails (register_errno err))
    ]

-- `efd_close_p`, with what is left of the object.
unfoldable pub efd_close : Ctx → ℤ → Ctx × Answer (Option Efd)
efd_close ctx (negsuc n) = (ctx, fails ebadf)
efd_close ctx (pos fd) = elim (find ctx.eventfds fd) [
  | none ↦ (ctx, fails ebadf)
  | some e ↦ (record ctx { eventfds = vacate ctx.eventfds fd }, returns (close_locked e))
]

-- The commands of fcntl, with O_NONBLOCK of the argument of F_SETFL, and of ioctl, whose argument is a
-- null pointer or not.
pub data Fcntl : Type 0 where
  f_getfl : Fcntl
  f_setfl : Bool → Fcntl
  f_other : Fcntl

pub data Ioctl : Type 0 where
  ioctl_get_handle : Bool → Ioctl
  ioctl_other : Ioctl

-- The flags that F_GETFL returns are O_NONBLOCK or none.
unfoldable pub efd_fcntl : Ctx → ℤ → Fcntl → Ctx × Answer Bool
efd_fcntl ctx (negsuc n) cmd = (ctx, fails ebadf)
efd_fcntl ctx (pos fd) cmd = elim (find ctx.eventfds fd) [
  | none ↦ (ctx, fails ebadf)
  | some e ↦ elim cmd [
    | f_getfl ↦ (ctx, returns (get_flags e))
    | f_setfl nonblock ↦ (
      record ctx { eventfds = change (λ o. set_flags o nonblock) ctx.eventfds fd },
      returns false,
    )
    | f_other ↦ (ctx, fails enosys)
  ]
]

unfoldable pub efd_ioctl : Ctx → ℤ → Ioctl → Answer Efd
efd_ioctl ctx fd cmd = elim (efd_lookup_locked ctx fd) [
  | none ↦ fails ebadf
  | some e ↦ elim cmd [
    | ioctl_get_handle true ↦ returns e
    | ioctl_get_handle false ↦ fails einval
    | ioctl_other ↦ fails einval
  ]
]

-- How `efd_write_p` begins, with a buffer of `count` bytes that says `to_add`: it returns 8 at once, or
-- it goes on at the object.
unfoldable pub efd_write_begin : Ctx → ℤ → ℕ → ℕ → Answer (Option (Option Efd × Next))
efd_write_begin ctx fd count to_add =
    if ltb count 8
    then fails einval
    else if to_add == u64_mod - 1
    then fails einval
    else if to_add == 0
    then returns none
    else elim (efd_lookup_locked ctx fd) [
      | none ↦ fails ebadf
      | some e ↦ returns (some (write_enter e to_add))
    ]

unfoldable pub efd_read_begin : Ctx → ℤ → ℕ → Answer (Option Efd × Next)
efd_read_begin ctx fd count =
    if ltb count 8
    then fails einval
    else elim (efd_lookup_locked ctx fd) [ none ↦ fails ebadf | some e ↦ returns (read_enter e) ]

abbrev pub is_readable : Efd → Bool
is_readable e = ltb 0 e.value

abbrev pub is_writable : Efd → Bool
is_writable e = ltb e.value (u64_mod - 1)

-- The walk of `maybe_signal_select_locked`.
unfoldable pub any_ready : Select → List Slot → Bool
any_ready sel [] = false
any_ready sel (none ∷ slots) = any_ready sel slots
any_ready sel (some (fd, e) ∷ slots) =
    (has fd sel.readfds_in && is_readable e)
    || (has fd sel.writefds_in && is_writable e)
    || any_ready sel slots

-- Whether `maybe_signal_select` signals the waiting select().
unfoldable pub maybe_signal_select : Ctx → Bool
maybe_signal_select ctx = elim ctx.select [ none ↦ false | some sel ↦ any_ready sel ctx.eventfds ]

-- The walks of `efd_start_select` and `efd_end_select` that set the flag of each object watched.
unfoldable pub set_active : Bool → Select → List Slot → List Slot
set_active b sel [] = []
set_active b sel (none ∷ slots) = none ∷ set_active b sel slots
set_active b sel (some (fd, e) ∷ slots) =
    some (
      fd,
      if has fd sel.readfds_in || has fd sel.writefds_in then record e { select_active = b } else e,
    )
    ∷ set_active b sel slots

abbrev pub copy_of : Option FdSet → FdSet
copy_of none = []
copy_of (some fds) = fds

abbrev pub selecting : Option FdSet → Option FdSet → Select
selecting readfds writefds = record {
  readfds_in = copy_of readfds;
  writefds_in = copy_of writefds;
  readfds_out = readfds;
  writefds_out = writefds;
}

abbrev pub start : Ctx → Select → Ctx
start ctx sel = record { eventfds = set_active true sel ctx.eventfds; select = some sel }

-- `efd_start_select`, where the context exists and `signal_sem` is given, and whether it signals.
unfoldable pub start_select : Ctx → Option FdSet → Option FdSet → EspErr × Ctx × Bool
start_select ctx readfds writefds = elim ctx.select [
  | some sel ↦ (esp_err_invalid_state, ctx, false)
  | none ↦ (
    esp_ok,
    start ctx (selecting readfds writefds),
    maybe_signal_select (start ctx (selecting readfds writefds)),
  )
]

-- What `efd_end_select` writes to one of the caller's sets; `none` where it follows a null pointer.
unfoldable pub collect : (Efd → Bool) → List Slot → FdSet → Option FdSet → Option (Option FdSet)
collect ready [] watched out = some out
collect ready (none ∷ slots) watched out = collect ready slots watched out
collect ready (some (fd, e) ∷ slots) watched none =
    let rest = collect ready slots watched none in if has fd watched then none else rest
collect ready (some (fd, e) ∷ slots) watched (some fds) =
    collect ready slots watched (some (if has fd watched then assign fd (ready e) fds else fds))

-- The rest of `efd_end_select`, with the caller's sets.
abbrev pub end_selected :
    List Slot
    → Select
    → Option (Option FdSet)
    → Option (Option FdSet)
    → Option (Ctx × Option FdSet × Option FdSet)
end_selected slots sel none writefds = none
end_selected slots sel (some readfds) none = none
end_selected slots sel (some readfds) (some writefds) =
    some (record { eventfds = set_active false sel slots; select = none }, readfds, writefds)

-- `efd_end_select`, with the caller's sets behind it; `none` where an assertion fails.
unfoldable pub end_select : Ctx → Option (Ctx × Option FdSet × Option FdSet)
end_select ctx = elim ctx.select [
  | none ↦ none
  | some sel ↦
      end_selected ctx.eventfds sel
        (collect is_readable ctx.eventfds sel.readfds_in sel.readfds_out)
        (collect is_writable ctx.eventfds sel.writefds_in sel.writefds_out)
]
