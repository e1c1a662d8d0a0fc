-- ===== src/Client/Session/Lives.antt =====
-- The memory of a client of components/xsp_ws_client/xsp_ws_client.c over its life.
use xsp.Prelude.{
  ℕ, zero, suc, ◌+◌, ◌-◌, ◌≤◌, ◌≡◌, refl, ap, Bool, List, [], ◌∷◌, ◌++◌, Option, none, some, arith,
  length, All,
}
use mathlib.Core.Path.{subst}
use xsp.Client.{Transport, Client, poll_write, poll_read}
use xsp.Client.Read.{Frame, read_frame}
use xsp.Client.Write.{write_frame, write_close_frame}
use xsp.Client.Frees.{
  held, Conserves, After, AfterRead, read_frame-Conserves, write_frame-Conserves,
  write_close_frame-Conserves, poll_write-Conserves, poll_read-Conserves,
}
use xsp.Esp.{EspErr}
use xsp.Client.Session.{Session, Config, Memory, Tried, init, cleanup, close, data_of}
use xsp.Client.Url.{url_size, IsChar}
use xsp.Client.Session.Made.{Makes, Gives, init-Makes}
use xsp.Client.Session.Open.{HttpClient, Setting, Room, Opening, open_client}
use xsp.Client.Session.Ledger.{count-owned, owned, owned_by}
use xsp.Client.Session.Balance.{IsBare, close-IsBare, close-Balances, open_client-Balances}
use xsp.Prelude.Count.{Balances, count, count-append}

-- So many times one address.
abbrev pub copies : ℕ → ℕ → List ℕ
copies zero address = []
copies (suc n) address = address ∷ copies n address

-- What is freed more often is the block that is gone.
count-data_of :
    (x address m n : ℕ) (o o' : Option (List ℕ))
    → held o' + n ≡ held o + m
    → m ≤ n
    → count x (data_of o address) ≡ count x (data_of o' address) + count x (copies (n - m) address)
count-data_of x address m n none none e h =
    omega (arith, ap (λ k. count x (copies k address)) (none_more m n e))
  where
    none_more : (m n : ℕ) → 0 + n ≡ 0 + m → 0 ≡ n - m
    none_more m n e = omega (arith, e)
count-data_of x address m n none (some b) e h = absurd (omega (arith, e, h))
count-data_of x address m n (some b) none e h =
    omega (arith, ap (λ k. count x (copies k address)) (one_more m n e))
  where
    one_more : (m n : ℕ) → 0 + n ≡ 1 + m → 1 ≡ n - m
    one_more m n e = omega (arith, e)
count-data_of x address m n (some a) (some b) e h =
    omega (arith, ap (λ k. count x (copies k address)) (none_more m n e))
  where
    none_more : (m n : ℕ) → 1 + n ≡ 1 + m → 0 ≡ n - m
    none_more m n e = omega (arith, e)

held_none : (o : Option (List ℕ)) → held o ≡ 0 → o ≡ none
held_none none e = refl
held_none (some b) e = absurd (omega (arith, e))

-- Whether the client may be opened: it was just made or closed.
pub data Phase : Type 0 where
  idle in_use : Phase

module _ {T : Type 0} (transport : Transport T) (buffer_size : ℕ) where
  -- The calls for frames, with the client before and behind them.
  pub data Call : Client T → Client T → Type 0 where
    reading :
        (before after : Client T) (size : ℕ) (err : EspErr) (frame : Frame)
        → read_frame transport before size ≡ some (err, frame, after)
        → Call before after
    writing :
        (before after : Client T) (fin : Bool) (opcode : ℕ) (payload key : List ℕ) (err : EspErr)
        → write_frame transport buffer_size before fin opcode payload key ≡ some (err, after)
        → Call before after
    closing :
        (before after : Client T) (status : ℕ) (reason key : List ℕ) (err : EspErr)
        → write_close_frame transport buffer_size before status reason key ≡ some (err, after)
        → Call before after
    polling_write : (before : Client T) → Call before (poll_write transport before).1
    polling_read : (before : Client T) → Call before (poll_read transport before).1

  Call-Conserves : (before after : Client T) → Call before after → Conserves before after
  Call-Conserves before after (reading c c' size err frame e) =
      subst (AfterRead c) e (read_frame-Conserves transport c size)
  Call-Conserves before after (writing c c' fin opcode payload key err e) =
      subst (After c) e (write_frame-Conserves transport buffer_size c fin opcode payload key)
  Call-Conserves before after (closing c c' status reason key err e) =
      subst (After c) e (write_close_frame-Conserves transport buffer_size c status reason key)
  Call-Conserves before after (polling_write c) = poll_write-Conserves transport c
  Call-Conserves before after (polling_read c) = poll_read-Conserves transport c

  -- What a call has freed of a client's memory.
  abbrev pub freed_by : Session T → Client T → List ℕ
  freed_by s after = copies (after.overread_frees - s.client.overread_frees) s.overread_address

  Call-Balances :
      (s : Session T) (after : Client T)
      → Call s.client after
      → Balances (owned s) [] (owned (record s { client = after })) (freed_by s after)
  Call-Balances s after call x =
      let k = Call-Conserves s.client after call in
      omega (
        arith,
        count-owned x s,
        count-owned x (record s { client = after }),
        count-data_of x s.overread_address s.client.overread_frees after.overread_frees
            s.client.overread_data after.overread_data k.conserved k.grows,
      )

  call-IsBare :
      (s : Session T) (after : Client T)
      → Call s.client after
      → IsBare s
      → IsBare (record s { client = after })
  call-IsBare s after call bare =
      let k = Call-Conserves s.client after call in
      record {
        no_response = bare.no_response;
        no_overread_data =
            held_none after.overread_data
              (omega (arith, k.conserved, k.grows, ap held bare.no_overread_data));
      }

module _ {H T : Type 0} (ops : HttpClient H T) (transport : Transport T) (buffer_size : ℕ) where
  -- The calls of a client so far, with all that they allocated and freed: `xsp_ws_client_init`, then
  -- `xsp_ws_client_open`, with any outcome, once behind that and once behind each
  -- `xsp_ws_client_close`; and at any time the calls for frames, and `xsp_ws_client_close`.
  pub data Life : Phase → Session T → List ℕ → List ℕ → Type 0 where
    made :
        (url : List ℕ) (config : Config) (memory : Memory) (tried : Tried T) (s : Session T)
        → All IsChar url
        → length memory.url_block ≡ url_size url
        → config.url ≡ some url
        → init (some config) memory ≡ some tried
        → tried.session ≡ some s
        → Life idle s tried.allocated tried.freed
    open_idle :
        (setting : Setting) (room : Room) (h : H) (s : Session T) (allocated freed : List ℕ)
        (o : Opening H T)
        → Life idle s allocated freed
        → open_client ops setting room s h ≡ some o
        → Life in_use o.session (o.allocated ++ allocated) (o.freed ++ freed)
    called :
        (phase : Phase) (s : Session T) (after : Client T) (allocated freed : List ℕ)
        → Life phase s allocated freed
        → Call transport buffer_size s.client after
        → Life phase
            (record s { client = after })
            allocated
            (freed_by transport buffer_size s after ++ freed)
    closed :
        (phase : Phase) (s : Session T) (allocated freed : List ℕ)
        → Life phase s allocated freed
        → Life idle (close s).1 allocated ((close s).2 ++ freed)

  made-Makes :
      (url : List ℕ) (config : Config) (memory : Memory) (tried : Tried T) (s : Session T)
      → All IsChar url
      → length memory.url_block ≡ url_size url
      → config.url ≡ some url
      → init (some config) memory ≡ some tried
      → Makes T url config memory (some tried)
  made-Makes url config memory tried s chars size given e =
      subst (Makes T url config memory) e (init-Makes T url config memory chars size given)

  abbrev BareIfIdle : Phase → Session T → Type 0
  BareIfIdle idle s = IsBare s
  BareIfIdle in_use s = Unit

  called-BareIfIdle :
      (phase : Phase) (s : Session T) (after : Client T)
      → Call transport buffer_size s.client after
      → BareIfIdle phase s
      → BareIfIdle phase (record s { client = after })
  called-BareIfIdle idle s after call bare = call-IsBare transport buffer_size s after call bare
  called-BareIfIdle in_use s after call bare = tt

  Life-BareIfIdle :
      (phase : Phase) (s : Session T) (allocated freed : List ℕ)
      → Life phase s allocated freed
      → BareIfIdle phase s
  Life-BareIfIdle phase s allocated freed (made url config memory tried t chars size given e e') =
      let fresh =
        subst (Gives T url config memory) e'
          (made-Makes url config memory tried t chars size given e).0 in
      record {
        no_response = fresh.no_response;
        no_overread_data = ap (λ (c : Client T). c.overread_data) fresh.unused;
      }
  Life-BareIfIdle phase s allocated freed (open_idle setting room h t a f o l e) = tt
  Life-BareIfIdle phase s allocated freed (called p t after a f l call) =
      called-BareIfIdle p t after call (Life-BareIfIdle p t a f l)
  Life-BareIfIdle phase s allocated freed (closed p t a f l) = close-IsBare t

  Life-Balances :
      (phase : Phase) (s : Session T) (allocated freed : List ℕ)
      → Life phase s allocated freed
      → Balances [] allocated (owned s) freed
  Life-Balances phase s allocated freed (made url config memory tried t chars size given e e') =
      λ x. omega (
        arith,
        (made-Makes url config memory tried t chars size given e).1 x,
        ap (λ o. count x (owned_by o)) e',
      )
  Life-Balances phase s allocated freed (open_idle setting room h t a f o l e) = λ x. omega (
    arith,
    Life-Balances idle t a f l x,
    open_client-Balances ops setting room t h o (Life-BareIfIdle idle t a f l) e x,
    count-append x o.allocated a,
    count-append x o.freed f,
  )
  Life-Balances phase s allocated freed (called p t after a f l call) = λ x. omega (
    arith,
    Life-Balances p t a f l x,
    Call-Balances transport buffer_size t after call x,
    count-append x (freed_by transport buffer_size t after) f,
  )
  Life-Balances phase s allocated freed (closed p t a f l) = λ x.
      omega (arith, Life-Balances p t a f l x, close-Balances t x, count-append x (close t).2 f)

  -- However a client was made, opened, used and closed, if `xsp_ws_client_close` was called between any
  -- two calls of `xsp_ws_client_open`, then `xsp_ws_client_cleanup` leaves none of its memory allocated
  -- and frees nothing twice: every address was freed as often as it was allocated.
  pub cleanup_frees_all :
      (phase : Phase) (s : Session T) (allocated freed : List ℕ) (x : ℕ)
      → Life phase s allocated freed
      → count x allocated ≡ count x ((cleanup s).1 ++ freed)
  cleanup_frees_all phase s allocated freed x l =
      omega (arith, Life-Balances phase s allocated freed l x, count-append x (cleanup s).1 freed)
