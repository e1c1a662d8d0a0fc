-- ===== src/Client/Session/Balance.antt =====
-- The memory that opening and closing a client of components/xsp_ws_client/xsp_ws_client.c moves.
use xsp.Prelude.{ℕ, ◌≡◌, refl, List, [], Option, none, some, arith}
use mathlib.Core.Path.{subst}
use xsp.Client.Session.{Session, cleanup, close, address_of, overread_of}
use xsp.Client.Session.Open.{HttpClient, Setting, Room, Opening, open_client, with_overread}
use xsp.Client.Session.Open.Exits.{
  Exit, busy, no_client, no_header, no_answer, no_data, no_room, no_transport, opened, Buffered,
  no_overread, overread, read_too_much, open_client-Exit, replied,
}
use xsp.Client.Session.Ledger.{count-owned, owned}
use xsp.Prelude.Count.{Balances, count, count-append}

module _ {T : Type 0} where
  -- A client that holds no response subprotocols and no overread data.
  pub record IsBare (s : Session T) : Type 0 where
    pub no_response : s.response_subprotocols ≡ none
    pub no_overread_data : s.client.overread_data ≡ none

  bare_response :
      (x : ℕ) (s : Session T) → IsBare s → count x (address_of s.response_subprotocols) ≡ 0
  bare_response x s bare = rw bare.no_response refl

  bare_overread :
      (x : ℕ) (s : Session T) → IsBare s → count x (overread_of s.client s.overread_address) ≡ 0
  bare_overread x s bare = rw bare.no_overread_data refl

  pub close-IsBare : (s : Session T) → IsBare (close s).1
  unfolding close
  close-IsBare s = record { no_response = refl; no_overread_data = refl }

  pub close-Balances : (s : Session T) → Balances (owned s) [] (owned (close s).1) (close s).2
  unfolding close
  close-Balances s x = omega (
    arith,
    count-owned x s,
    count-owned x (close s).1,
    count-append x (address_of s.response_subprotocols) (overread_of s.client s.overread_address),
  )

module _ {H T : Type 0} (ops : HttpClient H T) (setting : Setting) (room : Room) (s : Session T)
    (h : H) where
  abbrev OpenBalances : Option (Opening H T) → Type 0
  OpenBalances none = Unit
  OpenBalances (some o) = Balances (owned s) o.allocated (owned o.session) o.freed

  Buffered-Balances :
      (s' : Session T) (allocated : List ℕ)
      → IsBare s
      → Buffered ops setting room s h s' allocated
      → Balances (owned s) allocated (owned s') []
  Buffered-Balances s' allocated bare (no_overread e) = λ x.
      omega (
        arith,
        count-owned x s,
        count-owned x (replied ops setting room s h),
        bare_response x s bare,
      )
  Buffered-Balances s' allocated bare (overread address e e') = λ x. omega (
    arith,
    count-owned x s,
    count-owned x (
        with_overread (replied ops setting room s h) address
          (read_too_much ops setting room s h).2),
    bare_response x s bare,
    bare_overread x s bare,
  )

  Exit-Balances :
      (o : Option (Opening H T)) → IsBare s → Exit ops setting room s h o → OpenBalances o
  unfolding cleanup
  Exit-Balances o bare (busy e) = λ x. omega arith
  Exit-Balances o bare (no_client e) = λ x. omega arith
  Exit-Balances o bare (no_header e e') = λ x. omega arith
  Exit-Balances o bare (no_answer err e e') = λ x. omega arith
  Exit-Balances o bare (no_data a) = λ x.
      omega (
        arith,
        count-owned x s,
        count-owned x (replied ops setting room s h),
        bare_response x s bare,
      )
  Exit-Balances o bare (no_room e) = tt
  Exit-Balances o bare (no_transport s' allocated a b e) = Buffered-Balances s' allocated bare b
  Exit-Balances o bare (opened s' allocated a b e) = Buffered-Balances s' allocated bare b

  pub open_client-Balances :
      (o : Opening H T)
      → IsBare s
      → open_client ops setting room s h ≡ some o
      → Balances (owned s) o.allocated (owned o.session) o.freed
  open_client-Balances o bare e =
      subst OpenBalances e (Exit-Balances _ bare (open_client-Exit ops setting room s h))
