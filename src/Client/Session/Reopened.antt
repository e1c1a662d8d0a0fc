-- ===== src/Client/Session/Reopened.antt =====
-- A client of components/xsp_ws_client/xsp_ws_client.c that is closed and opened again.
use xsp.Prelude.{ℕ, ◌≡◌, refl, true, List, Option, none, some, arith, ltb, length}
use mathlib.Core.Path.{subst}
use xsp.Esp.{is_ok}
use xsp.Client.{Client, state_ok, has_buffered_read_data}
use xsp.Client.Total.{is_given}
use xsp.Client.Session.{Session, close}
use xsp.Client.Session.Open.{HttpClient, Setting, Room, Opening, open_client}
use xsp.Client.Session.Open.Exits.{
  Exit, busy, no_client, no_header, no_answer, no_data, no_room, no_transport, opened, Buffered,
  no_overread, overread, open_client-Exit, read_too_much,
}

-- Data that is reported, and that is not there.
abbrev pub IsStale : {T : Type 0} → Client T → Type 0
IsStale client = (has_buffered_read_data client ≡ true) × (client.overread_data ≡ none)

module _ {H T : Type 0} (ops : HttpClient H T) (setting : Setting) (room : Room) (s : Session T)
    (h : H) where
  -- What was read too much now.
  abbrev pub now : List ℕ
  now = (read_too_much ops setting room (close s).1 h).2

  abbrev Stale : Option (Opening H T) → Type 0
  Stale none = Unit
  Stale (some o) = is_ok o.err ≡ true → IsStale o.session.client

  reports :
      (t : Option T) (client : Client T)
      → is_given t ≡ true
      → ltb client.overread_consumed client.overread_size ≡ true
      → has_buffered_read_data (record client { transport = t; state = state_ok }) ≡ true
  unfolding has_buffered_read_data
  reports none client given more = absurd (ground (arith, given))
  reports (some t) client given more = more

  -- Closing frees the block, and keeps the two counts.
  kept :
      (s' : Session T) (allocated : List ℕ)
      → ltb s.client.overread_consumed s.client.overread_size ≡ true
      → length now ≡ 0
      → Buffered ops setting room (close s).1 h s' allocated
      → (ltb s'.client.overread_consumed s'.client.overread_size ≡ true)
        × (s'.client.overread_data ≡ none)
  unfolding close
  kept s' allocated more nothing (no_overread e) = (more, refl)
  kept s' allocated more nothing (overread address e e') = absurd (ground (arith, e', nothing))

  Exit-Stale :
      (o : Option (Opening H T))
      → ((h : H)
          → is_ok (ops.extract_transport h).1 ≡ true
          → is_given (ops.extract_transport h).2 ≡ true)
      → ltb s.client.overread_consumed s.client.overread_size ≡ true
      → length now ≡ 0
      → Exit ops setting room (close s).1 h o
      → Stale o
  unfolding close
  Exit-Stale o gives more nothing (busy e) = λ ok. absurd (ground (arith, ok))
  Exit-Stale o gives more nothing (no_client e) = λ ok. absurd (ground (arith, ok))
  Exit-Stale o gives more nothing (no_header e e') = λ ok. absurd (ground (arith, ok, e'))
  Exit-Stale o gives more nothing (no_answer err e e') = λ ok. absurd (ground (arith, ok, e'))
  Exit-Stale o gives more nothing (no_data a) = λ ok. absurd (ground (arith, ok))
  Exit-Stale o gives more nothing (no_room e) = tt
  Exit-Stale o gives more nothing (no_transport s' allocated a b e) =
      λ ok. absurd (ground (arith, ok, e))
  Exit-Stale o gives more nothing (opened s' allocated a b e) = λ ok.
      let (left, none_now) = kept s' allocated more nothing b in
      (reports _ s'.client (gives _ e) left, none_now)

  -- When a client is closed before all that the handshake read too much was consumed, and is opened
  -- again by a handshake that reads nothing too much, then it reports buffered data that does not
  -- exist. It is assumed that esp_http_client_extract_transport gives a transport when it returns
  -- ESP_OK.
  pub reopened-IsStale :
      (o : Opening H T)
      → ((h : H)
          → is_ok (ops.extract_transport h).1 ≡ true
          → is_given (ops.extract_transport h).2 ≡ true)
      → ltb s.client.overread_consumed s.client.overread_size ≡ true
      → length now ≡ 0
      → open_client ops setting room (close s).1 h ≡ some o
      → is_ok o.err ≡ true
      → IsStale o.session.client
  reopened-IsStale o gives more nothing e =
      subst Stale e
        (Exit-Stale _ gives more nothing (open_client-Exit ops setting room (close s).1 h))
