-- ===== src/Client/Handshake.antt =====
-- components/xsp_ws_client/xsp_ws_client.c: the response headers of the handshake.
--
-- strcasecmp and strdup are the C library's: arguments, the first as a test for equality.
use xsp.Prelude.{
  ℕ, ◌≡◌, refl, ◌⊎◌, inl, inr, Bool, true, false, not, ◌&&◌, ◌||◌, List, [], ◌∷◌, Option, none,
  some, arith, if◌then◌else◌,
}
use mathlib.Core.Path.{subst, ◌∙◌}
use xsp.Esp.{EspErr, esp_ok, esp_fail}

-- `http_connection_context_t`, once it is enabled.
pub record Context : Type 0 where
  pub expected_sec_websocket_accept : List ℕ
  pub allow_sec_websocket_protocol : Bool
  pub encountered_error : Bool
  pub got_upgrade : Bool
  pub got_connection : Bool
  pub got_sec_websocket_accept : Bool
  pub got_sec_websocket_protocol : Option (List ℕ)

-- `esp_http_client_event_t`; those that are only logged are one.
pub data Event : Type 0 where
  logged disconnected : Event
  on_header : List ℕ → List ℕ → Event

-- The names and values, in ASCII.
pub record Strings : Type 0 where
  pub upgrade : List ℕ
  pub websocket : List ℕ
  pub connection : List ℕ
  pub sec_websocket_accept : List ℕ
  pub sec_websocket_protocol : List ℕ

abbrev pub refuse : Context → EspErr × Context
refuse ctx = (esp_fail, record ctx { encountered_error = true })

abbrev pub strings : Strings
strings = record {
  upgrade = 85 ∷ 112 ∷ 103 ∷ 114 ∷ 97 ∷ 100 ∷ 101 ∷ [];
  websocket = 119 ∷ 101 ∷ 98 ∷ 115 ∷ 111 ∷ 99 ∷ 107 ∷ 101 ∷ 116 ∷ [];
  connection = 67 ∷ 111 ∷ 110 ∷ 110 ∷ 101 ∷ 99 ∷ 116 ∷ 105 ∷ 111 ∷ 110 ∷ [];
  sec_websocket_accept =
      83 ∷ 101 ∷ 99 ∷ 45 ∷ 87 ∷ 101 ∷ 98 ∷ 83 ∷ 111 ∷ 99 ∷ 107 ∷ 101 ∷ 116 ∷ 45 ∷ 65 ∷ 99 ∷ 99 ∷ 101
      ∷ 112 ∷ 116 ∷ [];
  sec_websocket_protocol =
      83 ∷ 101 ∷ 99 ∷ 45 ∷ 87 ∷ 101 ∷ 98 ∷ 83 ∷ 111 ∷ 99 ∷ 107 ∷ 101 ∷ 116 ∷ 45 ∷ 80 ∷ 114 ∷ 111
      ∷ 116 ∷ 111 ∷ 99 ∷ 111 ∷ 108 ∷ [];
}

-- The test of `xsp_ws_client_open` behind the request.
abbrev pub is_accepted : Context → Bool
is_accepted ctx =
    not ctx.encountered_error
    && (ctx.got_upgrade && (ctx.got_connection && ctx.got_sec_websocket_accept))

abbrev pub fresh : List ℕ → Bool → Context
fresh expected allow = record {
  expected_sec_websocket_accept = expected;
  allow_sec_websocket_protocol = allow;
  encountered_error = false;
  got_upgrade = false;
  got_connection = false;
  got_sec_websocket_accept = false;
  got_sec_websocket_protocol = none;
}

module _ (same : List ℕ → List ℕ → Bool) (strdup : List ℕ → Option (List ℕ)) where
  -- HTTP_EVENT_ON_HEADER
  unfoldable pub handle_header : Context → List ℕ → List ℕ → EspErr × Context
  handle_header ctx key value =
      if ctx.encountered_error
      then (esp_fail, ctx)
      else if same key strings.upgrade
      then if ctx.got_upgrade || not (same value strings.websocket)
        then refuse ctx
        else (esp_ok, record ctx { got_upgrade = true })
      else if same key strings.connection
      then if ctx.got_connection || not (same value strings.upgrade)
        then refuse ctx
        else (esp_ok, record ctx { got_connection = true })
      else if same key strings.sec_websocket_accept
      then if ctx.got_sec_websocket_accept || not (same value ctx.expected_sec_websocket_accept)
        then refuse ctx
        else (esp_ok, record ctx { got_sec_websocket_accept = true })
      else if same key strings.sec_websocket_protocol
      then if not ctx.allow_sec_websocket_protocol
        then refuse ctx
        else elim ctx.got_sec_websocket_protocol [
          | some earlier ↦ refuse ctx
          | none ↦ elim (strdup value) [
            | none ↦ refuse ctx
            | some copy ↦ (esp_ok, record ctx { got_sec_websocket_protocol = some copy })
          ]
        ]
      else (esp_ok, ctx)

  -- `http_event_handler`
  unfoldable pub http_event_handler : Context → Event → EspErr × Context
  unfolding handle_header
  http_event_handler ctx logged = (esp_ok, ctx)
  http_event_handler ctx disconnected = refuse ctx
  http_event_handler ctx (on_header key value) = handle_header ctx key value

  unfoldable pub handle_all : Context → List Event → Context
  handle_all ctx [] = ctx
  handle_all ctx (e ∷ events) = handle_all (http_event_handler ctx e).1 events

  -- A header of this name with this value.
  unfoldable pub is_header : List ℕ → List ℕ → Event → Bool
  is_header key value (on_header k v) = same k key && same v value
  is_header key value _ = false

  unfoldable pub has_header : List ℕ → List ℕ → List Event → Bool
  has_header key value [] = false
  has_header key value (e ∷ events) = is_header key value e || has_header key value events

  upgrade_step :
      (ctx : Context) (e : Event)
      → (http_event_handler ctx e).1.got_upgrade ≡ true
      → (ctx.got_upgrade ≡ true) ⊎ (is_header strings.upgrade strings.websocket e ≡ true)
  unfolding http_event_handler handle_header is_header
  upgrade_step ctx logged h = inl h
  upgrade_step ctx disconnected h = inl h
  upgrade_step ctx (on_header key value) h = ground arith

  connection_step :
      (ctx : Context) (e : Event)
      → (http_event_handler ctx e).1.got_connection ≡ true
      → (ctx.got_connection ≡ true) ⊎ (is_header strings.connection strings.upgrade e ≡ true)
  unfolding http_event_handler handle_header is_header
  connection_step ctx logged h = inl h
  connection_step ctx disconnected h = inl h
  connection_step ctx (on_header key value) h = ground arith

  accept_step :
      (ctx : Context) (e : Event)
      → (http_event_handler ctx e).1.got_sec_websocket_accept ≡ true
      → (ctx.got_sec_websocket_accept ≡ true)
        ⊎ (is_header strings.sec_websocket_accept ctx.expected_sec_websocket_accept e ≡ true)
  unfolding http_event_handler handle_header is_header
  accept_step ctx logged h = inl h
  accept_step ctx disconnected h = inl h
  accept_step ctx (on_header key value) h = ground arith

  same_expected :
      (ctx : Context) (e : Event)
      → (http_event_handler ctx e).1.expected_sec_websocket_accept
        ≡ ctx.expected_sec_websocket_accept
  unfolding http_event_handler handle_header
  same_expected ctx logged = refl
  same_expected ctx disconnected = refl
  same_expected ctx (on_header key value) = ground arith

  run :
      (got : Context → Bool) (key value expected : List ℕ)
      → ((ctx : Context) (e : Event)
          → ctx.expected_sec_websocket_accept ≡ expected
          → got (http_event_handler ctx e).1 ≡ true
          → (got ctx ≡ true) ⊎ (is_header key value e ≡ true))
      → (ctx : Context) (events : List Event) → ctx.expected_sec_websocket_accept ≡ expected
      → got (handle_all ctx events) ≡ true
      → (got ctx ≡ true) ⊎ (has_header key value events ≡ true)
  unfolding handle_all has_header
  run got key value expected step ctx [] x h = inl h
  run got key value expected step ctx (e ∷ events) x h =
      elim (run got key value expected step (http_event_handler ctx e).1 events
        (same_expected ctx e ∙ x) h) [
          | inr later ↦ inr (ground (arith, later))
          | inl now ↦ elim (step ctx e x now) [
            | inl before ↦ inl before
            | inr here ↦ inr (ground (arith, here))
          ]
        ]

  -- A handshake passes the test only if the response had each of the three headers with its
  -- value, the last one with the value expected for the key that was sent, as `same` compares them.
  pub is_accepted-has_header :
      (expected : List ℕ) (allow : Bool) (events : List Event)
      → is_accepted (handle_all (fresh expected allow) events) ≡ true
      → (has_header strings.upgrade strings.websocket events ≡ true)
        × (has_header strings.connection strings.upgrade events ≡ true)
        × (has_header strings.sec_websocket_accept expected events ≡ true)
  is_accepted-has_header expected allow events h = (
    seen (
        run (λ c. c.got_upgrade) _ _ expected (λ c e x. upgrade_step c e) first events refl
          (ground (arith, h))),
    seen (
        run (λ c. c.got_connection) _ _ expected (λ c e x. connection_step c e) first events refl
          (ground (arith, h))),
    seen (
        run (λ c. c.got_sec_websocket_accept) _ _ expected
          (λ c e x g.
            subst
              (λ v.
                (c.got_sec_websocket_accept ≡ true)
                ⊎ (is_header strings.sec_websocket_accept v e ≡ true))
              x (accept_step c e g))
          first events refl (ground (arith, h))),
  )
    where
      first : Context
      first = fresh expected allow

      seen : {b : Bool} → (false ≡ true) ⊎ (b ≡ true) → b ≡ true
      seen (inl h) = absurd (ground (arith, h))
      seen (inr h) = h
