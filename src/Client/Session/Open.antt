-- ===== src/Client/Session/Open.antt =====
-- components/xsp_ws_client/xsp_ws_client.c: `xsp_ws_client_open`.
--
-- esp_http_client is ESP-IDF's: the operations of `HttpClient`, on a state of its own; the events that
-- `esp_http_client_perform` hands to the event handler are part of what it returns. Base64 and SHA-1 of
-- mbedtls, the random bytes and what strdup and malloc return are arguments.
pub mod Exits
use xsp.Prelude.{
  ℕ, Bool, true, false, not, ◌&&◌, ◌||◌, List, [], ◌∷◌, ◌++◌, Option, none, some, ◌==◌,
  if◌then◌else◌, length, take,
}
use xsp.Prelude.Int.{ℤ, pos}
use xsp.Esp.{EspErr, esp_ok, esp_fail, esp_err_invalid_state, is_ok}
use xsp.Client.{Client, ClientState, closed, state_ok, is_size}
use xsp.Client.Total.{is_given}
use xsp.Client.Handshake.{Context, Event, strings, handle_all, fresh}
use xsp.Client.Url.{strcasecmp_equal}
use xsp.Client.Session.{Session, Block, address_of}
use xsp.Client.Session.Made.{chars_of}

-- `esp_http_client_config_t`, the fields that are set.
pub record HttpConfig : Type 0 where
  pub url : Option (List ℕ)
  pub username : Option (List ℕ)
  pub password : Option (List ℕ)
  pub cert_pem : Option (List ℕ)
  pub timeout_ms : ℤ
  pub disable_auto_redirect : Bool
  pub max_redirection_count : ℤ

-- The calls of esp_http_client: whether `init` returns a client, the events of a request, the overread
-- data with its size, and what is written for the transport.
pub record HttpClient (H T : Type 0) : Type 0 where
  pub init : H → HttpConfig → H × Bool
  pub set_header : H → List ℕ → List ℕ → H × EspErr
  pub perform : H → H × EspErr × List Event
  pub get_status_code : H → ℤ
  pub get_overread_data : H → H × EspErr × List ℕ
  pub extract_transport : H → H × EspErr × Option T
  pub cleanup : H → H

-- What mbedtls computes, and the 16 bytes of getrandom.
pub record Setting : Type 0 where
  pub base64 : List ℕ → List ℕ
  pub sha1 : List ℕ → List ℕ
  pub random : List ℕ

-- What strdup in the event handler and malloc for the overread data return.
pub record Room : Type 0 where
  pub for_protocol : Option ℕ
  pub for_overread : Option ℕ

-- What the call returns, the client and the HTTP client behind it, what it allocated and freed, and the
-- transport that it destroyed.
pub record Opening (H T : Type 0) : Type 0 where
  pub err : EspErr
  pub session : Session T
  pub http : H
  pub allocated : List ℕ
  pub freed : List ℕ
  pub destroyed : Option T

-- "258EAFA5-E914-47DA-95CA-C5AB0DC85B11"
abbrev pub guid : List ℕ
guid =
    50 ∷ 53 ∷ 56 ∷ 69 ∷ 65 ∷ 70 ∷ 65 ∷ 53 ∷ 45 ∷ 69 ∷ 57 ∷ 49 ∷ 52 ∷ 45 ∷ 52 ∷ 55 ∷ 68 ∷ 65 ∷ 45
    ∷ 57 ∷ 53 ∷ 67 ∷ 65 ∷ 45 ∷ 67 ∷ 53 ∷ 65 ∷ 66 ∷ 48 ∷ 68 ∷ 67 ∷ 56 ∷ 53 ∷ 66 ∷ 49 ∷ 49 ∷ []

abbrev pub sec_websocket_key : List ℕ
sec_websocket_key =
    83 ∷ 101 ∷ 99 ∷ 45 ∷ 87 ∷ 101 ∷ 98 ∷ 83 ∷ 111 ∷ 99 ∷ 107 ∷ 101 ∷ 116 ∷ 45 ∷ 75 ∷ 101 ∷ 121 ∷ []

abbrev pub sec_websocket_version : List ℕ
sec_websocket_version =
    83 ∷ 101 ∷ 99 ∷ 45 ∷ 87 ∷ 101 ∷ 98 ∷ 83 ∷ 111 ∷ 99 ∷ 107 ∷ 101 ∷ 116 ∷ 45 ∷ 86 ∷ 101 ∷ 114 ∷ 115
    ∷ 105 ∷ 111 ∷ 110 ∷ []

-- The key that is sent, and the value that is expected for it.
abbrev pub key_of : Setting → List ℕ
key_of setting = setting.base64 setting.random

abbrev pub expected_accept : Setting → List ℕ
expected_accept setting = setting.base64 (setting.sha1 (take 24 (key_of setting) ++ guid))

abbrev pub is_closed : ClientState → Bool
is_closed closed = true
is_closed _ = false

-- The copy of a header's value, where it was made.
abbrev pub block_of : Option ℕ → Option (List ℕ) → Option Block
block_of (some address) (some chars) = some (record { address = address; chars = chars })
block_of _ _ = none

-- The header for the subprotocols, if they are asked for.
abbrev protocol_header : Option Block → List (List ℕ × List ℕ)
protocol_header none = []
protocol_header (some b) = (strings.sec_websocket_protocol, b.chars) ∷ []

module _ {T : Type 0} where
  unfoldable pub http_config : Session T → HttpConfig
  http_config s = record {
    url = chars_of s.url;
    username = chars_of s.username;
    password = chars_of s.password;
    cert_pem = s.cert_pem;
    timeout_ms = s.http_timeout_ms;
    disable_auto_redirect = s.disable_auto_redirect;
    max_redirection_count = s.max_redirection_count;
  }

  -- The headers of the request, in the order in which they are set.
  unfoldable pub request_headers : Session T → List ℕ → List (List ℕ × List ℕ)
  request_headers s key =
      (strings.upgrade, strings.websocket)
      ∷ (strings.connection, strings.upgrade)
      ∷ (sec_websocket_key, key)
      ∷ (protocol_header s.request_subprotocols ++ ((sec_websocket_version, 49 ∷ 51 ∷ []) ∷ []))

  -- The overread data in a block of its own.
  abbrev pub with_overread : Session T → ℕ → List ℕ → Session T
  with_overread s address bytes = record s {
    overread_address = address;
    client = record s.client { overread_size = length bytes; overread_data = some bytes };
  }
  -- strdup in the event handler.

abbrev pub strdup_of : Option ℕ → List ℕ → Option (List ℕ)
strdup_of none chars = none
strdup_of (some address) chars = some chars

-- The context behind the events of a request.
abbrev pub context_of : {T : Type 0} → Setting → Room → Session T → List Event → Context
context_of setting room s events =
    handle_all strcasecmp_equal (strdup_of room.for_protocol)
      (fresh (expected_accept setting) (is_given s.request_subprotocols)) events

module _ {H T : Type 0} (ops : HttpClient H T) where
  -- One call of `esp_http_client_set_header` after the other, up to one that fails.
  unfoldable pub set_headers : H → List (List ℕ × List ℕ) → H × EspErr
  set_headers h [] = (h, esp_ok)
  set_headers h ((key, value) ∷ headers) =
      let (h', err) = ops.set_header h key value in
      let rest = set_headers h' headers in if is_ok err then rest else (h', err)

  -- The label `done`, with the HTTP client and what the context still holds.
  abbrev pub finish :
      EspErr → Session T → H → Option Block → List ℕ → Option T → Option (Opening H T)
  finish err s h protocol allocated destroyed = some (record {
    err = err;
    session = s;
    http = ops.cleanup h;
    allocated = allocated;
    freed = address_of protocol;
    destroyed = destroyed;
  })

  -- Behind `esp_http_client_extract_transport`.
  unfoldable pub on_extracted : Session T → List ℕ → H × EspErr × Option T → Option (Opening H T)
  on_extracted s allocated (h, err, t) =
      if is_ok err
      then finish err (record s { client = record s.client { transport = t; state = state_ok } }) h
          none allocated none
      else finish err (record s { client = record s.client { transport = none } }) h none allocated
          t

  -- Behind `esp_http_client_get_overread_data`; `none` where memcpy writes through the null pointer of
  -- malloc.
  unfoldable pub on_overread :
      Session T → List ℕ → Option ℕ → H × EspErr × List ℕ → Option (Opening H T)
  on_overread s allocated for_overread (h, err, bytes) =
      if is_ok err
      then if length bytes == 0
        then on_extracted s allocated (ops.extract_transport h)
        else elim for_overread [
          | none ↦ none
          | some address ↦
              on_extracted (with_overread s address bytes) (address ∷ allocated)
                (ops.extract_transport h)
        ]
      else finish esp_fail s h none allocated none

  -- The tests behind the request.
  unfoldable pub on_response :
      Session T → Room → H → EspErr → Context → Option Block → Option (Opening H T)
  on_response s room h err ctx protocol =
      if is_ok err
      then if ctx.encountered_error
        then finish esp_fail s h protocol (address_of protocol) none
        else if is_size (ops.get_status_code h) 101
        then if not ctx.got_upgrade || not ctx.got_connection || not ctx.got_sec_websocket_accept
          then finish esp_fail s h protocol (address_of protocol) none
          else on_overread (record s { response_subprotocols = protocol }) (address_of protocol)
              room.for_overread (ops.get_overread_data h)
        else finish esp_fail s h protocol (address_of protocol) none
      else finish err s h protocol (address_of protocol) none

  abbrev pub on_performed :
      Setting → Room → Session T → H × EspErr × List Event → Option (Opening H T)
  on_performed setting room s (h, err, events) =
      on_response s room h err (context_of setting room s events)
        (block_of room.for_protocol (context_of setting room s events).got_sec_websocket_protocol)

  abbrev pub on_headers : Setting → Room → Session T → H × EspErr → Option (Opening H T)
  on_headers setting room s (h, err) =
      if is_ok err then on_performed setting room s (ops.perform h) else finish err s h none [] none

  -- A call that leaves everything as it was.
  abbrev pub untouched : EspErr → Session T → H → Option (Opening H T)
  untouched err s h =
      some
        (record { err = err; session = s; http = h; allocated = []; freed = []; destroyed = none })

  abbrev pub on_init : Setting → Room → Session T → H × Bool → Option (Opening H T)
  on_init setting room s (h, made) =
      if made
      then on_headers setting room s (set_headers h (request_headers s (key_of setting)))
      else untouched esp_fail s h

  -- `xsp_ws_client_open` of a client.
  unfoldable pub open_client : Setting → Room → Session T → H → Option (Opening H T)
  open_client setting room s h =
      if is_given s.client.transport || not (is_closed s.client.state)
      then untouched esp_err_invalid_state s h
      else on_init setting room s (ops.init h (http_config s))
