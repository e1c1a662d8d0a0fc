-- ===== src/Client/Session/Opened.antt =====
-- What `xsp_ws_client_open` of components/xsp_ws_client/xsp_ws_client.c leaves.
use xsp.Prelude.{ℕ, ◌≡◌, Bool, true, List, Option, none, some, if◌then◌else◌}
use xsp.Esp.{EspErr, is_ok}
use xsp.Client.{Client, closed, can_read, can_write, is_size}
use xsp.Client.Total.{IsReady}
use xsp.Client.Handshake.{strings, has_header}
use xsp.Client.Url.{strcasecmp_equal}
use xsp.Client.Session.{Session}
use xsp.Client.Session.Open.{HttpClient, Setting, Room, Opening, expected_accept, strdup_of}
use xsp.Client.Session.Open.Exits.{ready, answered, request_err}

-- What a call leaves by whether its result is ESP_OK.
abbrev pub ByResult : EspErr → Type 0 → Type 0 → Type 0
ByResult err A B = if is_ok err then A else B

module _ {T : Type 0} where
  abbrev pub IsOpen : Client T → Type 0
  IsOpen client = IsReady client × (can_read client.state ≡ true) × (can_write client.state ≡ true)

  abbrev pub IsShut : Client T → Type 0
  IsShut client = (client.transport ≡ none) × (client.state ≡ closed)

-- An open client is ready to read and to write; one that is not open is as it was before.
abbrev pub Ends : {H T : Type 0} → Room → Option (Opening H T) → Type 0
Ends room none = room.for_overread ≡ none
Ends room (some o) = ByResult o.err (IsOpen o.session.client) (IsShut o.session.client)

module _ {H T : Type 0} (ops : HttpClient H T) (setting : Setting) (room : Room) (s : Session T)
    (h : H) where
  -- Whether the response had this header, compared without regard to the case of ASCII letters.
  abbrev pub sent : List ℕ → List ℕ → Bool
  sent key value =
      has_header strcasecmp_equal (strdup_of room.for_protocol) key value
        (ops.perform (ready ops setting room s h).0).2

  -- What the request and its response were, as far as the client looks at them.
  pub record IsAccepted : Type 0 where
    pub headers_set : is_ok (ready ops setting room s h).1 ≡ true
    pub performed : is_ok (request_err ops setting room s h) ≡ true
    pub switched : is_size (ops.get_status_code (answered ops setting room s h)) 101 ≡ true
    pub upgrades : sent strings.upgrade strings.websocket ≡ true
    pub connects : sent strings.connection strings.upgrade ≡ true
    pub accepts : sent strings.sec_websocket_accept (expected_accept setting) ≡ true

  -- What is asked of a result: if it is ESP_OK, the server has accepted.
  abbrev Answers : Option (Opening H T) → Type 0
  Answers none = Unit
  Answers (some o) = is_ok o.err ≡ true → IsAccepted
