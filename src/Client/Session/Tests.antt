-- ===== src/Client/Session/Tests.antt =====
-- A client is made, opened, closed and opened again, over an HTTP client that has one answer.
use xsp.Prelude.{ℕ, suc, ◌-◌, ◌≡◌, refl, true, List, [], ◌∷◌, ◌++◌, none, some, arith, take, All}
use xsp.Prelude.Int.{pos, negsuc}
use xsp.Esp.{EspErr, esp_ok, esp_fail}
use xsp.WsTypes.{is_valid_frame_opcode, is_control_frame_opcode}
use xsp.Client.{Transport, state_ok}
use xsp.Client.Read.{
  read_frame, read_exactly, read_data, take_overread, read_rest, read_more, read_header,
  on_header as on_frame_header, read_size, read_payload, is_bad,
}
use xsp.Client.Url.{
  copy_url, copy_url-Reads, Reads, http_url, strcpy, strcasecmp_equal, strncasecmp_equal, to_lower,
  c_string, IsChar,
}
use xsp.Client.Handshake.{
  Event, logged, on_header, strings, handle_all, http_event_handler, handle_header,
}
use xsp.Client.Session.{
  Session, Config, Memory, init, init_given, init_url, init_username, init_password,
  init_subprotocols, duplicate, fail, cleanup, close, zeroed, get_select_fd,
  get_response_subprotocols,
}
use xsp.Client.Session.Made.{Makes, init-Makes}
use xsp.Prelude.Count.{count}
use xsp.Client.Session.Open.{
  HttpClient, Setting, Room, Opening, open_client, http_config, request_headers, set_headers,
  on_response, on_overread, on_extracted,
}
use xsp.Client.Session.Lives.{
  Life, idle, in_use, reading, called, made, open_idle, closed as closed_again, cleanup_frees_all,
}
use xsp.Client.Session.Handles.{Counts, open_client_ends_http}
use xsp.Client.Session.Reopened.{IsStale, reopened-IsStale}

-- "WS://a"
abbrev url : List ℕ
url = 87 ∷ 83 ∷ 58 ∷ 47 ∷ 47 ∷ 97 ∷ []

abbrev zeros : List ℕ
zeros = 7 ∷ 7 ∷ 7 ∷ 7 ∷ 7 ∷ 7 ∷ 7 ∷ 7 ∷ 7 ∷ []

chars_of_url : All IsChar url
chars_of_url = (
  λ e. absurd (ground (arith, e)),
  (
    λ e. absurd (ground (arith, e)),
    (
      λ e. absurd (ground (arith, e)),
      (
        λ e. absurd (ground (arith, e)),
        (λ e. absurd (ground (arith, e)), (λ e. absurd (ground (arith, e)), tt)),
      ),
    ),
  ),
)

copied : copy_url zeros url ≡ some (104 ∷ 116 ∷ 116 ∷ 112 ∷ 58 ∷ 47 ∷ 47 ∷ 97 ∷ 0 ∷ [])
unfolding copy_url strcpy strncasecmp_equal to_lower
copied = refl

abbrev config : Config
config = record {
  url = some url;
  username = none;
  password = some (112 ∷ []);
  cert_pem = none;
  http_timeout_ms = pos 100;
  disable_auto_redirect = true;
  max_redirection_count = pos 0;
  subprotocols = some (99 ∷ []);
}

abbrev memory : Memory
memory = record {
  for_client = some 10;
  for_url = some 20;
  url_block = zeros;
  for_username = none;
  for_password = some 40;
  for_subprotocols = some 50;
}

-- The client that is made.
abbrev session : Session ℕ
session = record (zeroed 10) {
  url = some (record { address = 20; chars = 104 ∷ 116 ∷ 116 ∷ 112 ∷ 58 ∷ 47 ∷ 47 ∷ 97 ∷ [] });
  password = some (record { address = 40; chars = 112 ∷ [] });
  http_timeout_ms = pos 100;
  disable_auto_redirect = true;
  request_subprotocols = some (record { address = 50; chars = 99 ∷ [] });
}

inited :
    init (some config) memory
    ≡ some (record { session = some session; allocated = 50 ∷ 40 ∷ 20 ∷ 10 ∷ []; freed = [] })
unfolding init init_given init_url init_username init_password init_subprotocols duplicate copy_url
    strcpy strncasecmp_equal to_lower c_string
inited = refl

-- Without memory for the last string, all is freed.
given_back :
    init {T = ℕ} (some config) (record memory { for_subprotocols = none })
    ≡ some (record { session = none; allocated = 40 ∷ 20 ∷ 10 ∷ []; freed = 40 ∷ 20 ∷ 10 ∷ [] })
unfolding init init_given init_url init_username init_password init_subprotocols duplicate copy_url
    strcpy strncasecmp_equal to_lower c_string fail cleanup
given_back = refl

abbrev setting : Setting
setting = record { base64 = λ s. s; sha1 = λ s. take 1 s; random = 65 ∷ [] }

abbrev reply : List Event
reply =
    on_header strings.upgrade strings.websocket
    ∷ logged
    ∷ on_header strings.connection strings.upgrade
    ∷ on_header strings.sec_websocket_protocol (99 ∷ [])
    ∷ on_header strings.sec_websocket_accept (65 ∷ [])
    ∷ []

-- An HTTP client that counts the handles.
abbrev http : EspErr → List ℕ → HttpClient ℕ ℕ
http overread_err bytes = record {
  init = λ h config. (suc h, true);
  set_header = λ h key value. (h, esp_ok);
  perform = λ h. (h, esp_ok, reply);
  get_status_code = λ h. pos 101;
  get_overread_data = λ h. (h, overread_err, bytes);
  extract_transport = λ h. (h, esp_ok, some 3);
  cleanup = λ h. h - 1;
}

abbrev room : Room
room = record { for_protocol = some 60; for_overread = some 70 }

abbrev opened_session : Session ℕ
opened_session = record session {
  response_subprotocols = some (record { address = 60; chars = 99 ∷ [] });
  overread_address = 70;
  client = record {
    state = state_ok;
    transport = some 3;
    overread_data = some (129 ∷ 0 ∷ []);
    overread_size = 2;
    overread_consumed = 0;
    overread_frees = 0;
  };
}

abbrev opening : Opening ℕ ℕ
opening = record {
  err = esp_ok;
  session = opened_session;
  http = 0;
  allocated = 70 ∷ 60 ∷ [];
  freed = [];
  destroyed = none;
}

opens : open_client (http esp_ok (129 ∷ 0 ∷ [])) setting room session 0 ≡ some opening
unfolding open_client http_config request_headers set_headers on_response on_overread on_extracted
    handle_all http_event_handler handle_header strcasecmp_equal to_lower
opens = refl

-- Not enough was read: the subprotocol of the response stays, and the next call loses it.
abbrev half_opened : Session ℕ
half_opened = record session {
  response_subprotocols = some (record { address = 60; chars = 99 ∷ [] });
}

fails_late :
    open_client (http esp_fail []) setting room session 0
    ≡ some (record {
      err = esp_fail;
      session = half_opened;
      http = 0;
      allocated = 60 ∷ [];
      freed = [];
      destroyed = none;
    })
unfolding open_client http_config request_headers set_headers on_response on_overread on_extracted
    handle_all http_event_handler handle_header strcasecmp_equal to_lower
fails_late = refl

leaks_response :
    open_client (http esp_fail []) setting (record room { for_protocol = some 80 }) half_opened 0
    ≡ some (record {
      err = esp_fail;
      session = record session {
        response_subprotocols = some (record { address = 80; chars = 99 ∷ [] });
      };
      http = 0;
      allocated = 80 ∷ [];
      freed = [];
      destroyed = none;
    })
unfolding open_client http_config request_headers set_headers on_response on_overread on_extracted
    handle_all http_event_handler handle_header strcasecmp_equal to_lower
leaks_response = refl

accessors :
    (get_response_subprotocols opened_session ≡ some (99 ∷ []))
    × (get_select_fd (λ t. pos 54) (some opened_session) ≡ pos 54)
    × (get_select_fd (λ t. pos 54) (some session) ≡ negsuc 0)
unfolding get_response_subprotocols get_select_fd
accessors = (refl, refl, refl)

copy_url-Reads_example : Reads (http_url url) (copy_url zeros url)
copy_url-Reads_example = copy_url-Reads zeros url chars_of_url refl

init-Makes_example : Makes ℕ url config memory (init (some config) memory)
init-Makes_example = init-Makes ℕ url config memory chars_of_url refl refl

counts : Counts (http esp_ok (129 ∷ 0 ∷ [])) (λ n. n)
counts = record {
  init_made = λ h config e. refl;
  init_failed = λ h config e. absurd (ground (arith, e));
  set_header_keeps = λ h key value. refl;
  perform_keeps = λ h. refl;
  get_overread_data_keeps = λ h. refl;
  extract_transport_keeps = λ h. refl;
  cleanup_ends = λ h. refl;
}

open_client_ends_http_example : opening.http ≡ 0
open_client_ends_http_example =
    open_client_ends_http (http esp_ok (129 ∷ 0 ∷ [])) (λ n. n) counts setting room session 0
      opening opens

-- A transport that delivers nothing.
abbrev silent : Transport ℕ
silent = record {
  write = λ t bytes. (t, pos 0);
  read = λ t size. (t, pos 0, []);
  poll_write = λ t. (t, pos 0);
  poll_read = λ t. (t, pos 0);
}

-- The two bytes that came with the response are read: an empty text frame; the block is freed.
abbrev read_session : Session ℕ
read_session = record opened_session {
  client = record opened_session.client {
    overread_data = none;
    overread_consumed = 2;
    overread_frees = 1;
  };
}

reads_all :
    read_frame silent opened_session.client 125
    ≡ some (
      esp_ok,
      record { fin = some true; opcode = some 1; payload_size = some 0; payload = [] },
      read_session.client,
    )
unfolding read_frame read_exactly read_data take_overread read_rest read_more read_header
    on_frame_header read_size read_payload is_bad is_valid_frame_opcode is_control_frame_opcode
reads_all = refl

-- Made, opened, read from and closed.
closed-Life :
    Life
      (http esp_ok (129 ∷ 0 ∷ []))
      silent
      4
      idle
      (close read_session).1
      (70 ∷ 60 ∷ 50 ∷ 40 ∷ 20 ∷ 10 ∷ [])
      ((close read_session).2 ++ (70 ∷ []))
closed-Life = closed_again in_use read_session _ _ (
    called in_use opened_session read_session.client _ _
      (open_idle setting room 0 session _ _ opening
        (made url config memory
          (record { session = some session; allocated = 50 ∷ 40 ∷ 20 ∷ 10 ∷ []; freed = [] })
          session chars_of_url refl refl inited refl)
        opens)
      (reading _ _ 125 _ _ reads_all))

cleanup_frees_all_example :
    count 70 (70 ∷ 60 ∷ 50 ∷ 40 ∷ 20 ∷ 10 ∷ [])
    ≡ count 70 ((cleanup (close read_session).1).1 ++ ((close read_session).2 ++ (70 ∷ [])))
cleanup_frees_all_example =
    cleanup_frees_all (http esp_ok (129 ∷ 0 ∷ [])) silent 4 idle (close read_session).1
      (70 ∷ 60 ∷ 50 ∷ 40 ∷ 20 ∷ 10 ∷ []) ((close read_session).2 ++ (70 ∷ [])) 70 closed-Life

-- The client of the second handshake, that reads nothing too much.
abbrev stale_session : Session ℕ
stale_session = record opened_session {
  client = record opened_session.client { overread_data = none };
}

reopens :
    open_client (http esp_ok []) setting room (close opened_session).1 0
    ≡ some (record {
      err = esp_ok;
      session = stale_session;
      http = 0;
      allocated = 60 ∷ [];
      freed = [];
      destroyed = none;
    })
unfolding open_client http_config request_headers set_headers on_response on_overread on_extracted
    handle_all http_event_handler handle_header close strcasecmp_equal to_lower
reopens = refl

reopened-IsStale_example : IsStale stale_session.client
reopened-IsStale_example =
    reopened-IsStale (http esp_ok []) setting room opened_session 0
      (record {
        err = esp_ok;
        session = stale_session;
        http = 0;
        allocated = 60 ∷ [];
        freed = [];
        destroyed = none;
      })
      (λ h e. refl) refl refl reopens refl
