-- ===== src/Client/Session.antt =====
-- components/xsp_ws_client/xsp_ws_client.c: the whole `xsp_ws_client_t`, made, closed and cleaned up.
--
-- What malloc, calloc and strdup return are arguments: an address, or nothing. A call says which
-- addresses it got and which it freed, and which transport it destroyed.
mod Ledger
mod Balance
pub mod Made
pub mod Open
pub mod Opened
pub mod Lives
pub mod Handles
pub mod Reopened
mod Tests
use xsp.Prelude.{
  ℕ, ◌+◌, Bool, true, false, not, ◌&&◌, ◌||◌, List, [], ◌∷◌, ◌++◌, Option, none, some,
  if◌then◌else◌,
}
use xsp.Prelude.Int.{ℤ, pos, negsuc}
use xsp.Esp.{EspErr, esp_ok, esp_fail, esp_err_invalid_arg}
use xsp.Client.{Client, ClientState, closed, can_read, can_write}
use xsp.Client.Total.{is_given}
use xsp.Client.Url.{copy_url, c_string}

-- A C string that was allocated.
pub record Block : Type 0 where
  pub address : ℕ
  pub chars : List ℕ

-- `xsp_ws_client_config_t`
pub record Config : Type 0 where
  pub url : Option (List ℕ)
  pub username : Option (List ℕ)
  pub password : Option (List ℕ)
  pub cert_pem : Option (List ℕ)
  pub http_timeout_ms : ℤ
  pub disable_auto_redirect : Bool
  pub max_redirection_count : ℤ
  pub subprotocols : Option (List ℕ)

-- `xsp_ws_client_t` at an address. The fields that the calls for frames use are a `Client`;
-- `overread_address` is where `overread_data` is, when it is not null.
pub record Session (T : Type 0) : Type 0 where
  pub address : ℕ
  pub url : Option Block
  pub username : Option Block
  pub password : Option Block
  pub cert_pem : Option (List ℕ)
  pub http_timeout_ms : ℤ
  pub disable_auto_redirect : Bool
  pub max_redirection_count : ℤ
  pub request_subprotocols : Option Block
  pub response_subprotocols : Option Block
  pub overread_address : ℕ
  pub client : Client T

-- What the allocations of `xsp_ws_client_init` return, and what the block for the URL holds.
pub record Memory : Type 0 where
  pub for_client : Option ℕ
  pub for_url : Option ℕ
  pub url_block : List ℕ
  pub for_username : Option ℕ
  pub for_password : Option ℕ
  pub for_subprotocols : Option ℕ

-- What `xsp_ws_client_init` returns, what it allocated and what it freed.
pub record Tried (T : Type 0) : Type 0 where
  pub session : Option (Session T)
  pub allocated : List ℕ
  pub freed : List ℕ

-- The argument of free, where it is not null.
abbrev pub address_of : Option Block → List ℕ
address_of none = []
address_of (some b) = b.address ∷ []

abbrev pub data_of : Option (List ℕ) → ℕ → List ℕ
data_of none address = []
data_of (some bytes) address = address ∷ []

abbrev pub overread_of : {T : Type 0} → Client T → ℕ → List ℕ
overread_of client address = data_of client.overread_data address

-- An optional string of the configuration, copied: `none` where strdup returned null.
unfoldable pub duplicate : Option (List ℕ) → Option ℕ → Option (Option Block)
duplicate none allocated = some none
duplicate (some chars) none = none
duplicate (some chars) (some address) = some (some (record { address = address; chars = chars }))

module _ {T : Type 0} where
  -- What `xsp_ws_client_cleanup` frees, in its order; it destroys the transport, if there is one.
  unfoldable pub cleanup : Session T → EspErr × List ℕ × Option T
  cleanup s = (
    esp_ok,
    overread_of s.client s.overread_address
        ++ (address_of s.response_subprotocols
            ++ (address_of s.request_subprotocols
                ++ (address_of s.password
                    ++ (address_of s.username ++ (address_of s.url ++ (s.address ∷ [])))))),
    s.client.transport,
  )

  -- `calloc`: every field is null, 0 or false; the state of that number is the closed one.
  abbrev pub zeroed : ℕ → Session T
  zeroed address = record {
    address = address;
    url = none;
    username = none;
    password = none;
    cert_pem = none;
    http_timeout_ms = pos 0;
    disable_auto_redirect = false;
    max_redirection_count = pos 0;
    request_subprotocols = none;
    response_subprotocols = none;
    overread_address = 0;
    client = record {
      state = closed;
      transport = none;
      overread_data = none;
      overread_size = 0;
      overread_consumed = 0;
      overread_frees = 0;
    };
  }

  -- The label `fail`.
  unfoldable pub fail : Session T → List ℕ → Tried T
  fail s allocated = record { session = none; allocated = allocated; freed = (cleanup s).1 }

  -- Behind the password.
  unfoldable pub init_subprotocols : Config → Session T → List ℕ → Option (Option Block) → Tried T
  init_subprotocols config s allocated none = fail s allocated
  init_subprotocols config s allocated (some subprotocols) = record {
    session = some (record s { request_subprotocols = subprotocols });
    allocated = address_of subprotocols ++ allocated;
    freed = [];
  }

  unfoldable pub init_password :
      Config → Memory → Session T → List ℕ → Option (Option Block) → Tried T
  init_password config memory s allocated none = fail s allocated
  init_password config memory s allocated (some password) =
      init_subprotocols config
        (record s {
          password = password;
          cert_pem = config.cert_pem;
          http_timeout_ms = config.http_timeout_ms;
          disable_auto_redirect = config.disable_auto_redirect;
          max_redirection_count = config.max_redirection_count;
        })
        (address_of password ++ allocated) (duplicate config.subprotocols memory.for_subprotocols)

  unfoldable pub init_username :
      Config → Memory → Session T → List ℕ → Option (Option Block) → Tried T
  init_username config memory s allocated none = fail s allocated
  init_username config memory s allocated (some username) =
      init_password config memory (record s { username = username })
        (address_of username ++ allocated) (duplicate config.password memory.for_password)

  -- Behind the copy of the URL; `none` where that wrote behind its block.
  unfoldable pub init_url : Config → Memory → ℕ → ℕ → Option (List ℕ) → Option (Tried T)
  init_url config memory address url_address none = none
  init_url config memory address url_address (some block) = some (
      init_username config memory
        (record (zeroed address) {
          url = some (record { address = url_address; chars = c_string block });
        })
        (url_address ∷ address ∷ []) (duplicate config.username memory.for_username))

  abbrev pub nothing : Tried T
  nothing = record { session = none; allocated = []; freed = [] }

  -- `xsp_ws_client_init`, behind the test of the configuration.
  unfoldable pub init_given : Config → Memory → Option (List ℕ) → Option (Tried T)
  init_given config memory none = some nothing
  init_given config memory (some url) = elim memory.for_client [
    | none ↦ some nothing
    | some address ↦ elim memory.for_url [
      | none ↦ some (fail (zeroed address) (address ∷ []))
      | some url_address ↦
          init_url config memory address url_address (copy_url memory.url_block url)
    ]
  ]

  unfoldable pub init : Option Config → Memory → Option (Tried T)
  init none memory = some nothing
  init (some config) memory = init_given config memory config.url

  -- `xsp_ws_client_close`: the client, what is freed, and the transport that is closed and destroyed.
  -- The delay before that has no part here.
  unfoldable pub close : Session T → EspErr × Session T × List ℕ × Option T
  close s = (
    esp_ok,
    record s {
      response_subprotocols = none;
      client = record s.client { state = closed; transport = none; overread_data = none };
    },
    address_of s.response_subprotocols ++ overread_of s.client s.overread_address,
    s.client.transport,
  )

  -- `xsp_ws_client_get_response_subprotocols`
  unfoldable pub get_response_subprotocols : Session T → Option (List ℕ)
  get_response_subprotocols s = elim s.response_subprotocols [ none ↦ none | some b ↦ some b.chars ]

  -- `xsp_ws_client_get_select_fd`, with `esp_transport_get_select_fd` for an argument.
  unfoldable pub get_select_fd : (T → ℤ) → Option (Session T) → ℤ
  get_select_fd select_fd none = negsuc 0
  get_select_fd select_fd (some s) = elim s.client.transport [
    | none ↦ negsuc 0
    | some t ↦
        if not (can_read s.client.state) || not (can_write s.client.state)
        then negsuc 0
        else select_fd t
  ]
