-- ===== src/Cxx/Owners.antt =====
-- components/xsp_cxx/include/xsp/ws_client.h and components/xsp_cxx/ws_client_handler.cc: who owns the
-- handle of a client and of its handler.
--
-- A handle is its address. A call of a handle that is freed, and an assertion that fails, is `none`.
use xsp.Prelude.{
  ℕ, Bool, true, false, List, [], ◌∷◌, Option, none, some, ◌==◌, if◌then◌else◌, get_or, set,
}
use xsp.Prelude.Int.{ℤ}

-- A handle is freed.
unfoldable pub release : List ℕ → ℕ → Option (List ℕ)
release [] handle = none
release (h ∷ live) handle =
    if h == handle
    then some live
    else elim (release live handle) [ none ↦ none | some rest ↦ some (h ∷ rest) ]

-- `WsClient::Shutdown`, where `handle_` may be null, with the handles of clients that are not freed.
unfoldable pub shutdown : Option ℕ → List ℕ → Option (Option ℕ × List ℕ)
shutdown none live = some (none, live)
shutdown (some handle) live = elim (release live handle) [
  | none ↦ none
  | some rest ↦ some (none, rest)
]

-- The objects of class `WsClient` that exist, by their `handle_`, and the handles that are not freed.
pub record Clients : Type 0 where
  pub objects : List (Option ℕ)
  pub live : List ℕ

-- `handle_` of an object that exists.
abbrev pub handle_of : Clients → ℕ → Option ℕ
handle_of c i = get_or c.objects i none

-- The constructor from a configuration: the handle that `xsp_ws_client_init` returned.
abbrev pub construct : Clients → ℕ → Clients
construct c handle = record { objects = some handle ∷ c.objects; live = handle ∷ c.live }

-- The move constructor.
abbrev pub move_construct : Clients → ℕ → Clients
move_construct c i = record c { objects = handle_of c i ∷ set c.objects i none }

-- `Shutdown` of an object.
abbrev pub after_shutdown : Clients → ℕ → Option (Option ℕ × List ℕ) → Option Clients
after_shutdown c i none = none
after_shutdown c i (some (handle, live)) =
    some (record { objects = set c.objects i handle; live = live })

unfoldable pub shutdown_at : Clients → ℕ → Option Clients
shutdown_at c i = after_shutdown c i (shutdown (handle_of c i) c.live)

-- The rest of the assignment, behind `Shutdown`.
abbrev pub take_over : Clients → ℕ → ℕ → Clients
take_over c i rhs = record c { objects = set (set c.objects i (handle_of c rhs)) rhs none }

-- The move assignment; an object without a handle is not shut down, which changes nothing.
abbrev pub then_take_over : Option Clients → ℕ → ℕ → Option Clients
then_take_over none i rhs = none
then_take_over (some c) i rhs = some (take_over c i rhs)

unfoldable pub move_assign : Clients → ℕ → ℕ → Option Clients
move_assign c i rhs = then_take_over (shutdown_at c i) i rhs

-- The class `WsClientHandler` with its fields; `handle_` is not null, which its constructor asserts.
pub record HandlerObject (U : Type 0) : Type 0 where
  pub ws_client : Option ℕ
  pub handle : ℕ
  pub evt_handler : Option U

-- The functions of `WsClientEventHandler`, with their arguments.
pub data UserEvent : Type 0 where
  ws_client_closed : ℤ → UserEvent
  ws_client_data_frame_received : Bool → ℕ → ℕ → List ℕ → UserEvent
  ws_client_ping_received : ℕ → List ℕ → UserEvent
  ws_client_pong_received : ℕ → List ℕ → UserEvent
  ws_client_message_sent : Bool → UserEvent

-- The handles of clients and of handlers that are not freed.
pub record Live : Type 0 where
  pub clients : List ℕ
  pub handlers : List ℕ

module _ {U : Type 0} where
  -- Behind `xsp_ws_client_handler_cleanup`: `handle_` keeps its value.
  abbrev pub after_cleanup :
      HandlerObject U → Live → List ℕ → Option (Option ℕ × List ℕ) → Option (HandlerObject U × Live)
  after_cleanup o live handlers none = none
  after_cleanup o live handlers (some (ws_client, clients)) = some (
    record o { ws_client = ws_client; evt_handler = none },
    record { clients = clients; handlers = handlers },
  )

  -- `WsClientHandler::Shutdown`; the cleanup returns ESP_OK only if the loop does not run.
  unfoldable pub shutdown_handler : Bool → HandlerObject U → Live → Option (HandlerObject U × Live)
  shutdown_handler true o live = none
  shutdown_handler false o live = elim (release live.handlers o.handle) [
    | none ↦ none
    | some handlers ↦ after_cleanup o live handlers (shutdown o.ws_client live.clients)
  ]

  -- The test that the five functions behind the thunks begin with.
  abbrev pub forward : HandlerObject U → UserEvent → Option (U × UserEvent)
  forward o event = elim o.evt_handler [ none ↦ none | some user ↦ some (user, event) ]

  abbrev pub on_closed : HandlerObject U → ℤ → Option (U × UserEvent)
  on_closed o status = forward o (ws_client_closed status)

  abbrev pub on_data_frame_received :
      HandlerObject U → Bool → ℕ → ℕ → List ℕ → Option (U × UserEvent)
  on_data_frame_received o fin opcode payload_size payload =
      forward o (ws_client_data_frame_received fin opcode payload_size payload)

  abbrev pub on_ping_received : HandlerObject U → ℕ → List ℕ → Option (U × UserEvent)
  on_ping_received o payload_size payload = forward o (ws_client_ping_received payload_size payload)

  abbrev pub on_pong_received : HandlerObject U → ℕ → List ℕ → Option (U × UserEvent)
  on_pong_received o payload_size payload = forward o (ws_client_pong_received payload_size payload)

  abbrev pub on_message_sent : HandlerObject U → Bool → Option (U × UserEvent)
  on_message_sent o success = forward o (ws_client_message_sent success)

-- The destructor of a `WsClientHandler`: `Shutdown`, and the destructor of its member `ws_client_`.
abbrev pub then_destroy_client : {U : Type 0} → Option (HandlerObject U × Live) → Option Live
then_destroy_client none = none
then_destroy_client (some (o, live)) = elim (shutdown o.ws_client live.clients) [
  | none ↦ none
  | some (ws_client, clients) ↦ some (record live { clients = clients })
]

unfoldable pub destroy_handler : {U : Type 0} → Bool → HandlerObject U → Live → Option Live
destroy_handler is_running o live = then_destroy_client (shutdown_handler is_running o live)
