-- ===== src/Client/Session/Open/Exits.antt =====
-- The ways through `xsp_ws_client_open` of components/xsp_ws_client/xsp_ws_client.c.
use xsp.Prelude.{
  ℕ, ◌≡◌, refl, Bool, true, false, not, ◌||◌, List, [], ◌∷◌, Option, none, some, arith, ◌==◌,
  ==_iff, if_both, option_both, length,
}
use xsp.Esp.{EspErr, esp_fail, esp_err_invalid_state, is_ok}
use xsp.Client.{is_size, state_ok}
use xsp.Client.Total.{is_given}
use xsp.Client.Handshake.{Context, is_accepted}
use xsp.Client.Session.{Session, Block, address_of}
use xsp.Client.Session.Open.{
  HttpClient, Setting, Room, Opening, http_config, request_headers, key_of, set_headers, finish,
  on_extracted, with_overread, on_overread, on_response, context_of, untouched, open_client,
  is_closed, block_of,
}

module _ {H T : Type 0} (ops : HttpClient H T) (setting : Setting) (room : Room) (s : Session T)
    (h : H) where
  -- The HTTP client behind its initialisation, its headers and the request.
  abbrev pub begun : H × Bool
  begun = ops.init h (http_config s)

  abbrev pub ready : H × EspErr
  ready = set_headers ops begun.0 (request_headers s (key_of setting))

  abbrev pub answered : H
  answered = (ops.perform ready.0).0

  abbrev pub request_err : EspErr
  request_err = (ops.perform ready.0).1

  abbrev pub context : Context
  context = context_of setting room s (ops.perform ready.0).2

  abbrev pub protocol : Option Block
  protocol = block_of room.for_protocol context.got_sec_websocket_protocol

  -- The server has answered as it must.
  pub record IsAnswered : Type 0 where
    pub was_free : (is_given s.client.transport || not (is_closed s.client.state)) ≡ false
    pub made : begun.1 ≡ true
    pub headers_set : is_ok ready.1 ≡ true
    pub performed : is_ok request_err ≡ true
    pub switched : is_size (ops.get_status_code answered) 101 ≡ true
    pub accepted : is_accepted context ≡ true

  abbrev pub replied : Session T
  replied = record s { response_subprotocols = protocol }

  abbrev pub read_too_much : H × EspErr × List ℕ
  read_too_much = ops.get_overread_data answered

  abbrev pub extracted : H × EspErr × Option T
  extracted = ops.extract_transport read_too_much.0

  -- The client when its transport is asked for, and what was allocated for it.
  pub data Buffered : Session T → List ℕ → Type 0 where
    no_overread : length read_too_much.2 ≡ 0 → Buffered replied (address_of protocol)
    overread :
        (address : ℕ)
        → room.for_overread ≡ some address
        → (length read_too_much.2 == 0) ≡ false
        → Buffered (with_overread replied address read_too_much.2) (address ∷ address_of protocol)

  -- The exits of the call.
  pub data Exit : Option (Opening H T) → Type 0 where
    busy :
        (is_given s.client.transport || not (is_closed s.client.state)) ≡ true
        → Exit (untouched ops esp_err_invalid_state s h)
    no_client : begun.1 ≡ false → Exit (untouched ops esp_fail s begun.0)
    no_header :
        begun.1 ≡ true → is_ok ready.1 ≡ false → Exit (finish ops ready.1 s ready.0 none [] none)
    no_answer :
        (err : EspErr)
        → begun.1 ≡ true
        → is_ok err ≡ false
        → Exit (finish ops err s answered protocol (address_of protocol) none)
    no_data :
        IsAnswered
        → Exit (finish ops esp_fail replied read_too_much.0 none (address_of protocol) none)
    no_room : room.for_overread ≡ none → Exit none
    no_transport :
        (s' : Session T) (allocated : List ℕ)
        → IsAnswered
        → Buffered s' allocated
        → is_ok extracted.1 ≡ false
        → Exit (
            finish ops extracted.1
              (record s' { client = record s'.client { transport = none } })
              extracted.0
              none
              allocated
              extracted.2)
    opened :
        (s' : Session T) (allocated : List ℕ)
        → IsAnswered
        → Buffered s' allocated
        → is_ok extracted.1 ≡ true
        → Exit (
            finish ops extracted.1
              (record s' {
                client = record s'.client { transport = extracted.2; state = state_ok };
              })
              extracted.0
              none
              allocated
              none)

  on_extracted-Exit :
      (s' : Session T) (allocated : List ℕ)
      → IsAnswered
      → Buffered s' allocated
      → Exit (on_extracted ops s' allocated extracted)
  unfolding on_extracted
  on_extracted-Exit s' allocated a b =
      if_both Exit (is_ok extracted.1) _ _ (λ e. opened s' allocated a b e)
        (λ e. no_transport s' allocated a b e)

  on_overread-Exit :
      IsAnswered
      → Exit (on_overread ops replied (address_of protocol) room.for_overread read_too_much)
  unfolding on_overread
  on_overread-Exit a =
      if_both Exit (is_ok read_too_much.1) _ _
        (λ e.
          if_both Exit (length read_too_much.2 == 0) _ _
            (λ e'.
              on_extracted-Exit replied (address_of protocol) a (no_overread ((==_iff _ 0).0 e')))
            (λ e'. option_both Exit room.for_overread _ _ no_room (λ address e''.
              on_extracted-Exit (with_overread replied address read_too_much.2)
                (address ∷ address_of protocol) a (overread address e'' e'))))
        (λ e. no_data a)

  on_response-Exit :
      (is_given s.client.transport || not (is_closed s.client.state)) ≡ false
      → begun.1 ≡ true
      → is_ok ready.1 ≡ true
      → Exit (on_response ops s room answered request_err context protocol)
  unfolding on_response
  on_response-Exit free made set =
      if_both Exit (is_ok request_err) _ _
        (λ e.
          if_both Exit context.encountered_error _ _ (λ e'. no_answer esp_fail made refl)
            (λ e'.
              if_both Exit (is_size (ops.get_status_code answered) 101) _ _
                (λ e''.
                  if_both Exit
                    (not context.got_upgrade
                      || not context.got_connection
                      || not context.got_sec_websocket_accept)
                    _ _ (λ missing. no_answer esp_fail made refl)
                    (λ present. on_overread-Exit (record {
                      was_free = free;
                      made = made;
                      headers_set = set;
                      performed = e;
                      switched = e'';
                      accepted = ground (arith, e', present);
                    })))
                (λ e''. no_answer esp_fail made refl)))
        (λ e. no_answer request_err made e)

  pub open_client-Exit : Exit (open_client ops setting room s h)
  unfolding open_client
  open_client-Exit =
      if_both Exit (is_given s.client.transport || not (is_closed s.client.state)) _ _ busy (λ free.
        if_both Exit begun.1 _ _
          (λ made. if_both Exit (is_ok ready.1) _ _ (on_response-Exit free made) (no_header made))
          no_client)
