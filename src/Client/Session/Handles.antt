-- ===== src/Client/Session/Handles.antt =====
-- The HTTP clients that `xsp_ws_client_open` of components/xsp_ws_client/xsp_ws_client.c makes.
--
-- How many there are is a function of the state behind esp_http_client.
use xsp.Prelude.{
  ℕ, suc, ◌-◌, ◌≡◌, refl, ◌∙◌, true, false, List, [], ◌∷◌, Option, none, some, arith, if_both,
}
use mathlib.Core.Path.{subst}
use xsp.Esp.{EspErr, is_ok}
use xsp.Client.Session.{Session}
use xsp.Client.Session.Open.{
  HttpClient, HttpConfig, Setting, Room, Opening, open_client, set_headers,
}
use xsp.Client.Session.Open.Exits.{
  Exit, busy, no_client, no_header, no_answer, no_data, no_room, no_transport, opened,
  open_client-Exit, begun, ready,
}

-- `esp_http_client_init` makes one, or fails; `esp_http_client_cleanup` ends one; the other calls keep
-- them.
pub record Counts {H T : Type 0} (ops : HttpClient H T) (handles : H → ℕ) : Type 0 where
  pub init_made :
      (h : H) (config : HttpConfig)
      → (ops.init h config).1 ≡ true
      → handles (ops.init h config).0 ≡ suc (handles h)
  pub init_failed :
      (h : H) (config : HttpConfig)
      → (ops.init h config).1 ≡ false
      → handles (ops.init h config).0 ≡ handles h
  pub set_header_keeps :
      (h : H) (key value : List ℕ) → handles (ops.set_header h key value).0 ≡ handles h
  pub perform_keeps : (h : H) → handles (ops.perform h).0 ≡ handles h
  pub get_overread_data_keeps : (h : H) → handles (ops.get_overread_data h).0 ≡ handles h
  pub extract_transport_keeps : (h : H) → handles (ops.extract_transport h).0 ≡ handles h
  pub cleanup_ends : (h : H) → handles (ops.cleanup h) ≡ handles h - 1

module _ {H T : Type 0} (ops : HttpClient H T) (handles : H → ℕ) (counts : Counts ops handles) where
  set_headers_keeps :
      (h : H) (headers : List (List ℕ × List ℕ)) → handles (set_headers ops h headers).0 ≡ handles h
  unfolding set_headers
  set_headers_keeps h [] = refl
  set_headers_keeps h ((key, value) ∷ headers) =
      if_both (λ (r : H × EspErr). handles r.0 ≡ handles h) (is_ok (ops.set_header h key value).1) _
        _
        (λ e.
          set_headers_keeps (ops.set_header h key value).0 headers
          ∙ counts.set_header_keeps h key value)
        (λ e. counts.set_header_keeps h key value)

  module _ (setting : Setting) (room : Room) (s : Session T) (h : H) where
    abbrev Same : Option (Opening H T) → Type 0
    Same none = Unit
    Same (some o) = handles o.http ≡ handles h

    -- One client was made, and it is ended.
    ends_one : (h' : H) → handles h' ≡ suc (handles h) → handles (ops.cleanup h') ≡ handles h
    ends_one h' e = omega (arith, counts.cleanup_ends h', e)

    readied :
        (begun ops setting room s h).1 ≡ true
        → handles (ready ops setting room s h).0 ≡ suc (handles h)
    readied e = set_headers_keeps _ _ ∙ counts.init_made h _ e

    read :
        (begun ops setting room s h).1 ≡ true
        → handles (ops.get_overread_data (ops.perform (ready ops setting room s h).0).0).0
          ≡ suc (handles h)
    read e = counts.get_overread_data_keeps _ ∙ (counts.perform_keeps _ ∙ readied e)

    Exit-Same : (o : Option (Opening H T)) → Exit ops setting room s h o → Same o
    Exit-Same o (busy e) = refl
    Exit-Same o (no_client e) = counts.init_failed h _ e
    Exit-Same o (no_header e e') = ends_one _ (readied e)
    Exit-Same o (no_answer err e e') = ends_one _ (counts.perform_keeps _ ∙ readied e)
    Exit-Same o (no_data a) = ends_one _ (read a.made)
    Exit-Same o (no_room e) = tt
    Exit-Same o (no_transport s' allocated a b e) =
        ends_one _ (counts.extract_transport_keeps _ ∙ read a.made)
    Exit-Same o (opened s' allocated a b e) =
        ends_one _ (counts.extract_transport_keeps _ ∙ read a.made)

    -- Whatever the result of `xsp_ws_client_open`, as many HTTP clients exist when it returns as when
    -- it was called: the one that it made is cleaned up on every path, once, and none that it did not
    -- make.
    pub open_client_ends_http :
        (o : Opening H T) → open_client ops setting room s h ≡ some o → handles o.http ≡ handles h
    open_client_ends_http o e = subst Same e (Exit-Same _ (open_client-Exit ops setting room s h))
