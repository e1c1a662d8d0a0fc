-- ===== src/Client/Session/Made.antt =====
-- What xsp_ws_client_init of components/xsp_ws_client/xsp_ws_client.c returns, and what it holds.
use xsp.Prelude.{
  ℕ, ◌≡◌, refl, sym, ap, Bool, true, not, ◌&&◌, ◌||◌, List, [], ◌∷◌, ◌++◌, Option, none, some,
  arith, length, All, option_both,
}
use mathlib.Core.Path.{subst}
use xsp.Client.Total.{is_given}
use xsp.Client.Url.{url_size, http_url, IsChar, Reads, copy_url-Reads, c_string}
use xsp.Client.Session.{
  Session, Config, Memory, Tried, Block, duplicate, init, init_url, init_username, init_password,
  init_subprotocols, init_given, fail, zeroed, address_of,
}
use xsp.Client.Session.Ledger.{count-owned, owned, owned_by}
use xsp.Prelude.Count.{Balances, count, count-append}

abbrev pub chars_of : Option Block → Option (List ℕ)
chars_of none = none
chars_of (some b) = some b.chars

-- Whether an allocation that the configuration asks for returns null.
abbrev pub refused : Option (List ℕ) → Option ℕ → Bool
refused wanted allocated = is_given wanted && not (is_given allocated)

abbrev pub lacks : Config → Memory → Bool
lacks config memory =
    not (is_given memory.for_client)
    || not (is_given memory.for_url)
    || refused config.username memory.for_username
    || refused config.password memory.for_password
    || refused config.subprotocols memory.for_subprotocols

-- A closed client that holds its own copies of the configuration, and nothing of a connection.
pub record IsFresh {T : Type 0} (url : List ℕ) (config : Config) (s : Session T) : Type 0 where
  pub unused : s.client ≡ (zeroed {T = T} s.address).client
  pub no_response : s.response_subprotocols ≡ none
  pub url_kept : chars_of s.url ≡ some (http_url url)
  pub username_kept : chars_of s.username ≡ config.username
  pub password_kept : chars_of s.password ≡ config.password
  pub subprotocols_kept : chars_of s.request_subprotocols ≡ config.subprotocols
  pub cert_pem_kept : s.cert_pem ≡ config.cert_pem

duplicate-none : (o : Option (List ℕ)) (a : Option ℕ) → duplicate o a ≡ none → refused o a ≡ true
unfolding duplicate
duplicate-none none a h = absurd (ground (arith, h))
duplicate-none (some chars) none h = refl
duplicate-none (some chars) (some a) h = absurd (ground (arith, h))

duplicate-some :
    (o : Option (List ℕ)) (a : Option ℕ) (b : Option Block)
    → duplicate o a ≡ some b
    → chars_of b ≡ o
unfolding duplicate
duplicate-some none a b h =
    ap (λ (o : Option (Option Block)). elim o [ none ↦ none | some c ↦ chars_of c ]) (sym h)
duplicate-some (some chars) none b h = absurd (ground (arith, h))
duplicate-some (some chars) (some a) b h =
    ap (λ (o : Option (Option Block)). elim o [ none ↦ none | some c ↦ chars_of c ]) (sym h)

module _ (T : Type 0) (url : List ℕ) (config : Config) (memory : Memory) where
  -- A client, or null for want of memory.
  abbrev pub Gives : Option (Session T) → Type 0
  Gives none = lacks config memory ≡ true
  Gives (some s) = IsFresh url config s

  abbrev pub Makes : Option (Tried T) → Type 0
  Makes none = ⊥
  Makes (some tried) =
      Gives tried.session × Balances [] tried.allocated (owned_by tried.session) tried.freed

  fail-Makes :
      (s : Session T) (allocated : List ℕ)
      → lacks config memory ≡ true
      → ((x : ℕ) → count x allocated ≡ count x (owned s))
      → Makes (some (fail s allocated))
  unfolding fail
  fail-Makes s allocated h same = (h, λ x. omega (arith, same x))

  module _ (address url_address : ℕ) (block : List ℕ) (kept : c_string block ≡ http_url url) where
    abbrev named : Option Block → Session T
    named username = record (zeroed address) {
      url = some (record { address = url_address; chars = c_string block });
      username = username;
    }

    abbrev whole : Option Block → Option Block → Session T
    whole username password = record (named username) {
      password = password;
      cert_pem = config.cert_pem;
      http_timeout_ms = config.http_timeout_ms;
      disable_auto_redirect = config.disable_auto_redirect;
      max_redirection_count = config.max_redirection_count;
    }

    init_subprotocols-Makes :
        (username password : Option Block) (o : Option (Option Block))
        → chars_of username ≡ config.username
        → chars_of password ≡ config.password
        → duplicate config.subprotocols memory.for_subprotocols ≡ o
        → Makes (
            some (
              init_subprotocols config
                (whole username password)
                (address_of password ++ (address_of username ++ (url_address ∷ address ∷ [])))
                o))
    unfolding init_subprotocols
    init_subprotocols-Makes username password none u p e =
        fail-Makes (whole username password) _
          (ground (arith, duplicate-none config.subprotocols memory.for_subprotocols e))
          (λ x. omega (
            arith,
            count-owned x (whole username password),
            count-append x (address_of password)
                (address_of username ++ (url_address ∷ address ∷ [])),
            count-append x (address_of username) (url_address ∷ address ∷ []),
          ))
    init_subprotocols-Makes username password (some subprotocols) u p e = (
      record {
        unused = refl;
        no_response = refl;
        url_kept = ap some kept;
        username_kept = u;
        password_kept = p;
        subprotocols_kept = duplicate-some config.subprotocols memory.for_subprotocols _ e;
        cert_pem_kept = refl;
      },
      λ x. omega (
        arith,
        count-owned x (record (whole username password) { request_subprotocols = subprotocols }),
        count-append x (address_of subprotocols)
            (address_of password ++ (address_of username ++ (url_address ∷ address ∷ []))),
        count-append x (address_of password) (address_of username ++ (url_address ∷ address ∷ [])),
        count-append x (address_of username) (url_address ∷ address ∷ []),
      ),
    )

    init_password-Makes :
        (username : Option Block) (o : Option (Option Block))
        → chars_of username ≡ config.username
        → duplicate config.password memory.for_password ≡ o
        → Makes (
            some (
              init_password config memory
                (named username)
                (address_of username ++ (url_address ∷ address ∷ []))
                o))
    unfolding init_password
    init_password-Makes username none u e =
        fail-Makes (named username) _
          (ground (arith, duplicate-none config.password memory.for_password e))
          (λ x. omega (
            arith,
            count-owned x (named username),
            count-append x (address_of username) (url_address ∷ address ∷ []),
          ))
    init_password-Makes username (some password) u e =
        init_subprotocols-Makes username password _ u
          (duplicate-some config.password memory.for_password _ e) refl

    init_username-Makes :
        (o : Option (Option Block))
        → duplicate config.username memory.for_username ≡ o
        → Makes (some (init_username config memory (named none) (url_address ∷ address ∷ []) o))
    unfolding init_username
    init_username-Makes none e =
        fail-Makes (named none) _
          (ground (arith, duplicate-none config.username memory.for_username e))
          (λ x. omega (arith, count-owned x (named none)))
    init_username-Makes (some username) e =
        init_password-Makes username _ (duplicate-some config.username memory.for_username _ e) refl

  init_url-Makes :
      (address url_address : ℕ) (o : Option (List ℕ))
      → Reads (http_url url) o
      → Makes (init_url config memory address url_address o)
  unfolding init_url
  init_url-Makes address url_address none h = absurd h
  init_url-Makes address url_address (some block) h =
      init_username-Makes address url_address block h _ refl

  -- With a URL without a null character and a block of the size asked for, `xsp_ws_client_init` writes
  -- only to its own block for the URL, and either returns a closed client that holds a copy of every
  -- string of the configuration and of the URL for HTTP, and what it allocated belongs to that
  -- client; or it returns null because an allocation did, and has freed, once each, what it
  -- allocated.
  pub init-Makes :
      All IsChar url
      → length memory.url_block ≡ url_size url
      → config.url ≡ some url
      → Makes (init (some config) memory)
  unfolding init init_given
  init-Makes chars size given =
      subst (λ o. Makes (init_given config memory o)) (sym given)
        (option_both Makes memory.for_client _ _ (λ e. (ground (arith, e), λ x. omega arith))
          (λ address e.
            option_both Makes memory.for_url _ _
              (λ e'.
                fail-Makes (zeroed address) _ (ground (arith, e'))
                  (λ x. omega (arith, count-owned x (zeroed {T = T} address))))
              (λ url_address e'.
                init_url-Makes address url_address _
                  (copy_url-Reads memory.url_block url chars size))))
