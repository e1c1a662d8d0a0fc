-- ===== src/Client/Session/Ledger.antt =====
-- What the client of xsp_ws_client.c has allocated and not freed, by counting addresses.
use xsp.Prelude.{ℕ, ◌+◌, ◌≡◌, List, [], ◌∷◌, ◌++◌, Option, none, some, arith}
use xsp.Prelude.Count.{count, count-append}
use xsp.Client.Session.{Session, address_of, overread_of, cleanup}

module _ {T : Type 0} where
  -- What `xsp_ws_client_cleanup` would free.
  abbrev pub owned : Session T → List ℕ
  owned s = (cleanup s).1

  abbrev pub owned_by : Option (Session T) → List ℕ
  owned_by none = []
  owned_by (some s) = owned s

  pub count-owned :
      (x : ℕ) (s : Session T)
      → count x (owned s)
        ≡ count x (overread_of s.client s.overread_address)
          + count x (address_of s.response_subprotocols)
          + count x (address_of s.request_subprotocols)
          + count x (address_of s.password)
          + count x (address_of s.username)
          + count x (address_of s.url)
          + count x (s.address ∷ [])
  unfolding cleanup
  count-owned x s =
      add_up (overread_of s.client s.overread_address) (address_of s.response_subprotocols)
        (address_of s.request_subprotocols) (address_of s.password) (address_of s.username)
        (address_of s.url) (s.address ∷ [])
    where
      add_up :
          (a b c d e f g : List ℕ)
          → count x (a ++ (b ++ (c ++ (d ++ (e ++ (f ++ g))))))
            ≡ count x a + count x b + count x c + count x d + count x e + count x f + count x g
      add_up a b c d e f g = omega (
        arith,
        count-append x a (b ++ (c ++ (d ++ (e ++ (f ++ g))))),
        count-append x b (c ++ (d ++ (e ++ (f ++ g)))),
        count-append x c (d ++ (e ++ (f ++ g))),
        count-append x d (e ++ (f ++ g)),
        count-append x e (f ++ g),
        count-append x f g,
      )
