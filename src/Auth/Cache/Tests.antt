-- ===== src/Auth/Cache/Tests.antt =====
-- Runs of the cached store, and its theorem at a concrete input.
use stile.Prelude.{ℕ, ◌≡◌, refl, none, some, List, [], ◌∷◌}
use stile.Prelude.Dict
use stile.Auth.Store
use stile.Auth.Store.{SqliteStore, not_found}
use stile.Auth.Store.Effects.{IsSound}
use stile.Auth.Cache.{fresh}
use stile.Auth.Cache.Requests.{
  Request, look_up, list_roles, create, create_key, revoke, assign, serve, key, roles, written,
}
use stile.Auth.Cache.Transparent.{serve_all, serve_all_inner, cache_transparent}

abbrev no_rows : SqliteStore
no_rows = record { callers = []; api_keys = []; caller_roles = []; next_caller = 1; next_key = 1 }

-- a caller, its key, two lookups of which the second is a hit, and a revocation
abbrev session : List (ℕ × Request)
session =
    (1, create "ann")
    ∷ (2, create_key "ann" "aa11" "laptop")
    ∷ (3, look_up "aa11")
    ∷ (4, look_up "aa11")
    ∷ (5, assign "ann" "dev")
    ∷ (6, list_roles "ann")
    ∷ (7, revoke "ann" "laptop")
    ∷ (8, look_up "aa11")
    ∷ (9, revoke "ann" "laptop")
    ∷ []

session_replies :
    serve_all session (fresh no_rows 60)
    ≡ written none
      ∷ written none
      ∷ key (some (record { caller_name = "ann"; key_label = "laptop" }))
      ∷ key (some (record { caller_name = "ann"; key_label = "laptop" }))
      ∷ written none
      ∷ roles ("dev" ∷ [])
      ∷ written none
      ∷ key none
      ∷ written (some not_found)
      ∷ []
unfolding serve_all serve Store.add_caller Store.add_key Store.assign_role Store.revoke_key
    Dict.empty Dict.put
session_replies = refl

no_rows-IsSound : IsSound no_rows
no_rows-IsSound = record { callers_below = tt; keys_below = tt; roles_below = tt }

cache_transparent_example : serve_all session (fresh no_rows 60) ≡ serve_all_inner session no_rows
cache_transparent_example = cache_transparent no_rows 60 session no_rows-IsSound
