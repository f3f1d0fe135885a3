-- ===== src/Main.antt =====
-- cmd/depot: how the command builds the authenticator and the quota enforcer from the configuration.
pub mod Credentials
pub mod Wiring
pub mod Start
mod Examples
use orbit_depot_prototype.Base.{
  Bool, true, false, not, ◌&&◌, ◌||◌, Option, none, some, List, [], ◌∷◌, if◌then◌else◌,
}
use orbit_depot_prototype.Base.Int.{ℤ}
use orbit_depot_prototype.Base.Text.{Text, ◌==◌}
use orbit_depot_prototype.Base.Exec.{Result, ok, err}
use orbit_depot_prototype.Quota.{Enforcer, allow_all, enforcer}
use orbit_depot_prototype.Auth.{
  Authenticator, AuthEnv, anonymous_auth, api_key_auth, oidc_auth, token_router, with_service_key,
  chain,
}

-- What the wiring reads of the configuration and the environment: the credentials that are enabled,
-- the admin claim and its values, whether OIDC discovery succeeds, whether there is a store, and
-- the service key of the environment.
pub record Settings : Type 0 where
  pub oidc : Bool
  pub api_key : Bool
  pub anonymous : Bool
  pub service_key : Bool
  pub admin_claim : Text
  pub admin_values : List Text
  pub discovered : Bool
  pub has_store : Bool
  pub service_key_env : Text

pub data BuildError : Type 0 where
  no_discovery no_store empty_service_key : BuildError

abbrev pub build_oidc : AuthEnv → Settings → Result BuildError (Option Authenticator)
build_oidc env s =
    if s.oidc
    then (if s.discovered
        then ok (some (oidc_auth env s.admin_claim s.admin_values))
        else err no_discovery)
    else ok none

abbrev pub build_api_key : AuthEnv → Settings → Result BuildError (Option Authenticator)
build_api_key env s =
    if s.api_key
    then (if s.has_store then ok (some (api_key_auth env)) else err no_store)
    else ok none

abbrev pub build_service_key : Settings → Result BuildError Text
build_service_key s =
    if s.service_key
    then (if s.service_key_env == [] then err empty_service_key else ok s.service_key_env)
    else ok []

abbrev pub routed : Option Authenticator → Option Authenticator → Option Authenticator
routed none none = none
routed none (some k) = some (token_router none (some k))
routed (some o) key = some (token_router (some o) key)

abbrev pub chained : Option Authenticator → Bool → Authenticator
chained none accepts_anonymous = anonymous_auth
chained (some t) accepts_anonymous = chain (some t) accepts_anonymous

-- The first part that fails ends the build, in the order of the code.
abbrev pub compose :
    Bool
    → Result BuildError (Option Authenticator)
    → Result BuildError (Option Authenticator)
    → Result BuildError Text
    → Result BuildError Authenticator
compose accepts_anonymous (err e) key service = err e
compose accepts_anonymous (ok o) (err e) service = err e
compose accepts_anonymous (ok o) (ok k) (err e) = err e
compose accepts_anonymous (ok o) (ok k) (ok service) =
    ok (chained (with_service_key service (routed o k)) accepts_anonymous)

-- `buildAuth`
unfoldable pub build_auth : AuthEnv → Settings → Result BuildError Authenticator
build_auth env s =
    compose s.anonymous (build_oidc env s) (build_api_key env s) (build_service_key s)

-- `buildQuota`
unfoldable pub build_quota : Bool → ℤ → List (Text × ℤ) → Enforcer
build_quota false default_quota overrides = allow_all
build_quota true default_quota overrides = enforcer default_quota overrides
