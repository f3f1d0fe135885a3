-- ===== src/Main/Start.antt =====
-- `run` of cmd/depot/main.go up to the server: what the command builds of the configuration.
pub mod Places
pub mod Sound
pub mod Ready
mod Examples
use orbit_depot_prototype.Base.{
  ◌≡◌, ◌≢◌, refl, sym, ap, subst, ◌∙◌, Bool, true, false, not, ◌&&◌, ◌||◌, Option, none, some, List,
  [], ◌∷◌, map, if◌then◌else◌, arith,
}
use orbit_depot_prototype.Base.Int.{ℤ}
use orbit_depot_prototype.Base.Text.{Text, codes, ◌==◌, ==_iff}
use orbit_depot_prototype.Base.Exec.{Result, ok, err, and_then, and_then-ok, result-injective}
use orbit_depot_prototype.Config.{Depot, PlaceConfig, LoadError, stateful, load}
use orbit_depot_prototype.Config.Validation.{IsConsistentConfig, Loaded, load_iff}
use orbit_depot_prototype.Place.{Definition, Place, Registry, PlaceError, new, resolve}
use orbit_depot_prototype.Place.Policy.Routing.{default_resolves}
use orbit_depot_prototype.Auth.{Authenticator, AuthEnv}
use orbit_depot_prototype.Fs.{Driver}
use orbit_depot_prototype.Fs.Creation.{HostSystem, NewError, new_driver}
use orbit_depot_prototype.Api.{Server, Limiter}
use orbit_depot_prototype.Main.{Settings, BuildError, build_auth, build_quota}
use orbit_depot_prototype.Main.Wiring.{Guarded, build_auth-Guarded}
use orbit_depot_prototype.Service.Handlers.{KeepsRows}

-- What the command asks of its host: the file, the decoder and `os.Stat` for the configuration, the
-- driver's host, whether `sqlite.Open` opens the file, whether OIDC discovery succeeds at the issuer,
-- what the authenticators read, `DEPOT_SERVICE_KEY`, and the limiter.
pub record Host (H : Type 0) : Type 0 where
  pub read : Text → Option Text
  pub parse : Text → Option Depot
  pub exists : Text → Bool
  pub system : HostSystem
  pub opens : Text → Bool
  pub discovers : Text → Bool
  pub auth_env : AuthEnv
  pub service_key_env : Text
  pub limiter : Limiter H

pub data StartError : Type 0 where
  no_config : LoadError → StartError
  no_driver : NewError → StartError
  s3_not_implemented unknown_driver : StartError
  bad_places : PlaceError → StartError
  store_unopened postgres_not_implemented unknown_backend : StartError
  no_auth : BuildError → StartError

abbrev pub or_start : {E A : Type 0} → (E → StartError) → Result E A → Result StartError A
or_start f (ok a) = ok a
or_start f (err e) = err (f e)

module _ {H : Type 0} (host : Host H) where
  -- `buildDriver`
  unfoldable pub build_driver : Depot → Result StartError Driver
  build_driver d =
      if d.driver == codes "fs"
      then or_start no_driver (new_driver host.system d.fs.root d.public_url)
      else if d.driver == codes "s3"
      then err s3_not_implemented
      else err unknown_driver

  -- `buildStore`: whether there is a store.
  unfoldable pub build_store : Depot → Result StartError Bool
  build_store d =
      if not (stateful d.credentials)
      then ok false
      else if d.store.backend == codes "sqlite"
      then (if host.opens d.store.path then ok true else err store_unopened)
      else if d.store.backend == codes "postgres"
      then err postgres_not_implemented
      else err unknown_backend

  abbrev pub settings : Depot → Bool → Settings
  settings d has_store = record {
    oidc = d.credentials.oidc;
    api_key = d.credentials.api_key;
    anonymous = d.credentials.anonymous;
    service_key = d.service_key.enabled;
    admin_claim = d.admin.claim;
    admin_values = d.admin.values;
    discovered = host.discovers d.oidc.issuer;
    has_store = has_store;
    service_key_env = host.service_key_env;
  }

abbrev pub definition : PlaceConfig → Definition
definition p = record {
  prefix = p.prefix;
  strategy = p.key;
  max_size = p.max_size;
  allowed_mime = p.allowed_mime;
  require_identity = p.require_identity;
}

abbrev pub definitions : List (Text × PlaceConfig) → List (Text × Definition)
definitions [] = []
definitions ((name, p) ∷ places) = (name, definition p) ∷ definitions places

-- `buildPlaces`
unfoldable pub build_places : Depot → Result PlaceError Registry
build_places d = new (definitions d.places) d.default_place d.limits.max_file_size

module _ {H : Type 0} (host : Host H) where
  -- `api.New` on the parts
  abbrev pub assemble : Depot → Driver → Registry → Bool → Authenticator → Server H
  assemble d driver places has_store auth = record {
    driver = some driver;
    auth = some auth;
    places = some places;
    has_store = has_store;
    limiter = some host.limiter;
    quota = build_quota has_store d.limits.default_quota d.quota_overrides;
    rate_per_ip = d.limits.rate_limit_per_ip;
    rate_per_user = d.limits.rate_limit_per_user;
    oneshot_rate = d.limits.oneshot_rate_limit;
    max_file_size = d.limits.max_file_size;
    trust_forwarded_for = d.trust_forwarded_for;
  }

  -- The start of `run`: the first part that cannot be built ends it.
  unfoldable pub start : Text → Result StartError (Depot × Server H)
  start path = and_then (or_start no_config (load host.read host.parse host.exists path)) λ d.
      and_then (build_driver host d) λ driver.
        and_then (or_start bad_places (build_places d)) λ places.
          and_then (build_store host d) λ has_store.
            and_then (or_start no_auth (build_auth host.auth_env (settings host d has_store)))
              λ auth. ok (d, assemble d driver places has_store auth)
