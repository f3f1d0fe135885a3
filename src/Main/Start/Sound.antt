-- ===== src/Main/Start/Sound.antt =====
-- The server that the command starts, against its configuration.
use orbit_depot_prototype.Base.{
  ◌||◌, ◌≡◌, ◌≢◌, refl, sym, ap, subst, ◌∙◌, Bool, true, false, some, [], arith, Bool-cases, inl,
  inr, some-injective,
}
use orbit_depot_prototype.Base.Text.{Text, codes, ◌==◌, ==_iff}
use orbit_depot_prototype.Base.Exec.{Result, ok, err, and_then-ok, result-injective}
use orbit_depot_prototype.Config.{Depot, stateful, load}
use orbit_depot_prototype.Config.Validation.{Loaded, load_iff}
use orbit_depot_prototype.Place.{Place, Registry, resolve}
use orbit_depot_prototype.Place.Policy.Routing.{default_resolves}
use orbit_depot_prototype.Quota.{allow_all, enforcer}
use orbit_depot_prototype.Fs.Creation.{new_driver}
use orbit_depot_prototype.Main.Start.Places.{Serves, build_places-Serves}
use orbit_depot_prototype.Store.Sqlite.Engine.{Engine}
use orbit_depot_prototype.Auth.{Authenticator}
use orbit_depot_prototype.Auth.Downgrade.{KeepsUploads}
use orbit_depot_prototype.Fs.{Driver}
use orbit_depot_prototype.Api.{Server, World}
use orbit_depot_prototype.Main.{build_auth, build_quota}
use orbit_depot_prototype.Main.Wiring.{Guarded, build_auth-Guarded}
use orbit_depot_prototype.Main.Start.{
  Host, StartError, no_config, no_driver, bad_places, no_auth, or_start, build_driver, build_store,
  settings, definitions, build_places, start,
}
use orbit_depot_prototype.Service.{Reach}
use orbit_depot_prototype.Service.Catalogue.{IsCatalogue}
use orbit_depot_prototype.Service.Reachable.{Reach-IsCatalogue}

module _ {H : Type 0} (host : Host H) where
  -- What is behind a server that starts.
  pub record Started (path : Text) (d : Depot) (srv : Server H) : Type 0 where
    pub loaded : Loaded host.read host.parse host.exists path d
    pub auth : Authenticator
    pub has_auth : srv.auth ≡ some auth
    pub guarded :
        Guarded host.auth_env
          (record {
            oidc = d.credentials.oidc;
            api_key = d.credentials.api_key;
            anonymous = d.credentials.anonymous;
            service_key = d.service_key.enabled;
            admin_claim = d.admin.claim;
            admin_values = d.admin.values;
            discovered = host.discovers d.oidc.issuer;
            has_store = srv.has_store;
            service_key_env = host.service_key_env;
          })
          auth
    pub driver : Driver
    pub has_driver : srv.driver ≡ some driver
    pub local : d.driver ≡ codes "fs"
    pub created : new_driver host.system d.fs.root d.public_url ≡ ok driver
    pub places : Registry
    pub has_places : srv.places ≡ some places
    pub serves : Serves d places
    pub default_place : d.default_place ≢ [] → (p : Place) × (resolve places [] ≡ ok p)
    pub store : srv.has_store ≡ (d.credentials.oidc || d.credentials.api_key)
    pub sqlite :
        (d.credentials.oidc || d.credentials.api_key) ≡ true → d.store.backend ≡ codes "sqlite"
    pub unlimited : (d.credentials.oidc || d.credentials.api_key) ≡ false → srv.quota ≡ allow_all
    pub limited :
        (d.credentials.oidc || d.credentials.api_key) ≡ true
        → srv.quota ≡ enforcer d.limits.default_quota d.quota_overrides
    pub limiter : srv.limiter ≡ some host.limiter
    pub rate_per_ip : srv.rate_per_ip ≡ d.limits.rate_limit_per_ip
    pub rate_per_user : srv.rate_per_user ≡ d.limits.rate_limit_per_user
    pub oneshot_rate : srv.oneshot_rate ≡ d.limits.oneshot_rate_limit
    pub max_file_size : srv.max_file_size ≡ d.limits.max_file_size
    pub trusts : srv.trust_forwarded_for ≡ d.trust_forwarded_for

  or_start-ok :
      {E A : Type 0} (f : E → StartError) (r : Result E A) (a : A) → or_start f r ≡ ok a → r ≡ ok a
  or_start-ok f (ok b) a h = ap ok (result-injective h)
  or_start-ok f (err x) a h = cc h

  local_driver :
      (d : Depot) (driver : Driver)
      → build_driver host d ≡ ok driver
      → (d.driver ≡ codes "fs") × (new_driver host.system d.fs.root d.public_url ≡ ok driver)
  unfolding build_driver
  local_driver d driver h = elim (Bool-cases (d.driver == codes "fs")) [
    | inl local ↦ (
      (==_iff d.driver (codes "fs")).0 local,
      or_start-ok no_driver (new_driver host.system d.fs.root d.public_url) driver (rw local at h),
    )
    | inr other ↦ absurd (ground (arith, other))
  ]

  store_built :
      (d : Depot) (has : Bool)
      → build_store host d ≡ ok has
      → (has ≡ (d.credentials.oidc || d.credentials.api_key))
        × ((d.credentials.oidc || d.credentials.api_key) ≡ true → d.store.backend ≡ codes "sqlite")
  unfolding build_store stateful
  store_built d has h = ground (arith, ==_iff d.store.backend (codes "sqlite"))

  quota_built :
      (d : Depot) (has : Bool)
      → has ≡ (d.credentials.oidc || d.credentials.api_key)
      → ((d.credentials.oidc || d.credentials.api_key) ≡ false
          → build_quota has d.limits.default_quota d.quota_overrides ≡ allow_all)
        × ((d.credentials.oidc || d.credentials.api_key) ≡ true
            → build_quota has d.limits.default_quota d.quota_overrides
              ≡ enforcer d.limits.default_quota d.quota_overrides)
  unfolding build_quota
  quota_built d true same = (λ stateless. cc (same ∙ stateless), λ on. refl)
  quota_built d false same = (λ stateless. refl, λ on. cc (same ∙ on))

  -- A server that starts runs on a configuration that loaded and keeps the rules. It has the fs driver
  -- that is created for the configured root and public URL, and an authenticator that resolves only
  -- identities with a credential of the configuration behind them and never takes a presented token
  -- for an anonymous caller where a token credential is enabled. A configured place answers under its
  -- name with its prefix, strategy, size limit (that of the depot if it has none), types and need of an
  -- identity, any other name is unknown, and no name means the default place, which is there if it is
  -- set. It has a store, of SQLite, exactly where OIDC or API keys are enabled, and then the
  -- configured quotas, and without one no quota; it has the limiter of the host, and the configured
  -- rates, largest file size and trust in the forwarded address.
  pub start_lem :
      (path : Text) (d : Depot) (srv : Server H)
      → start host path ≡ ok (d, srv)
      → Started path d srv
  unfolding start build_places
  start_lem path d srv h =
      let (d', loaded, h1) =
        and_then-ok (or_start no_config (load host.read host.parse host.exists path)) _ (d, srv)
          h in
      let (driver, built, h2) = and_then-ok (build_driver host d') _ (d, srv) h1 in
      let (places, placed, h3) =
        and_then-ok (or_start bad_places (build_places d')) _ (d, srv) h2 in
      let (has, stored, h4) = and_then-ok (build_store host d') _ (d, srv) h3 in
      let (auth, authed, h5) =
        and_then-ok (or_start no_auth (build_auth host.auth_env (settings host d' has))) _ (d, srv)
          h4 in
      let (same_store, sqlite) = store_built d' has stored in
      let both = result-injective h5 in
      subst (λ x. Started path x.0 x.1) both
        (record {
          loaded =
              (load_iff host.read host.parse host.exists path d').0
                (or_start-ok no_config (load host.read host.parse host.exists path) d' loaded);
          auth = auth;
          has_auth = refl;
          guarded =
              build_auth-Guarded host.auth_env (settings host d' has) auth
                (or_start-ok no_auth (build_auth host.auth_env (settings host d' has)) auth authed);
          driver = driver;
          has_driver = refl;
          local = (local_driver d' driver built).0;
          created = (local_driver d' driver built).1;
          places = places;
          has_places = refl;
          serves =
              build_places-Serves d' places
                (or_start-ok bad_places (build_places d') places placed);
          default_place = λ set.
              let (p, found, _) =
                default_resolves (definitions d'.places) d'.default_place d'.limits.max_file_size
                  places (or_start-ok bad_places (build_places d') places placed) set in
              (p, found);
          store = same_store;
          sqlite = sqlite;
          unlimited = (quota_built d' has same_store).0;
          limited = (quota_built d' has same_store).1;
          limiter = refl;
          rate_per_ip = refl;
          rate_per_user = refl;
          oneshot_rate = refl;
          max_file_size = refl;
          trusts = refl;
        })

  -- From its start on, whatever it is asked, a depot that starts on a table of uploads with no key twice
  -- and only keys that the driver serves keeps such a table.
  pub start-Reach :
      (e : Engine) (path : Text) (d : Depot) (srv : Server H) {v w : World H}
      → start host path ≡ ok (d, srv)
      → IsCatalogue v.db.uploads
      → Reach e srv v w
      → IsCatalogue w.db.uploads
  start-Reach e path d srv h i r =
      let s = start_lem path d srv h in
      Reach-IsCatalogue e srv
        (record {
          at = λ a has.
              subst (λ x. KeepsUploads x) (some-injective (sym s.has_auth ∙ has)) (s.guarded.keeps);
        })
        i r
