-- ===== src/Config/Validation.antt =====
-- `Validate` and `Load` of internal/config/config.go, against the rules that they enforce.
use orbit_depot_prototype.Base.{
  ◌≡◌, ◌≢◌, ◌↔◌, refl, sym, subst, ◌⊎◌, Bool, true, Option, none, some, List, [], ◌∷◌, arith,
}
use orbit_depot_prototype.Base.Text.{Text, codes, ==_iff, lookup}
use orbit_depot_prototype.Base.Exec.{ok, and_then-ok}
use orbit_depot_prototype.Config.{
  Depot, stateful, any_credential, apply_defaults, is_none, is_empty, check_driver,
  check_credentials, check_store, check_redis, check_places, check_index, validate_config,
  validated, decoded, opened, load,
}

-- The rules, read off the comments of the configuration.
pub record IsConsistentConfig (exists : Text → Bool) (d : Depot) : Type 0 where
  pub driver :
      ((d.driver ≡ codes "s3") × (d.s3.endpoint ≢ []) × (d.s3.bucket ≢ []))
      ⊎ ((d.driver ≡ codes "fs") × (d.fs.root ≢ []) × (d.public_url ≢ []))
  pub credential : (d.credentials.anonymous ≡ true) ⊎ (stateful d.credentials ≡ true)
  pub issuer : d.credentials.oidc ≡ true → d.oidc.issuer ≢ []
  pub store :
      stateful d.credentials ≡ true
      → ((d.store.backend ≡ codes "sqlite") × (d.store.path ≢ []))
        ⊎ ((d.store.backend ≡ codes "postgres") × (d.store.dsn ≢ []))
  pub redis : d.redis.enabled ≡ true → (d.redis.addr ≢ []) ⊎ (d.redis.addrs ≢ [])
  pub places : d.places ≢ []
  pub default_place : d.default_place ≢ [] → lookup d.default_place d.places ≢ none
  pub index_file : d.index_file ≢ [] → exists d.index_file ≡ true

module _ (d : Depot) where
  driver_iff : (check_driver d ≡ ok tt) ↔ (
      ((d.driver ≡ codes "s3") × (d.s3.endpoint ≢ []) × (d.s3.bucket ≢ []))
      ⊎ ((d.driver ≡ codes "fs") × (d.fs.root ≢ []) × (d.public_url ≢ [])))
  driver_iff = ground (
    arith,
    ==_iff d.driver (codes "s3"),
    ==_iff d.driver (codes "fs"),
    ==_iff d.s3.endpoint [],
    ==_iff d.s3.bucket [],
    ==_iff d.fs.root [],
    ==_iff d.public_url [],
  )

  credentials_iff : (check_credentials d ≡ ok tt) ↔ (
      ((d.credentials.anonymous ≡ true) ⊎ (stateful d.credentials ≡ true))
      × (d.credentials.oidc ≡ true → d.oidc.issuer ≢ []))
  unfolding stateful any_credential
  credentials_iff = ground (arith, ==_iff d.oidc.issuer [])

  store_iff : (check_store d ≡ ok tt) ↔ (
      stateful d.credentials ≡ true
      → ((d.store.backend ≡ codes "sqlite") × (d.store.path ≢ []))
        ⊎ ((d.store.backend ≡ codes "postgres") × (d.store.dsn ≢ [])))
  store_iff = ground (
    arith,
    ==_iff d.store.backend (codes "sqlite"),
    ==_iff d.store.backend (codes "postgres"),
    ==_iff d.store.path [],
    ==_iff d.store.dsn [],
  )

  empty_iff : {A : Type 0} (xs : List A) → (is_empty xs ≡ true) ↔ (xs ≡ [])
  empty_iff [] = (λ h. refl, λ h. refl)
  empty_iff (x ∷ xs) = (λ h. cc h, λ h. cc h)

  redis_iff :
      (check_redis d ≡ ok tt)
      ↔ (d.redis.enabled ≡ true → (d.redis.addr ≢ []) ⊎ (d.redis.addrs ≢ []))
  redis_iff = ground (arith, ==_iff d.redis.addr [], empty_iff d.redis.addrs)

  none_iff : {A : Type 0} (o : Option A) → (is_none o ≡ true) ↔ (o ≡ none)
  none_iff none = (λ h. refl, λ h. refl)
  none_iff (some a) = (λ h. cc h, λ h. cc h)

  places_iff :
      (check_places d ≡ ok tt)
      ↔ ((d.places ≢ []) × (d.default_place ≢ [] → lookup d.default_place d.places ≢ none))
  places_iff = ground (
    arith,
    ==_iff d.default_place [],
    empty_iff d.places,
    none_iff (lookup d.default_place d.places),
  )

  index_iff :
      (exists : Text → Bool)
      → (check_index exists d ≡ ok tt) ↔ (d.index_file ≢ [] → exists d.index_file ≡ true)
  index_iff exists = ground (arith, ==_iff d.index_file [])

-- Validation passes exactly on the configurations that keep the rules, whatever `os.Stat` answers: the
-- driver, the issuer and the store have the fields they need, some credential is enabled, Redis has an
-- address where it is enabled, there is a place, the default place is one of them, and the index file
-- exists.
pub validate_config_iff :
    (exists : Text → Bool) (d : Depot)
    → (validate_config exists d ≡ ok tt) ↔ IsConsistentConfig exists d
unfolding validate_config
validate_config_iff exists d = (accepted, accepts)
  where
    accepted : validate_config exists d ≡ ok tt → IsConsistentConfig exists d
    accepted h =
        let (u1, driver, h1) = and_then-ok (check_driver d) _ tt h in
        let (u2, credentials, h2) = and_then-ok (check_credentials d) _ tt h1 in
        let (u3, store, h3) = and_then-ok (check_store d) _ tt h2 in
        let (u4, redis, h4) = and_then-ok (check_redis d) _ tt h3 in
        let (u5, places, index) = and_then-ok (check_places d) _ tt h4 in
        let (credential, issuer) = (credentials_iff d).0 credentials in
        let (some_place, known) = (places_iff d).0 places in
        record {
          driver = (driver_iff d).0 driver;
          credential = credential;
          issuer = issuer;
          store = (store_iff d).0 store;
          redis = (redis_iff d).0 redis;
          places = some_place;
          default_place = known;
          index_file = (index_iff d exists).0 index;
        }

    accepts : IsConsistentConfig exists d → validate_config exists d ≡ ok tt
    accepts c = rw ((driver_iff d).1 c.driver) (
        rw ((credentials_iff d).1 (c.credential, c.issuer)) (
          rw ((store_iff d).1 c.store) (
            rw ((redis_iff d).1 c.redis) (
              rw ((places_iff d).1 (c.places, c.default_place))
                ((index_iff d exists).1 c.index_file)))))

-- Where a configuration is read, it is the one of the file.
pub record Loaded (read : Text → Option Text) (parse : Text → Option Depot) (exists : Text → Bool)
    (path : Text) (d : Depot) : Type 0 where
  pub data' : Text
  pub written : Depot
  pub is_read : read path ≡ some data'
  pub is_parsed : parse data' ≡ some written
  pub defaulted : d ≡ apply_defaults written
  pub consistent : IsConsistentConfig exists d

validated-ok :
    (exists : Text → Bool) (d loaded : Depot)
    → validated exists d ≡ ok loaded
    → (validate_config exists d ≡ ok tt) × (d ≡ loaded)
validated-ok exists d loaded h = ground arith

opened-ok :
    (read : Text → Option Text) (parse : Text → Option Depot) (exists : Text → Bool) (path : Text)
    (d : Depot) (o : Option Text)
    → read path ≡ o
    → opened parse exists o ≡ ok d
    → Loaded read parse exists path d
opened-ok read parse exists path d none e h = cc h
opened-ok read parse exists path d (some text) e h = from_parsed (parse text) refl h
  where
    from_parsed :
        (p : Option Depot)
        → parse text ≡ p
        → decoded exists p ≡ ok d
        → Loaded read parse exists path d
    from_parsed none k h = cc h
    from_parsed (some written) k h =
        let (valid, same) = validated-ok exists (apply_defaults written) d h in
        record {
          data' = text;
          written = written;
          is_read = e;
          is_parsed = k;
          defaulted = sym same;
          consistent =
              subst (λ x. IsConsistentConfig exists x) same
                ((validate_config_iff exists (apply_defaults written)).0 valid);
        }

default_listen_set : (d : Depot) → (apply_defaults d).listen ≢ []
unfolding apply_defaults
default_listen_set d = ground (arith, ==_iff d.listen [])

default_region_set :
    (d : Depot) → (apply_defaults d).driver ≡ codes "s3" → (apply_defaults d).s3.region ≢ []
unfolding apply_defaults
default_region_set d h = ground (arith, ==_iff d.s3.region [], ==_iff d.driver (codes "s3"))

-- What loads has an address to listen on, and under the s3 driver a region.
pub Loaded-defaults :
    {read : Text → Option Text} {parse : Text → Option Depot} {exists : Text → Bool} {path : Text}
    {d : Depot}
    → Loaded read parse exists path d
    → (d.listen ≢ []) × (d.driver ≡ codes "s3" → d.s3.region ≢ [])
Loaded-defaults l =
    subst (λ d. (d.listen ≢ []) × (d.driver ≡ codes "s3" → d.s3.region ≢ [])) (sym l.defaulted)
      (default_listen_set l.written, default_region_set l.written)

-- The configuration loads exactly where the file is read and decoded and, with the defaults filled in,
-- keeps the rules of validation; what loads is the file's configuration with the defaults.
pub load_iff :
    (read : Text → Option Text) (parse : Text → Option Depot) (exists : Text → Bool) (path : Text)
    (d : Depot)
    → (load read parse exists path ≡ ok d) ↔ Loaded read parse exists path d
unfolding load
load_iff read parse exists path d = (
  opened-ok read parse exists path d (read path) refl,
  λ l.
      rw l.is_read
        (rw l.is_parsed (rw (← l.defaulted) (rw ((validate_config_iff exists d).1 l.consistent)))),
)
