-- ===== src/Config.antt =====
-- internal/config/config.go: the configuration, its defaults, its validation, and how it is loaded.
pub mod Units
pub mod Validation
pub mod Samples
mod Examples
use orbit_depot_prototype.Base.{
  Bool, true, false, not, ◌&&◌, ◌||◌, Option, none, some, List, [], ◌∷◌, if◌then◌else◌,
}
use orbit_depot_prototype.Base.Int.{ℤ}
use orbit_depot_prototype.Base.Text.{Text, codes, ◌==◌, lookup}
use orbit_depot_prototype.Base.Exec.{Result, ok, err, and_then}
use orbit_depot_prototype.Config.Units.{Rate}

pub record S3 : Type 0 where
  pub endpoint : Text
  pub bucket : Text
  pub region : Text
  pub access_key : Text
  pub secret_key : Text
  pub use_ssl : Option Bool

pub record Fs : Type 0 where
  pub root : Text

pub record Oidc : Type 0 where
  pub issuer : Text
  pub audience : Text

pub record Admin : Type 0 where
  pub claim : Text
  pub values : List Text

pub record ServiceKey : Type 0 where
  pub enabled : Bool

pub record Credentials : Type 0 where
  pub anonymous : Bool
  pub oidc : Bool
  pub api_key : Bool

pub record Limits : Type 0 where
  pub max_file_size : ℤ
  pub default_quota : ℤ
  pub rate_limit_per_ip : Rate
  pub rate_limit_per_user : Rate
  pub oneshot_rate_limit : Rate

pub record StoreConfig : Type 0 where
  pub backend : Text
  pub path : Text
  pub dsn : Text

pub record Redis : Type 0 where
  pub enabled : Bool
  pub addr : Text
  pub addrs : List Text
  pub password : Text
  pub db : ℤ

pub record PlaceConfig : Type 0 where
  pub prefix : Text
  pub key : Text
  pub max_size : ℤ
  pub allowed_mime : List Text
  pub require_identity : Bool

-- The table `[depot]`, which is all of the file.
pub record Depot : Type 0 where
  pub listen : Text
  pub driver : Text
  pub public_url : Text
  pub cors_origins : List Text
  pub trust_forwarded_for : Bool
  pub default_place : Text
  pub index_file : Text
  pub s3 : S3
  pub fs : Fs
  pub oidc : Oidc
  pub admin : Admin
  pub service_key : ServiceKey
  pub credentials : Credentials
  pub limits : Limits
  pub store : StoreConfig
  pub redis : Redis
  pub quota_overrides : List (Text × ℤ)
  pub places : List (Text × PlaceConfig)

-- `Credentials.Stateful`
unfoldable pub stateful : Credentials → Bool
stateful c = c.oidc || c.api_key

-- `Credentials.Any`
unfoldable pub any_credential : Credentials → Bool
any_credential c = c.anonymous || (c.oidc || c.api_key)

abbrev default_listen : Text
default_listen = codes ":3000"

-- `applyDefaults`
unfoldable pub apply_defaults : Depot → Depot
apply_defaults d =
    let s3 = d.s3 in
    record d {
      listen = if d.listen == [] then default_listen else d.listen;
      s3 =
          if d.driver == codes "s3" && s3.region == []
          then record s3 { region = codes "auto" }
          else s3;
    }

pub data ConfigError : Type 0 where
  s3_incomplete no_fs_root no_public_url bad_driver : ConfigError
  no_credential no_issuer : ConfigError
  no_store_path no_store_dsn bad_backend : ConfigError
  no_redis_addr no_places unknown_default unreadable_index : ConfigError

abbrev pub is_none {ℓ} : {A : Type ℓ} → Option A → Bool
is_none none = true
is_none (some a) = false

abbrev pub is_empty {ℓ} : {A : Type ℓ} → List A → Bool
is_empty [] = true
is_empty (x ∷ xs) = false

-- `if wrong { return errors.New(…) }`
abbrev pub refuse : Bool → ConfigError → Result ConfigError Unit
refuse true e = err e
refuse false e = ok tt

abbrev pub check_driver : Depot → Result ConfigError Unit
check_driver d =
    if d.driver == codes "s3"
    then refuse (d.s3.endpoint == [] || d.s3.bucket == []) s3_incomplete
    else if d.driver == codes "fs"
    then (and_then (refuse (d.fs.root == []) no_fs_root)
        λ u. refuse (d.public_url == []) no_public_url)
    else err bad_driver

abbrev pub check_credentials : Depot → Result ConfigError Unit
check_credentials d =
    and_then (refuse (not (any_credential d.credentials)) no_credential)
      λ u. refuse (d.credentials.oidc && d.oidc.issuer == []) no_issuer

abbrev pub check_store : Depot → Result ConfigError Unit
check_store d =
    if stateful d.credentials
    then (if d.store.backend == codes "sqlite"
        then refuse (d.store.path == []) no_store_path
        else if d.store.backend == codes "postgres"
        then refuse (d.store.dsn == []) no_store_dsn
        else err bad_backend)
    else ok tt

abbrev pub check_redis : Depot → Result ConfigError Unit
check_redis d =
    refuse (d.redis.enabled && (d.redis.addr == [] && is_empty d.redis.addrs)) no_redis_addr

abbrev pub check_places : Depot → Result ConfigError Unit
check_places d = and_then (refuse (is_empty d.places) no_places) λ u.
    refuse (not (d.default_place == []) && is_none (lookup d.default_place d.places))
      unknown_default

-- `exists` says whether `os.Stat` finds the file.
abbrev pub check_index : (Text → Bool) → Depot → Result ConfigError Unit
check_index exists d =
    refuse (not (d.index_file == []) && not (exists d.index_file)) unreadable_index

-- `(*Config).Validate`
unfoldable pub validate_config : (Text → Bool) → Depot → Result ConfigError Unit
validate_config exists d = and_then (check_driver d) λ u. and_then (check_credentials d) λ u.
    and_then (check_store d)
      λ u. and_then (check_redis d) λ u. and_then (check_places d) λ u. check_index exists d

pub data LoadError : Type 0 where
  unread unparsed : LoadError
  invalid : ConfigError → LoadError

abbrev pub validated : (Text → Bool) → Depot → Result LoadError Depot
validated exists d = or_invalid (validate_config exists d)
  where
    or_invalid : Result ConfigError Unit → Result LoadError Depot
    or_invalid (ok u) = ok d
    or_invalid (err e) = err (invalid e)

abbrev pub decoded : (Text → Bool) → Option Depot → Result LoadError Depot
decoded exists none = err unparsed
decoded exists (some d) = validated exists (apply_defaults d)

abbrev pub opened : (Text → Option Depot) → (Text → Bool) → Option Text → Result LoadError Depot
opened parse exists none = err unread
opened parse exists (some data') = decoded exists (parse data')

-- `Load`; `read` is `os.ReadFile`, and `parse` is the TOML decoder, which refuses unknown fields.
unfoldable pub load :
    (Text → Option Text) → (Text → Option Depot) → (Text → Bool) → Text → Result LoadError Depot
load read parse exists path = opened parse exists (read path)
