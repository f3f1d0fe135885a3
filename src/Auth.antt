-- ===== src/Auth.antt =====
-- internal/auth: who is calling. An authenticator resolves a request to an identity, or rejects it.
pub mod Invariant
pub mod Downgrade
pub mod Credentials
pub mod Evidence
mod Examples
use orbit_depot_prototype.Base.{
  ℕ, ◌*◌, Bool, true, false, not, ◌&&◌, ◌||◌, Option, none, some, List, [], ◌∷◌, map, if◌then◌else◌,
  length, take, drop, leb,
}
use orbit_depot_prototype.Base.Int.{ℤ, pos, ◌+ℤ◌}
use orbit_depot_prototype.Base.Clock.{Time, after, second}
use orbit_depot_prototype.Base.Text.{
  Text, codes, ◌==◌, has_prefix, to_lower, trim_space, hex_encode, contains,
}
use orbit_depot_prototype.Base.Exec.{Result, ok, err, Exec, fail, pure}
use orbit_depot_prototype.Http.{Request}
use orbit_depot_prototype.Store.{StoreError, ApiKey}
use orbit_depot_prototype.Store.Sqlite.{Db, resolve_key, touch_key}

pub data Method : Type 0 where
  anonymous oidc api_key service_key : Method

pub record Identity : Type 0 where
  pub subject : Text
  pub issuer : Text
  pub method : Method
  pub anonymous : Bool
  pub admin : Bool

-- `ErrNoCredential`, and `ErrUnauthorized` with whatever it wraps.
pub data AuthError : Type 0 where
  no_credential unauthorized : AuthError

-- An `Authenticator`: it may look a key up in the store, and record its use.
abbrev pub Authenticator : Type 0
Authenticator = Request → Exec AuthError Db Identity

-- What go-oidc makes of a verified token; `none` stands for a zero time. The claims are those that
-- hold a string, `none` where the payload does not decode.
pub record IdToken : Type 0 where
  pub subject : Text
  pub issuer : Text
  pub expiry : Option Time
  pub issued_at : Option Time
  pub claims : Option (Text → Option Text)

-- What authentication reads of its surroundings: go-oidc's `Verify` (signature, issuer, audience),
-- SHA-256, and the clock.
pub record AuthEnv : Type 0 where
  pub verify : Text → Option IdToken
  pub sha256 : Text → Text
  pub now : Time

abbrev non_empty : Text → Option Text
non_empty [] = none
non_empty (c ∷ s) = some (c ∷ s)

abbrev bearer_prefix : Text
bearer_prefix = codes "Bearer "

-- The token of an "Authorization: Bearer <token>" header, `none` where there is none.
unfoldable pub bearer_token : Request → Option Text
bearer_token r =
    let h = r.header (codes "Authorization") in
    if leb (length h) (length bearer_prefix)
      || not (map to_lower (take (length bearer_prefix) h) == map to_lower bearer_prefix)
    then none
    else non_empty (trim_space (drop (length bearer_prefix) h))

-- `raw, ok := bearerToken(r); if !ok { … }`
abbrev pub on_token {ℓ} : {A : Type ℓ} → Option Text → A → (Text → A) → A
on_token none absent present = absent
on_token (some raw) absent present = present raw

abbrev pub anonymous_identity : Identity
anonymous_identity = record {
  subject = [];
  issuer = [];
  method = Method.anonymous;
  anonymous = true;
  admin = false;
}

-- `Anonymous()`
unfoldable pub anonymous_auth : Authenticator
anonymous_auth r db = (ok anonymous_identity, db)

abbrev pub api_key_prefix : Text
api_key_prefix = codes "depot_"

unfoldable pub looks_like_api_key : Text → Bool
looks_like_api_key raw = has_prefix raw api_key_prefix

unfoldable pub hash_api_key : (Text → Text) → Text → Text
hash_api_key sha256 raw = hex_encode (sha256 raw)

abbrev is_past : Time → Option Time → Bool
is_past now none = false
is_past now (some t) = after now t

abbrev pub key_identity : ApiKey → Identity
key_identity k = record {
  subject = k.owner_account;
  issuer = k.owner_issuer;
  method = Method.api_key;
  anonymous = false;
  admin = false;
}

-- The identity of a key that is live. The result of `TouchKey` is dropped, its write is kept.
abbrev pub accept_key : Time → Result StoreError ApiKey → Exec AuthError Db Identity
accept_key now (err e) db = (err unauthorized, db)
accept_key now (ok k) db =
    if is_past now k.expires_at
    then (err unauthorized, db)
    else (ok (key_identity k), (touch_key k.id now db).1)

-- `APIKey(keys)`
unfoldable pub api_key_auth : AuthEnv → Authenticator
api_key_auth env r db =
    on_token (bearer_token r) (err no_credential, db)
      λ raw.
        let found = resolve_key (hash_api_key env.sha256 raw) db in
        accept_key env.now found.0 found.1

abbrev pub service_account : Text
service_account = codes "_service"

abbrev pub service_identity : Identity
service_identity = record {
  subject = service_account;
  issuer = service_account;
  method = Method.service_key;
  anonymous = false;
  admin = true;
}

abbrev pub or_unauthorized : Option Authenticator → Authenticator
or_unauthorized none r db = (err unauthorized, db)
or_unauthorized (some inner) r db = inner r db

-- `serviceKeyAuth{key, inner}`
unfoldable pub service_key_auth : Text → Option Authenticator → Authenticator
service_key_auth key inner r db =
    on_token (bearer_token r) (err no_credential, db)
      λ raw. if raw == key then (ok service_identity, db) else or_unauthorized inner r db

-- `ServiceKey(key, inner)`: an empty key adds nothing.
unfoldable pub with_service_key : Text → Option Authenticator → Option Authenticator
with_service_key [] inner = inner
with_service_key (c ∷ key) inner = some (service_key_auth (c ∷ key) inner)

-- `TokenRouter(oidc, apikey)`
unfoldable pub token_router : Option Authenticator → Option Authenticator → Authenticator
token_router oidc_auth key_auth r db =
    on_token (bearer_token r) (err no_credential, db)
      λ raw.
        if looks_like_api_key raw
        then or_unauthorized key_auth r db
        else or_unauthorized oidc_auth r db

abbrev pub or_anonymous : Bool → Db → Result AuthError Identity × Db
or_anonymous true db = (ok anonymous_identity, db)
or_anonymous false db = (err no_credential, db)

-- `Chain(token, anonymous)`
unfoldable pub chain : Option Authenticator → Bool → Authenticator
chain token accepts_anonymous r db =
    on_token (bearer_token r) (or_anonymous accepts_anonymous db) λ raw. or_unauthorized token r db

abbrev pub clock_skew : ℤ
clock_skew = pos (30 * second)

abbrev is_early : Time → Option Time → Bool
is_early now none = false
is_early now (some t) = after t (now +ℤ clock_skew)

-- `verifyTime`: an expiry is required, a missing issued-at is allowed.
abbrev pub time_window : Option Time → Option Time → Time → Bool
time_window none issued now = false
time_window (some expiry) issued now =
    not (after now (expiry +ℤ clock_skew)) && not (is_early now issued)

unfoldable pub verify_time : IdToken → Time → Bool
verify_time tok now = time_window tok.expiry tok.issued_at now

abbrev pub is_listed : List Text → Option Text → Bool
is_listed values none = false
is_listed values (some v) = contains values v

unfoldable pub claim_grants_admin : (Text → Option Text) → Text → List Text → Bool
claim_grants_admin claims claim values = is_listed values (claims claim)

abbrev pub granted : Option (Text → Option Text) → Text → List Text → Bool
granted none claim values = false
granted (some claims) claim values = not (claim == []) && claim_grants_admin claims claim values

-- The identity of a token that the provider's keys verify.
abbrev pub accept_token : Time → Text → List Text → Option IdToken → Result AuthError Identity
accept_token now claim values none = err unauthorized
accept_token now claim values (some tok) =
    if not (verify_time tok now) || tok.subject == []
    then err unauthorized
    else ok (record {
      subject = tok.subject;
      issuer = tok.issuer;
      method = Method.oidc;
      anonymous = false;
      admin = granted tok.claims claim values;
    })

-- `oidcAuth` with its admin claim and the values that grant admin
unfoldable pub oidc_auth : AuthEnv → Text → List Text → Authenticator
oidc_auth env claim values r db =
    on_token (bearer_token r) (err no_credential, db)
      λ raw. (accept_token env.now claim values (env.verify raw), db)
