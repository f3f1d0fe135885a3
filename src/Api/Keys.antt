-- ===== src/Api/Keys.antt =====
-- internal/api/keys.go: minting and revoking API keys, which wants an OIDC login.
pub mod Minting
mod Examples
use orbit_depot_prototype.Base.{
  ℕ, Bool, true, false, not, Option, none, some, List, [], ◌∷◌, ◌++◌, if◌then◌else◌,
}
use orbit_depot_prototype.Base.Int.{ltb_ℤ}
use orbit_depot_prototype.Base.Clock.{Time}
use orbit_depot_prototype.Base.Text.{Text, codes, ◌==◌}
use orbit_depot_prototype.Base.Exec.{Result, ok, err, pure, fail, ◌>>=◌, ◌>>◌}
use orbit_depot_prototype.Store.{StoreError, ApiKey}
use orbit_depot_prototype.Store.Sqlite.{create_key, revoke_key}
use orbit_depot_prototype.Auth.{Method, Identity, api_key_prefix, hash_api_key}
use orbit_depot_prototype.Api.{
  Server, Call, Handler, on_db, on_result, wired, given, require, authenticate,
}
use orbit_depot_prototype.Api.Files.{missing_status}

pub record CreateKeyRequest : Type 0 where
  pub label : Text
  pub scopes : List Text
  pub expires_at : Text

-- The answer to a minting, the only one that holds the raw key.
pub record KeyResponse : Type 0 where
  pub id : Text
  pub key : Text
  pub label : Text
  pub scopes : List Text
  pub expires_at : Option Time
  pub created_at : Time

-- What minting reads of its surroundings: the random bytes, `none` where they fail; the URL-safe
-- base64 without padding; the new UUID; SHA-256; and `time.Parse` in the two layouts.
pub record Mint : Type 0 where
  pub random : Option Text
  pub base64 : Text → Text
  pub uuid : Text
  pub sha256 : Text → Text
  pub rfc3339 : Text → Option Time
  pub date : Text → Option Time

-- `GenerateAPIKey`
unfoldable pub generate_api_key : (Text → Text) → Option Text → Option Text
generate_api_key base64 none = none
generate_api_key base64 (some bytes) = some (api_key_prefix ++ base64 bytes)

abbrev or_date : Option Time → Option Time → Option Time
or_date none second = second
or_date (some t) second = some t

-- `parseExpiry`
unfoldable pub parse_expiry : Mint → Text → Option Time
parse_expiry mint s = or_date (mint.rfc3339 s) (mint.date s)

abbrev not_past : Time → Option Time → Result ℕ (Option Time)
not_past now none = err 400
not_past now (some t) = if ltb_ℤ t now then err 400 else ok (some t)

-- The expiry that a request asks for, if any.
abbrev pub asked_expiry : Mint → Time → Text → Result ℕ (Option Time)
asked_expiry mint now s = if s == [] then ok none else not_past now (parse_expiry mint s)

abbrev pub or_upload : List Text → List Text
or_upload [] = codes "upload" ∷ []
or_upload (s ∷ scopes) = s ∷ scopes

abbrev pub same_status : ℕ → ℕ
same_status status = status

abbrev pub failed : StoreError → ℕ
failed e = 500

abbrev pub minted_row : Mint → Identity → CreateKeyRequest → Option Time → Text → Time → ApiKey
minted_row mint id req expires raw now = record {
  id = mint.uuid;
  hash = hash_api_key mint.sha256 raw;
  owner_account = id.subject;
  owner_issuer = id.issuer;
  label = req.label;
  scopes = or_upload req.scopes;
  expires_at = expires;
  last_used_at = none;
  created_at = now;
}

abbrev pub key_response : ApiKey → Text → KeyResponse
key_response k raw = record {
  id = k.id;
  key = raw;
  label = k.label;
  scopes = k.scopes;
  expires_at = k.expires_at;
  created_at = k.created_at;
}

abbrev pub is_oidc : Method → Bool
is_oidc Method.oidc = true
is_oidc m = false

module _ {H : Type 0} where
  abbrev pub generated : Option Text → Handler H Text
  generated none w = (err 500, w)
  generated (some raw) w = (ok raw, w)

  -- `requireOIDC`
  unfoldable pub require_oidc : Server H → Call → Handler H Identity
  require_oidc srv c = do
    auth ← wired srv.auth
    require srv.has_store 501
    id ← authenticate auth c.request
    require (is_oidc id.method) 403
    pure id

  -- `handleCreateKey`
  unfoldable pub handle_create_key :
      Server H → Call → Mint → Option CreateKeyRequest → Handler H KeyResponse
  handle_create_key srv c mint body = do
    id ← require_oidc srv c
    req ← given body
    require (not (req.label == [])) 400
    expires ← on_result same_status (asked_expiry mint c.now req.expires_at)
    raw ← generated (generate_api_key mint.base64 mint.random)
    on_db failed (create_key (minted_row mint id req expires raw c.now))
    pure (key_response (minted_row mint id req expires raw c.now) raw)

  -- `handleRevokeKey`
  unfoldable pub handle_revoke_key : Server H → Call → Handler H Unit
  handle_revoke_key srv c = do
    id ← require_oidc srv c
    require (not (c.request.path_value == [])) 400
    on_db missing_status (revoke_key c.request.path_value id.subject id.issuer)
