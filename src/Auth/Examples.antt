-- ===== src/Auth/Examples.antt =====
-- Runs of the authenticators on a small database and a request that presents a token.
use orbit_depot_prototype.Base.{◌≡◌, refl, false, none, some, [], ◌∷◌}
use orbit_depot_prototype.Base.Int.{pos}
use orbit_depot_prototype.Base.Text.{
  Text, codes, ◌==◌, hex_encode, trim_space, trim_left, trim_right, is_space, to_lower,
}
use orbit_depot_prototype.Base.Exec.{err}
use orbit_depot_prototype.Http.{Request}
use orbit_depot_prototype.Store.{ApiKey}
use orbit_depot_prototype.Store.Sqlite.{Db, statement, resolve_key, scan_key, touch_key}
use orbit_depot_prototype.Auth.{
  Method, Identity, Authenticator, no_credential, IdToken, AuthEnv, bearer_token, hash_api_key,
  api_key_auth, with_service_key,
}
use orbit_depot_prototype.Auth.Credentials.{
  IsLiveKey, AfterServiceKey, api_key_auth_sound, with_service_key_exact,
}

abbrev env : AuthEnv
env = record { verify = λ raw. none; sha256 = λ s. codes "h"; now = pos 5 }

abbrev own_key : ApiKey
own_key = record {
  id = codes "k";
  hash = codes "68";
  owner_account = codes "ann";
  owner_issuer = codes "i";
  label = codes "l";
  scopes = [];
  expires_at = none;
  last_used_at = none;
  created_at = pos 0;
}

abbrev one_key : Db
one_key = record { uploads = []; keys = own_key ∷ []; faults = []; scan = λ rows. rows }

abbrev with_token : Request
with_token = record {
  method = codes "GET";
  header = λ name. codes "Bearer depot_x";
  query = λ name. [];
  path_value = [];
  remote_addr = [];
  content_length = pos 0;
}

abbrev ann : Identity
ann = record {
  subject = codes "ann";
  issuer = codes "i";
  method = Method.api_key;
  anonymous = false;
  admin = false;
}

api_key_auth_sound_example : IsLiveKey env with_token one_key ann
unfolding api_key_auth bearer_token hash_api_key hex_encode resolve_key scan_key touch_key statement
    ◌==◌ trim_space trim_left trim_right is_space to_lower
api_key_auth_sound_example = api_key_auth_sound env with_token one_key ann refl

with_service_key_exact_example :
    (a : Authenticator) × (with_service_key (codes "secret") none ≡ some a)
    × ((raw : Text)
        → bearer_token with_token ≡ some raw
        → AfterServiceKey a (codes "secret") raw none with_token one_key)
    × (bearer_token with_token ≡ none → a with_token one_key ≡ (err no_credential, one_key))
with_service_key_exact_example =
    with_service_key_exact (codes "secret") none with_token one_key (λ h. cc h)

abbrev fresh : IdToken
fresh = record {
  subject = codes "s";
  issuer = codes "i";
  expiry = some (pos 9);
  issued_at = none;
  claims = none;
}
