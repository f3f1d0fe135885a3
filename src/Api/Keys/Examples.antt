-- ===== src/Api/Keys/Examples.antt =====
-- A run of the minting of an API key.
use orbit_depot_prototype.Base.Clock.{Time, unix, from_unix}
use orbit_depot_prototype.Base.{◌≡◌, subst, refl, true, false, Option, none, some, [], ◌∷◌, arith}
use orbit_depot_prototype.Base.Int.{pos, ◌≤ℤ◌}
use orbit_depot_prototype.Base.Text.{
  codes, ◌==◌, hex_encode, trim_space, trim_left, trim_right, is_space, to_lower,
}
use orbit_depot_prototype.Base.Exec.{ok}
use orbit_depot_prototype.Http.{Request}
use orbit_depot_prototype.Store.Sqlite.{statement, create_key, key_row}
use orbit_depot_prototype.Quota.{allow_all}
use orbit_depot_prototype.Auth.{
  Method, Identity, Authenticator, AuthEnv, bearer_token, hash_api_key, api_key_auth,
}
use orbit_depot_prototype.Config.Units.{Rate}
use orbit_depot_prototype.Api.{World, Server, Call, authenticate}
use orbit_depot_prototype.Api.Keys.{
  CreateKeyRequest, KeyResponse, Mint, generate_api_key, parse_expiry, require_oidc,
  handle_create_key,
}
use orbit_depot_prototype.Api.Keys.Minting.{handle_create_key-api_key_auth}

abbrev logged_in : Identity
logged_in = record {
  subject = codes "ann";
  issuer = codes "i";
  method = Method.oidc;
  anonymous = false;
  admin = true;
}

abbrev login : Authenticator
login r db = (ok logged_in, db)

abbrev never : Rate
never = record { count = pos 0; window = pos 0 }

abbrev key_server : Server Unit
key_server = record {
  driver = none;
  auth = some login;
  places = none;
  has_store = true;
  limiter = none;
  quota = allow_all;
  rate_per_ip = never;
  rate_per_user = never;
  oneshot_rate = never;
  max_file_size = pos 0;
  trust_forwarded_for = false;
}

abbrev bearing : Request
bearing = record {
  method = codes "POST";
  header = λ name. codes "Bearer depot_x";
  query = λ name. [];
  path_value = [];
  remote_addr = [];
  content_length = pos 0;
}

abbrev key_call : Call
key_call = record {
  request = bearing;
  now = pos 0;
  remote_host = none;
  surroundings = record { sha256 = λ s. codes "h"; stamp = []; random = none };
}

abbrev minting : Mint
minting = record {
  random = some (codes "x");
  base64 = λ bytes. bytes;
  uuid = codes "u";
  sha256 = λ s. codes "h";
  rfc3339 = λ s. none;
  date = λ s. some (pos 90000000000);
}

abbrev empty_world : World Unit
empty_world = record {
  db = record { uploads = []; keys = []; faults = []; scan = λ rows. rows };
  disk = record { files = []; faults = []; leftovers = 0 };
  hits = tt;
}

abbrev request : CreateKeyRequest
request = record { label = codes "l"; scopes = []; expires_at = codes "d" }

abbrev minted_answer : KeyResponse
minted_answer = record {
  id = codes "u";
  key = codes "depot_x";
  label = codes "l";
  scopes = codes "upload" ∷ [];
  expires_at = some (pos 90000000000);
  created_at = pos 0;
}

abbrev key_env : AuthEnv
key_env = record { verify = λ raw. none; sha256 = λ s. codes "h"; now = pos 5 }

unexpired :
    (t : Time)
    → ◌≡◌ {A = Option Time} (some (pos 90000000000)) (some t)
    → pos 5 ≤ℤ from_unix (unix t)
unfolding unix from_unix
unexpired t h = subst (λ v. pos 5 ≤ℤ from_unix (unix v)) (later h) (omega arith)
  where
    later : ◌≡◌ {A = Option Time} (some (pos 90000000000)) (some t) → pos 90000000000 ≡ t
    later e = cc

handle_create_key-api_key_auth_example :
    (a : Authenticator) × (id : Identity) × (key_server.auth ≡ some a)
    × ((a key_call.request empty_world.db).0 ≡ ok id)
    × (id.method ≡ Method.oidc)
    × ((api_key_auth key_env bearing
          (handle_create_key key_server key_call minting (some request) empty_world).1.db).0
        ≡ ok (record {
          subject = id.subject;
          issuer = id.issuer;
          method = Method.api_key;
          anonymous = false;
          admin = false;
        }))
unfolding handle_create_key require_oidc authenticate generate_api_key parse_expiry create_key
    key_row statement hash_api_key hex_encode bearer_token ◌==◌ trim_space trim_left trim_right
    is_space to_lower
handle_create_key-api_key_auth_example =
    handle_create_key-api_key_auth key_server key_call minting (some request) empty_world
      minted_answer key_env bearing refl refl refl refl unexpired
