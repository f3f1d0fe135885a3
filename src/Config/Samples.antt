-- ===== src/Config/Samples.antt =====
-- A small configuration: local disk, API keys, and one place.
use orbit_depot_prototype.Base.{true, false, none, [], ◌∷◌}
use orbit_depot_prototype.Base.Int.{pos}
use orbit_depot_prototype.Base.Text.{codes}
use orbit_depot_prototype.Config.Units.{Rate}
use orbit_depot_prototype.Config.{Depot}

abbrev pub unlimited : Rate
unlimited = record { count = pos 0; window = pos 0 }

abbrev pub depot : Depot
depot = record {
  listen = codes ":80";
  driver = codes "fs";
  public_url = codes "https://h/";
  cors_origins = [];
  trust_forwarded_for = false;
  default_place = codes "d";
  index_file = [];
  s3 = record {
    endpoint = [];
    bucket = [];
    region = [];
    access_key = [];
    secret_key = [];
    use_ssl = none;
  };
  fs = record { root = codes "/v" };
  oidc = record { issuer = []; audience = [] };
  admin = record { claim = []; values = [] };
  service_key = record { enabled = false };
  credentials = record { anonymous = true; oidc = false; api_key = true };
  limits = record {
    max_file_size = pos 100;
    default_quota = pos 1000;
    rate_limit_per_ip = unlimited;
    rate_limit_per_user = unlimited;
    oneshot_rate_limit = unlimited;
  };
  store = record { backend = codes "sqlite"; path = codes "db"; dsn = [] };
  redis = record { enabled = false; addr = []; addrs = []; password = []; db = pos 0 };
  quota_overrides = [];
  places =
      (
        codes "d",
        record {
          prefix = codes "d";
          key = codes "dump";
          max_size = pos 0;
          allowed_mime = [];
          require_identity = false;
        },
      )
      ∷ [];
}
