-- ===== src/Api/Samples.antt =====
-- A small server and its world, for runs of the handlers.
use orbit_depot_prototype.Base.{refl, true, false, none, some, [], ◌∷◌}
use orbit_depot_prototype.Base.Int.{pos}
use orbit_depot_prototype.Base.Text.{codes}
use orbit_depot_prototype.Base.Exec.{ok}
use orbit_depot_prototype.Place.{Registry, strategy_dump}
use orbit_depot_prototype.Quota.{allow_all}
use orbit_depot_prototype.Auth.{Method, Identity, Authenticator}
use orbit_depot_prototype.Auth.Downgrade.{KeepsUploads}
use orbit_depot_prototype.Fs.{Driver}
use orbit_depot_prototype.Config.Units.{Rate}
use orbit_depot_prototype.Api.{World, Server, Call}
use orbit_depot_prototype.Api.Upload.{PresignRequest}

abbrev pub ann : Identity
ann = record {
  subject = codes "ann";
  issuer = codes "i";
  method = Method.oidc;
  anonymous = false;
  admin = false;
}

abbrev pub signed_in : Authenticator
signed_in r db = (ok ann, db)

pub signed_in-KeepsUploads : KeepsUploads signed_in
signed_in-KeepsUploads = record { at = λ r db. refl }

abbrev pub local : Driver
local = record { root = codes "/v"; base_host = codes "h"; base_path = []; hmac = λ s. codes "m" }

abbrev pub registry : Registry
registry = record {
  places =
      (
        codes "d",
        record {
          name = codes "d";
          prefix = codes "d";
          strategy = strategy_dump;
          max_size = pos 100;
          allowed_mime = [];
          require_identity = false;
        },
      )
      ∷ [];
  default_name = [];
}

abbrev pub no_rate : Rate
no_rate = record { count = pos 0; window = pos 0 }

abbrev pub server : Server Unit
server = record {
  driver = some local;
  auth = some signed_in;
  places = some registry;
  has_store = true;
  limiter = none;
  quota = allow_all;
  rate_per_ip = no_rate;
  rate_per_user = no_rate;
  oneshot_rate = no_rate;
  max_file_size = pos 100;
  trust_forwarded_for = false;
}

abbrev pub call : Call
call = record {
  request = record {
    method = codes "POST";
    header = λ name. [];
    query = λ name. [];
    path_value = codes "k";
    remote_addr = codes "a:1";
    content_length = pos 0;
  };
  now = pos 0;
  remote_host = some (codes "a");
  surroundings = record {
    sha256 = λ s. codes "00000000";
    stamp = codes "t";
    random = some (codes "r");
  };
}

abbrev pub world : World Unit
world = record {
  db = record { uploads = []; keys = []; faults = []; scan = λ rows. rows };
  disk = record { files = []; faults = []; leftovers = 0 };
  hits = tt;
}

abbrev pub wanted : PresignRequest
wanted = record { filename = codes "a"; size = pos 7; content_type = codes "t"; place = codes "d" }
