-- ===== src/Main/Start/Examples.antt =====
-- The start of the command on a small configuration.
use orbit_depot_prototype.Base.{◌≡◌, refl, true, false, Bool, none, some, [], ◌∷◌}
use orbit_depot_prototype.Base.Int.{pos}
use orbit_depot_prototype.Base.Text.{codes, ◌==◌, lookup, trim_right, trim_left}
use orbit_depot_prototype.Base.Paths.{clean, split_slash}
use orbit_depot_prototype.Base.Exec.{ok}
use orbit_depot_prototype.Config.{load, validate_config, stateful, any_credential, apply_defaults}
use orbit_depot_prototype.Config.Samples.{depot}
use orbit_depot_prototype.Place.{new, build_all, build, Registry, strategy_dump}
use orbit_depot_prototype.Auth.{with_service_key, api_key_auth}
use orbit_depot_prototype.Fs.{Driver}
use orbit_depot_prototype.Fs.Creation.{new_driver}
use orbit_depot_prototype.Api.{Server}
use orbit_depot_prototype.Main.{build_auth, chained, routed}
use orbit_depot_prototype.Main.Start.{
  Host, start, build_driver, build_store, build_places, assemble,
}
use orbit_depot_prototype.Main.Start.Ready.{IsReady, start_total}
use orbit_depot_prototype.Main.Start.Sound.{Started, start_lem}

abbrev host : Host Bool
host = record {
  read = λ path. some path;
  parse = λ text. some depot;
  exists = λ path. false;
  system = record {
    make_dir = λ path. true;
    abs = λ path. some path;
    parse_url = λ url. some (record { scheme = codes "https"; host = codes "h"; path = [] });
    hmac = some (λ s. s);
  };
  opens = λ path. true;
  discovers = λ issuer. false;
  auth_env = record { verify = λ raw. none; sha256 = λ s. s; now = pos 5 };
  service_key_env = [];
  limiter = λ key rate hits. (some true, hits);
}

abbrev driver : Driver
driver = record { root = codes "/v"; base_host = codes "https://h"; base_path = []; hmac = λ s. s }

abbrev registry : Registry
registry = record {
  places =
      (
        codes "d",
        record {
          name = codes "d";
          prefix = codes "d";
          strategy = strategy_dump;
          max_size = pos 100;
          allowed_mime = [];
          require_identity = false;
        },
      )
      ∷ [];
  default_name = codes "d";
}

abbrev server : Server Bool
server =
    assemble host depot driver registry true
      (chained (with_service_key [] (routed none (some (api_key_auth host.auth_env)))) true)

start_lem_example : Started host (codes "c") depot server
unfolding start build_driver build_store build_places load validate_config stateful any_credential
    apply_defaults new build_all build build_auth new_driver clean split_slash trim_right trim_left
    lookup ◌==◌
start_lem_example = start_lem host (codes "c") depot server refl

host-IsReady : IsReady host depot
unfolding clean split_slash trim_right trim_left ◌==◌
host-IsReady = record {
  directory = refl;
  root = (codes "/v", refl);
  base = (
    record { scheme = codes "https"; host = codes "h"; path = [] },
    refl,
    (λ e. cc e),
    λ e. cc e,
  );
  secret = ((λ s. s), refl);
  store = λ on. refl;
  provider = λ on. cc on;
  key = λ on. cc on;
}

start_total_example : (srv : Server Bool) × (start host (codes "c") ≡ ok (depot, srv))
unfolding load validate_config stateful any_credential apply_defaults lookup ◌==◌
start_total_example = start_total host (codes "c") depot refl refl (λ on. refl) refl host-IsReady
