-- ===== src/Main/Examples.antt =====
-- The authenticator of a small configuration.
use orbit_depot_prototype.Base.{refl, true, false, none, some, []}
use orbit_depot_prototype.Base.Int.{pos}
use orbit_depot_prototype.Base.Text.{codes, ◌==◌}
use orbit_depot_prototype.Auth.{AuthEnv, Authenticator, api_key_auth, with_service_key}
use orbit_depot_prototype.Main.{Settings, build_auth, routed, chained}
use orbit_depot_prototype.Main.Wiring.{Guarded, build_auth-Guarded}

abbrev env : AuthEnv
env = record { verify = λ raw. none; sha256 = λ s. codes "h"; now = pos 5 }

abbrev settings : Settings
settings = record {
  oidc = false;
  api_key = true;
  anonymous = true;
  service_key = true;
  admin_claim = [];
  admin_values = [];
  discovered = false;
  has_store = true;
  service_key_env = codes "secret";
}

abbrev built : Authenticator
built = chained (with_service_key (codes "secret") (routed none (some (api_key_auth env)))) true

build_auth-Guarded_example : Guarded env settings built
unfolding build_auth ◌==◌
build_auth-Guarded_example = build_auth-Guarded env settings built refl
