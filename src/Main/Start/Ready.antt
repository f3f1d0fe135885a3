-- ===== src/Main/Start/Ready.antt =====
-- When the command starts.
use orbit_depot_prototype.Base.{
  ◌≡◌, ◌≢◌, refl, sym, ◌∙◌, Bool, true, ◌||◌, Option, none, some, List, [], ◌∷◌, ◌++◌, arith, all,
  Bool-cases, inl, inr,
}
use orbit_depot_prototype.Base.Int.{ℤ}
use orbit_depot_prototype.Base.Text.{Text, codes, ◌==◌, ==_iff, lookup, trim_right}
use orbit_depot_prototype.Base.Paths.{clean}
use orbit_depot_prototype.Base.Exec.{Result, ok, err, is_ok}
use orbit_depot_prototype.Config.{Depot, PlaceConfig, stateful, load}
use orbit_depot_prototype.Config.Validation.{IsConsistentConfig, load_iff}
use orbit_depot_prototype.Place.{
  or_else, Place, Registry, strategy_dump, strategy_account, build, build_all, is_found, new,
}
use orbit_depot_prototype.Auth.{Authenticator, AuthEnv, with_service_key}
use orbit_depot_prototype.Fs.{Driver}
use orbit_depot_prototype.Fs.Creation.{BaseUrl, new_driver, is_slash}
use orbit_depot_prototype.Api.{Server}
use orbit_depot_prototype.Main.{
  Settings, build_oidc, build_api_key, build_service_key, routed, chained, build_auth,
}
use orbit_depot_prototype.Main.Start.{
  Host, build_driver, build_store, settings, definition, definitions, build_places, assemble, start,
}

-- The place has no key strategy, or one of the two.
abbrev pub has_strategy : PlaceConfig → Bool
has_strategy p = p.key == [] || (p.key == strategy_dump || p.key == strategy_account)

-- The host does what the configuration asks of it.
pub record IsReady {H : Type 0} (host : Host H) (d : Depot) : Type 0 where
  pub directory : host.system.make_dir d.fs.root ≡ true
  pub root : (abs : Text) × (host.system.abs (clean d.fs.root) ≡ some abs)
  pub base :
      (b : BaseUrl) × (host.system.parse_url (trim_right is_slash d.public_url) ≡ some b)
      × (b.scheme ≢ [])
      × (b.host ≢ [])
  pub secret : (hmac : Text → Text) × (host.system.hmac ≡ some hmac)
  pub store : stateful d.credentials ≡ true → host.opens d.store.path ≡ true
  pub provider : d.credentials.oidc ≡ true → host.discovers d.oidc.issuer ≡ true
  pub key : d.service_key.enabled ≡ true → host.service_key_env ≢ []

strategy_known :
    (key : Text)
    → (key == [] || (key == strategy_dump || key == strategy_account)) ≡ true
    → (or_else key strategy_dump == strategy_dump || or_else key strategy_dump == strategy_account)
      ≡ true
unfolding ◌==◌
strategy_known [] h = refl
strategy_known (c ∷ k) h = h

ok_of : {E A : Type 0} (r : Result E A) → is_ok r ≡ true → (a : A) × (r ≡ ok a)
ok_of (ok a) e = (a, refl)
ok_of (err x) e = cc e

built_place :
    (name : Text) (p : PlaceConfig) (g : ℤ)
    → has_strategy p ≡ true
    → is_ok (build name (definition p) g) ≡ true
unfolding build
built_place name p g h = ground (arith, strategy_known p.key h)

-- Every configured place is built, under its name.
built_places :
    (g : ℤ) (ps : List (Text × PlaceConfig))
    → all (λ e. has_strategy e.1) ps ≡ true
    → (places : List (Text × Place)) × (build_all (definitions ps) g ≡ ok places)
      × ((name : Text) → lookup name ps ≢ none → is_found (lookup name places) ≡ true)
unfolding build_all lookup
built_places g [] h = ([], refl, λ name e. absurd (e refl))
built_places g ((key, p) ∷ ps) h =
    let (pl, made) = ok_of (build key (definition p) g) (built_place key p g (ground arith)) in
    let (places, rest, found) = built_places g ps (ground arith) in
    (
      (key, pl) ∷ places,
      rw made (rw rest),
      λ name e. elim (Bool-cases (key == name)) [
        | inl same ↦ rw same
        | inr other ↦ rw other (found name (λ missing. e (rw other missing)))
      ],
    )

places_total :
    (d : Depot)
    → all (λ e. has_strategy e.1) d.places ≡ true
    → (d.default_place ≢ [] → lookup d.default_place d.places ≢ none)
    → (r : Registry) × (build_places d ≡ ok r)
unfolding build_places new
places_total d known default_known =
    let (places, made, found) = built_places d.limits.max_file_size d.places known in
    (
      record { places = places; default_name = d.default_place },
      rw made (ground (arith, ==_iff d.default_place [], found d.default_place)),
    )

module _ (env : AuthEnv) (s : Settings) where
  oidc_total :
      (s.oidc ≡ true → s.discovered ≡ true) → (o : Option Authenticator) × (build_oidc env s ≡ ok o)
  oidc_total h = ok_of (build_oidc env s) (ground (arith, h))

  api_key_total :
      (s.api_key ≡ true → s.has_store ≡ true)
      → (k : Option Authenticator) × (build_api_key env s ≡ ok k)
  api_key_total h = ok_of (build_api_key env s) (ground (arith, h))

  service_key_total :
      (s.service_key ≡ true → s.service_key_env ≢ []) → (t : Text) × (build_service_key s ≡ ok t)
  service_key_total h = ok_of (build_service_key s) (ground (arith, ==_iff s.service_key_env [], h))

module _ {H : Type 0} (host : Host H) (d : Depot) (ready : IsReady host d) where
  driver_total :
      d.driver ≡ codes "fs" → d.fs.root ≢ [] → (driver : Driver) × (build_driver host d ≡ ok driver)
  unfolding build_driver new_driver
  driver_total is_fs set =
      let (abs, absolute) = ready.root in
      let (b, parsed, scheme, authority) = ready.base in
      let (hmac, drawn) = ready.secret in
      (
        record {
          root = abs;
          base_host = b.scheme ++ (codes "://" ++ b.host);
          base_path = b.path;
          hmac = hmac;
        },
        ground (
          arith,
          ==_iff d.driver (codes "fs"),
          ==_iff d.fs.root [],
          ==_iff b.scheme [],
          ==_iff b.host [],
          ready.directory,
        ),
      )

  store_total :
      (stateful d.credentials ≡ true → d.store.backend ≡ codes "sqlite")
      → build_store host d ≡ ok (stateful d.credentials)
  unfolding build_store
  store_total sqlite = ground (arith, ==_iff d.store.backend (codes "sqlite"), ready.store)

  auth_total :
      (auth : Authenticator) × (build_auth host.auth_env (settings host d (stateful d.credentials))
        ≡ ok auth)
  unfolding build_auth stateful
  auth_total =
      let s = settings host d (stateful d.credentials) in
      let (o, built_o) = oidc_total host.auth_env s ready.provider in
      let (k, built_k) = api_key_total host.auth_env s (λ on. unfold stateful in ground arith) in
      let (t, built_t) = service_key_total host.auth_env s ready.key in
      (chained (with_service_key t (routed o k)) s.anonymous, rw built_o (rw built_k (rw built_t)))

root_set :
    (exists : Text → Bool) (d : Depot)
    → IsConsistentConfig exists d
    → d.driver ≡ codes "fs"
    → d.fs.root ≢ []
root_set exists d valid is_fs = elim valid.driver [
  | inl (s3, _, _) ↦ absurd (two_names (sym s3 ∙ is_fs))
  | inr (_, root, _) ↦ root
]
  where
    two_names : codes "s3" ≡ codes "fs" → ⊥
    two_names h = ground arith

-- A configuration that loads starts, if it names the fs driver, SQLite where it needs a store, and for
-- each place one of the two key strategies or none, and if the host does what it is asked: it makes and
-- resolves the root, parses the public URL to an absolute one, has random bytes, opens the database,
-- finds the OIDC provider where OIDC is enabled, and has the service key where that is.
pub start_total :
    {H : Type 0} (host : Host H) (path : Text) (d : Depot)
    → load host.read host.parse host.exists path ≡ ok d
    → d.driver ≡ codes "fs"
    → (stateful d.credentials ≡ true → d.store.backend ≡ codes "sqlite")
    → all (λ e. has_strategy e.1) d.places ≡ true
    → IsReady host d
    → (srv : Server H) × (start host path ≡ ok (d, srv))
unfolding start
start_total host path d loaded is_fs sqlite known ready =
    let valid = ((load_iff host.read host.parse host.exists path d).0 loaded).consistent in
    let (driver, made) = driver_total host d ready is_fs (root_set host.exists d valid is_fs) in
    let (places, placed) = places_total d known valid.default_place in
    let (auth, authed) = auth_total host d ready in
    (
      assemble host d driver places (stateful d.credentials) auth,
      rw loaded (rw made (rw placed (rw (store_total host d ready sqlite) (rw authed)))),
    )
