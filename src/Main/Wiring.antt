-- ===== src/Main/Wiring.antt =====
-- The authenticator that `buildAuth` of cmd/depot composes.
use orbit_depot_prototype.Base.{
  ◌≡◌, ◌≢◌, ◌⊎◌, inl, inr, refl, subst, Bool, true, false, ◌||◌, Option, none, some, [], ◌∷◌, arith,
}
use orbit_depot_prototype.Base.Text.{Text, ==_iff}
use orbit_depot_prototype.Base.Exec.{Result, ok, err, result-injective}
use orbit_depot_prototype.Http.{Request}
use orbit_depot_prototype.Store.Sqlite.{Db}
use orbit_depot_prototype.Auth.{
  Identity, Authenticator, AuthEnv, anonymous_auth, anonymous_identity, service_identity,
  api_key_auth, oidc_auth, with_service_key, bearer_token,
}
use orbit_depot_prototype.Auth.Credentials.{IsLiveKey, api_key_auth_sound}
use orbit_depot_prototype.Auth.Evidence.{IsNobody, IsLogin, IsService, oidc_auth-IsLogin}
use orbit_depot_prototype.Auth.Invariant.{Resolves, chain-Resolves}
use orbit_depot_prototype.Auth.Downgrade.{
  NeverDowngrades, KeepsUploads, api_key_auth-NeverDowngrades, oidc_auth-NeverDowngrades,
  chain-NeverDowngrades, api_key_auth-KeepsUploads, oidc_auth-KeepsUploads, chain-KeepsUploads,
}
use orbit_depot_prototype.Main.Credentials.{
  Sound, is_some, WiredSound, routed-Sound, with_service_key-Sound, part_built,
}
use orbit_depot_prototype.Main.{
  Settings, BuildError, build_oidc, build_api_key, build_service_key, routed, chained, compose,
  build_auth,
}

-- Which credentials stand behind a resolved identity: none, and then either the request presents no
-- token and anonymous callers are let in, or no credential is enabled; or an enabled one, which the
-- request presents.
abbrev pub IsBacked : AuthEnv → Settings → Request → Db → Identity → Type 0
IsBacked env s r db id =
    (IsNobody id
      × (((bearer_token r ≡ none) × (s.anonymous ≡ true))
          ⊎ ((s.oidc || (s.api_key || s.service_key)) ≡ false)))
    ⊎ ((s.oidc ≡ true) × IsLogin env s.admin_claim s.admin_values r id)
    ⊎ ((s.api_key ≡ true) × IsLiveKey env r db id)
    ⊎ ((s.service_key ≡ true) × IsService s.service_key_env r id)

nobody : IsNobody anonymous_identity
nobody = record { subject = refl; issuer = refl; method = refl; anonymous = refl; plain = refl }

-- What the built authenticator guarantees: evidence for every identity that it resolves, no write of
-- the table of uploads, and, where a token credential is enabled, that a request that presents a
-- token is not served as an anonymous one.
pub record Guarded (env : AuthEnv) (s : Settings) (a : Authenticator) : Type 0 where
  pub backed : Resolves (IsBacked env s) a
  pub keeps : KeepsUploads a
  pub named : (s.oidc || (s.api_key || s.service_key)) ≡ true → NeverDowngrades a

anonymous_auth-KeepsUploads : KeepsUploads anonymous_auth
unfolding anonymous_auth
anonymous_auth-KeepsUploads = record { at = λ r db. refl }

service_built :
    (s : Settings) (t : Text)
    → build_service_key s ≡ ok t
    → (s.service_key ≡ true → t ≢ []) × (t ≢ [] → (s.service_key ≡ true) × (t ≡ s.service_key_env))
service_built s t h = (
  λ on. ground (arith, ==_iff s.service_key_env []),
  λ set. ground (arith, ==_iff s.service_key_env []),
)

has_tokens :
    (o k : Option Authenticator) (t : Text) (service : Bool)
    → (service ≡ true → t ≢ [])
    → (is_some o || (is_some k || service)) ≡ true
    → is_some (with_service_key t (routed o k)) ≡ true
unfolding with_service_key
has_tokens o k (c ∷ t) service n h = refl
has_tokens (some o) k [] service n h = refl
has_tokens none (some k) [] service n h = refl
has_tokens none none [] service n h = absurd (n h refl)

module _ (env : AuthEnv) (s : Settings) where
  anonymous_auth-Resolves :
      (s.oidc || (s.api_key || s.service_key)) ≡ false → Resolves (IsBacked env s) anonymous_auth
  unfolding anonymous_auth
  anonymous_auth-Resolves bare = record {
    at = λ r db id h. subst (IsBacked env s r db) (result-injective h) (inl (nobody, inr bare));
  }

  chained-Guarded :
      (v : Option Authenticator)
      → WiredSound (IsBacked env s) v
      → ((s.oidc || (s.api_key || s.service_key)) ≡ true → is_some v ≡ true)
      → Guarded env s (chained v s.anonymous)
  chained-Guarded none w t = record {
    backed = anonymous_auth-Resolves (ground (arith, t));
    keeps = anonymous_auth-KeepsUploads;
    named = λ e. cc (t e);
  }
  chained-Guarded (some a) w t = record {
    backed =
        chain-Resolves (IsBacked env s) (some a) s.anonymous
          (λ r db absent open_to_all. inl (nobody, inl (absent, open_to_all))) w.backed;
    keeps = chain-KeepsUploads (some a) s.anonymous w.keeps;
    named = λ e. chain-NeverDowngrades (some a) s.anonymous w.named;
  }

  oidc_auth-Sound :
      s.oidc ≡ true → Sound (IsBacked env s) (oidc_auth env s.admin_claim s.admin_values)
  oidc_auth-Sound on = record {
    backed = record {
      at =
          λ r db id h. inr (inl (on, oidc_auth-IsLogin env s.admin_claim s.admin_values r db id h));
    };
    keeps = oidc_auth-KeepsUploads env s.admin_claim s.admin_values;
    named = oidc_auth-NeverDowngrades env s.admin_claim s.admin_values;
  }

  api_key_auth-Sound : s.api_key ≡ true → Sound (IsBacked env s) (api_key_auth env)
  api_key_auth-Sound on = record {
    backed = record { at = λ r db id h. inr (inr (inl (on, api_key_auth_sound env r db id h))) };
    keeps = api_key_auth-KeepsUploads env;
    named = api_key_auth-NeverDowngrades env;
  }

  service-IsBacked :
      (t : Text)
      → (t ≢ [] → (s.service_key ≡ true) × (t ≡ s.service_key_env))
      → (r : Request) (db : Db) → IsService t r service_identity
      → IsBacked env s r db service_identity
  service-IsBacked t whose r db held =
      let (on, same) = whose held.is_set in
      inr (inr (inr (on, subst (λ k. IsService k r service_identity) same held)))

  built :
      (a : Authenticator) (o k : Result BuildError (Option Authenticator))
      (t : Result BuildError Text)
      → build_oidc env s ≡ o
      → build_api_key env s ≡ k
      → build_service_key s ≡ t
      → compose s.anonymous o k t ≡ ok a
      → Guarded env s a
  built a (err e) k t ho hk ht h = cc h
  built a (ok o) (err e) t ho hk ht h = cc h
  built a (ok o) (ok k) (err e) ho hk ht h = cc h
  built a (ok o) (ok k) (ok t) ho hk ht h =
      let P = IsBacked env s in
      let (so, eo) = part_built P s.oidc s.discovered _ _ o oidc_auth-Sound ho in
      let (sk, ek) = part_built P s.api_key s.has_store _ _ k api_key_auth-Sound hk in
      let (set, whose) = service_built s t ht in
      subst (λ x. Guarded env s x) (result-injective h)
        (chained-Guarded (with_service_key t (routed o k))
          (with_service_key-Sound P t (routed o k) (service-IsBacked t whose)
            (routed-Sound P o k so sk))
          (λ e. has_tokens o k t s.service_key set (rw eo (rw ek e))))

-- Whatever credentials are enabled, and whatever the request and the store, an identity that the
-- authenticator of the command resolves has a credential behind it: it is the subject of an OIDC
-- token that the request presents, that the provider's keys verify and whose times fit the clock
-- within thirty seconds, admin exactly if the configured claim has a configured value; or the owner,
-- not admin, of a row of the key table under the hash of the presented token and not past its
-- expiry; or the presented token is the configured service key; each only where it is enabled. Or it
-- is anonymous, and then the request presents no token and anonymous callers are let in, or no token
-- credential is enabled. The authenticator does not write the table of uploads, and where a token
-- credential is enabled, a request that presents a token is never served as an anonymous one.
pub build_auth-Guarded :
    (env : AuthEnv) (s : Settings) (a : Authenticator) → build_auth env s ≡ ok a → Guarded env s a
unfolding build_auth
build_auth-Guarded env s a h =
    built env s a (build_oidc env s) (build_api_key env s) (build_service_key s) refl refl refl h
