-- ===== src/Auth/Invariant.antt =====
-- What every identity has that the authenticators of internal/auth resolve, if their parts see to it.
use orbit_depot_prototype.Base.{
  ◌≡◌, refl, subst, inl, inr, Bool, true, false, Option, none, some, [], ◌∷◌, Bool-cases,
  Option-cases,
}
use orbit_depot_prototype.Base.Text.{Text, ◌==◌, ==_iff}
use orbit_depot_prototype.Base.Exec.{ok, result-injective}
use orbit_depot_prototype.Http.{Request}
use orbit_depot_prototype.Store.Sqlite.{Db}
use orbit_depot_prototype.Auth.{
  Identity, service_identity, anonymous_identity, looks_like_api_key, Authenticator, bearer_token,
  with_service_key, service_key_auth, token_router, chain, or_anonymous, or_unauthorized,
}
use orbit_depot_prototype.Auth.Evidence.{IsService}

-- What an identity has to do with the request and the database from which it was resolved.
abbrev pub Evidence : Type 1
Evidence = Request → Db → Identity → Type 0

module _ (P : Evidence) where
  -- Whatever the request and the store, an identity that the authenticator resolves has the evidence.
  pub record Resolves (a : Authenticator) : Type 0 where
    pub at : (r : Request) (db : Db) (id : Identity) → (a r db).0 ≡ ok id → P r db id

  abbrev pub WiredResolves : Option Authenticator → Type 0
  WiredResolves none = Unit
  WiredResolves (some a) = Resolves a

  wired :
      (a : Option Authenticator) (r : Request) (db : Db) (id : Identity)
      → WiredResolves a
      → (or_unauthorized a r db).0 ≡ ok id
      → P r db id
  wired none r db id g h = cc h
  wired (some a) r db id g h = g.at r db id h

  -- The service key adds its own identity to those of the wrapped authenticator.
  pub with_service_key-WiredResolves :
      (key : Text) (inner : Option Authenticator)
      → ((r : Request) (db : Db) → IsService key r service_identity → P r db service_identity)
      → WiredResolves inner
      → WiredResolves (with_service_key key inner)
  unfolding with_service_key service_key_auth
  with_service_key-WiredResolves [] inner own g = g
  with_service_key-WiredResolves (c ∷ key) inner own g = record {
    at = λ r db id h. elim (Option-cases (bearer_token r)) [
      | inl absent ↦ cc (rw absent at h)
      | inr (raw, present) ↦ elim (Bool-cases (raw == (c ∷ key))) [
        | inl master ↦ subst (P r db) (result-injective (rw master at (rw present at h))) (
            own r db (record {
              is_set = λ e. cc e;
              presented = rw (← (==_iff raw (c ∷ key)).0 master) present;
              subject = refl;
              issuer = refl;
              method = refl;
              named = refl;
              admin = refl;
            }))
        | inr other ↦ wired inner r db id g (rw other at (rw present at h))
      ]
    ];
  }

  pub token_router-Resolves :
      (oidc key : Option Authenticator)
      → WiredResolves oidc
      → WiredResolves key
      → Resolves (token_router oidc key)
  unfolding token_router
  token_router-Resolves oidc key g k = record {
    at = λ r db id h. elim (Option-cases (bearer_token r)) [
      | inl absent ↦ cc (rw absent at h)
      | inr (raw, present) ↦ elim (Bool-cases (looks_like_api_key raw)) [
        | inl yes_key ↦ wired key r db id k (rw yes_key at (rw present at h))
        | inr jwt ↦ wired oidc r db id g (rw jwt at (rw present at h))
      ]
    ];
  }

  anonymous_chain :
      (b : Bool) (r : Request) (db : Db) (id : Identity)
      → (b ≡ true → P r db anonymous_identity)
      → (or_anonymous b db).0 ≡ ok id
      → P r db id
  anonymous_chain true r db id own h = subst (P r db) (result-injective h) (own refl)
  anonymous_chain false r db id own h = cc h

  -- The chain adds the anonymous identity, for requests without a token and where it is let in.
  pub chain-Resolves :
      (token : Option Authenticator) (accepts_anonymous : Bool)
      → ((r : Request) (db : Db)
          → bearer_token r ≡ none
          → accepts_anonymous ≡ true
          → P r db anonymous_identity)
      → WiredResolves token
      → Resolves (chain token accepts_anonymous)
  unfolding chain
  chain-Resolves token accepts_anonymous own g = record {
    at = λ r db id h. elim (Option-cases (bearer_token r)) [
      | inl absent ↦ anonymous_chain accepts_anonymous r db id (own r db absent) (rw absent at h)
      | inr (raw, present) ↦ wired token r db id g (rw present at h)
    ];
  }
