-- ===== src/Auth/Downgrade.antt =====
-- Presented tokens and anonymous identities, and the writes of authentication.
use orbit_depot_prototype.Base.{
  ◌≡◌, refl, subst, ◌∙◌, inl, inr, Bool, false, Option, none, some, List, [], ◌∷◌, arith,
  Bool-cases, Option-cases,
}
use orbit_depot_prototype.Base.Text.{Text, ◌==◌}
use orbit_depot_prototype.Base.Clock.{Time}
use orbit_depot_prototype.Base.Exec.{Result, ok, err, result-injective}
use orbit_depot_prototype.Http.{Request}
use orbit_depot_prototype.Store.{ApiKey, StoreError}
use orbit_depot_prototype.Store.Sqlite.{Db, statement, resolve_key, touch_key}
use orbit_depot_prototype.Auth.{
  Identity, Authenticator, IdToken, AuthEnv, bearer_token, accept_key, api_key_auth,
  with_service_key, service_key_auth, token_router, chain, or_unauthorized, accept_token, oidc_auth,
  hash_api_key, looks_like_api_key,
}

-- With a token presented, the authenticator resolves no anonymous identity.
pub record NeverDowngrades (a : Authenticator) : Type 0 where
  pub at :
      (r : Request) (db : Db) (raw : Text) (id : Identity)
      → bearer_token r ≡ some raw
      → (a r db).0 ≡ ok id
      → id.anonymous ≡ false

-- The table of uploads is left as it was.
pub record KeepsUploads (a : Authenticator) : Type 0 where
  pub at : (r : Request) (db : Db) → (a r db).1.uploads ≡ db.uploads

abbrev pub Wired : (Authenticator → Type 0) → Option Authenticator → Type 0
Wired P none = Unit
Wired P (some a) = P a

accept_key-named :
    (now : Time) (found : Result StoreError ApiKey) (db : Db) (id : Identity)
    → (accept_key now found db).0 ≡ ok id
    → id.anonymous ≡ false
accept_key-named now (err e) db id h = cc
accept_key-named now (ok k) db id h = ground arith

pub api_key_auth-NeverDowngrades : (env : AuthEnv) → NeverDowngrades (api_key_auth env)
unfolding api_key_auth
api_key_auth-NeverDowngrades env = record {
  at = λ r db raw id present h.
      let found = resolve_key (hash_api_key env.sha256 raw) db in
      accept_key-named env.now found.0 found.1 id (rw present at h);
}

accept_token-named :
    (now : Time) (claim : Text) (values : List Text) (tok : Option IdToken) (id : Identity)
    → accept_token now claim values tok ≡ ok id
    → id.anonymous ≡ false
accept_token-named now claim values none id h = cc
accept_token-named now claim values (some tok) id h = ground arith

pub oidc_auth-NeverDowngrades :
    (env : AuthEnv) (claim : Text) (values : List Text)
    → NeverDowngrades (oidc_auth env claim values)
unfolding oidc_auth
oidc_auth-NeverDowngrades env claim values = record {
  at = λ r db raw id present h.
      accept_token-named env.now claim values (env.verify raw) id (rw present at h);
}

Wired-named :
    (a : Option Authenticator) (r : Request) (db : Db) (raw : Text) (id : Identity)
    → Wired NeverDowngrades a
    → bearer_token r ≡ some raw
    → (or_unauthorized a r db).0 ≡ ok id
    → id.anonymous ≡ false
Wired-named none r db raw id n p h = cc
Wired-named (some a) r db raw id n p h = n.at r db raw id p h

pub token_router-NeverDowngrades :
    (oidc key : Option Authenticator)
    → Wired NeverDowngrades oidc
    → Wired NeverDowngrades key
    → NeverDowngrades (token_router oidc key)
unfolding token_router
token_router-NeverDowngrades oidc key n k = record {
  at = λ r db raw id present h. elim (Bool-cases (looks_like_api_key raw)) [
    | inl shaped ↦ Wired-named key r db raw id k present (rw shaped at (rw present at h))
    | inr jwt ↦ Wired-named oidc r db raw id n present (rw jwt at (rw present at h))
  ];
}

pub with_service_key-NeverDowngrades :
    (key : Text) (inner : Option Authenticator)
    → Wired NeverDowngrades inner
    → Wired NeverDowngrades (with_service_key key inner)
unfolding with_service_key service_key_auth
with_service_key-NeverDowngrades [] inner n = n
with_service_key-NeverDowngrades (c ∷ key) inner n = record {
  at = λ r db raw id present h. elim (Bool-cases (raw == (c ∷ key))) [
    | inl master ↦
        subst (λ (i : Identity). i.anonymous ≡ false)
          (result-injective (rw master at (rw present at h))) refl
    | inr other ↦ Wired-named inner r db raw id n present (rw other at (rw present at h))
  ];
}

-- Where a token authenticator is wired, or none is, the chain serves no token as anonymous.
pub chain-NeverDowngrades :
    (token : Option Authenticator) (accepts_anonymous : Bool)
    → Wired NeverDowngrades token
    → NeverDowngrades (chain token accepts_anonymous)
unfolding chain
chain-NeverDowngrades token accepts_anonymous n = record {
  at = λ r db raw id present h. Wired-named token r db raw id n present (rw present at h);
}

accept_key-uploads :
    (now : Time) (found : Result StoreError ApiKey) (db : Db)
    → (accept_key now found db).1.uploads ≡ db.uploads
unfolding touch_key statement
accept_key-uploads now (err e) db = refl
accept_key-uploads now (ok k) db = ground arith

resolve_key-uploads : (hash : Text) (db : Db) → (resolve_key hash db).1.uploads ≡ db.uploads
unfolding resolve_key statement
resolve_key-uploads hash db = ground arith

pub api_key_auth-KeepsUploads : (env : AuthEnv) → KeepsUploads (api_key_auth env)
unfolding api_key_auth
api_key_auth-KeepsUploads env = record {
  at = λ r db. elim (Option-cases (bearer_token r)) [
    | inl absent ↦ rw absent
    | inr (raw, present) ↦
        let hash = hash_api_key env.sha256 raw in
        rw present (
          accept_key-uploads env.now (resolve_key hash db).0 (resolve_key hash db).1
          ∙ resolve_key-uploads hash db)
  ];
}

pub oidc_auth-KeepsUploads :
    (env : AuthEnv) (claim : Text) (values : List Text) → KeepsUploads (oidc_auth env claim values)
unfolding oidc_auth
oidc_auth-KeepsUploads env claim values = record {
  at = λ r db. elim (Option-cases (bearer_token r)) [
    | inl absent ↦ rw absent
    | inr (raw, present) ↦ rw present
  ];
}

Wired-uploads :
    (a : Option Authenticator) (r : Request) (db : Db)
    → Wired KeepsUploads a
    → (or_unauthorized a r db).1.uploads ≡ db.uploads
Wired-uploads none r db k = refl
Wired-uploads (some a) r db k = k.at r db

pub token_router-KeepsUploads :
    (oidc key : Option Authenticator)
    → Wired KeepsUploads oidc
    → Wired KeepsUploads key
    → KeepsUploads (token_router oidc key)
unfolding token_router
token_router-KeepsUploads oidc key n k = record {
  at = λ r db. elim (Option-cases (bearer_token r)) [
    | inl absent ↦ rw absent
    | inr (raw, present) ↦
        rw present (ground (arith, Wired-uploads key r db k, Wired-uploads oidc r db n))
  ];
}

pub with_service_key-KeepsUploads :
    (key : Text) (inner : Option Authenticator)
    → Wired KeepsUploads inner
    → Wired KeepsUploads (with_service_key key inner)
unfolding with_service_key service_key_auth
with_service_key-KeepsUploads [] inner k = k
with_service_key-KeepsUploads (c ∷ key) inner k = record {
  at = λ r db. elim (Option-cases (bearer_token r)) [
    | inl absent ↦ rw absent
    | inr (raw, present) ↦ rw present (ground (arith, Wired-uploads inner r db k))
  ];
}

pub chain-KeepsUploads :
    (token : Option Authenticator) (accepts_anonymous : Bool)
    → Wired KeepsUploads token
    → KeepsUploads (chain token accepts_anonymous)
unfolding chain
chain-KeepsUploads token accepts_anonymous k = record {
  at = λ r db. elim (Option-cases (bearer_token r)) [
    | inl absent ↦ rw absent (ground arith)
    | inr (raw, present) ↦ rw present (Wired-uploads token r db k)
  ];
}
