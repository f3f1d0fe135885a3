-- ===== src/Auth/Evidence.antt =====
-- What stands behind the identities that the authenticators of internal/auth resolve.
use orbit_depot_prototype.Base.{
  ◌*◌, ◌≡◌, ◌≢◌, refl, subst, ◌↔◌, inl, inr, true, false, not, ◌||◌, Option, none, some, List, [],
  ◌∷◌, arith, Bool-cases, Option-cases,
}
use orbit_depot_prototype.Base.Int.{pos, ◌≤ℤ◌, ◌+ℤ◌}
use orbit_depot_prototype.Base.Rows.{Listed}
use orbit_depot_prototype.Base.Text.{codes, Text, ◌==◌, ==_iff, contains}
use orbit_depot_prototype.Base.Clock.{Time, second}
use orbit_depot_prototype.Base.Exec.{ok, result-injective}
use orbit_depot_prototype.Http.{Request}
use orbit_depot_prototype.Store.Sqlite.{Db}
use orbit_depot_prototype.Auth.{
  Method, Identity, IdToken, AuthEnv, bearer_token, accept_token, oidc_auth, granted,
  claim_grants_admin, is_listed, verify_time,
}
use orbit_depot_prototype.Auth.Credentials.{verify_time_exact}

-- Nobody in particular.
pub record IsNobody (id : Identity) : Type 0 where
  pub subject : id.subject ≡ []
  pub issuer : id.issuer ≡ []
  pub method : id.method ≡ Method.anonymous
  pub anonymous : id.anonymous ≡ true
  pub plain : id.admin ≡ false

-- The configured claim of the token has one of the configured values.
abbrev pub GrantsAdmin : Text → List Text → Option (Text → Option Text) → Type 0
GrantsAdmin claim values none = ⊥
GrantsAdmin claim values (some claims) =
    (claim ≢ []) × ((v : Text) × (claims claim ≡ some v) × Listed v values)

-- An OIDC login: the provider's keys verify the token that the request presents, the token's times
-- fit the clock with thirty seconds to spare, and the identity is its subject at its issuer, admin
-- exactly if its claim says so.
pub record IsLogin (env : AuthEnv) (claim : Text) (values : List Text) (r : Request) (id : Identity)
    : Type 0 where
  pub raw : Text
  pub presented : bearer_token r ≡ some raw
  pub token : IdToken
  pub verified : env.verify raw ≡ some token
  pub expiry : Time
  pub expires : token.expiry ≡ some expiry
  pub unexpired : env.now ≤ℤ expiry +ℤ pos (30 * second)
  pub issued : (t : Time) → token.issued_at ≡ some t → t ≤ℤ env.now +ℤ pos (30 * second)
  pub subject : id.subject ≡ token.subject
  pub has_subject : token.subject ≢ []
  pub issuer : id.issuer ≡ token.issuer
  pub method : id.method ≡ Method.oidc
  pub named : id.anonymous ≡ false
  pub admin : (id.admin ≡ true) ↔ GrantsAdmin claim values token.claims

-- The holder of the service key: the token that the request presents is that key.
pub record IsService (key : Text) (r : Request) (id : Identity) : Type 0 where
  pub is_set : key ≢ []
  pub presented : bearer_token r ≡ some key
  pub subject : id.subject ≡ codes "_service"
  pub issuer : id.issuer ≡ codes "_service"
  pub method : id.method ≡ Method.service_key
  pub named : id.anonymous ≡ false
  pub admin : id.admin ≡ true

contains_iff : (values : List Text) (v : Text) → (contains values v ≡ true) ↔ Listed v values
unfolding contains
contains_iff [] v = (λ h. cc h, λ h. absurd h)
contains_iff (t ∷ values) v = ground (arith, ==_iff t v, contains_iff values v)

listed_iff :
    (values : List Text) (o : Option Text)
    → (is_listed values o ≡ true) ↔ ((v : Text) × (o ≡ some v) × Listed v values)
listed_iff values none = (λ h. cc h, λ w. cc w.1)
listed_iff values (some v) = (
  λ h. (v, refl, (contains_iff values v).0 h),
  λ w.
      let (u, same, stands) = w in
      (contains_iff values v).1 (subst (λ x. Listed x values) (some_back same) stands),
)
  where
    some_back : {u : Text} → ◌≡◌ {A = Option Text} (some v) (some u) → u ≡ v
    some_back e = cc e

granted_iff :
    (claims : Option (Text → Option Text)) (claim : Text) (values : List Text)
    → (granted claims claim values ≡ true) ↔ GrantsAdmin claim values claims
unfolding claim_grants_admin
granted_iff none claim values = (λ h. cc h, λ h. absurd h)
granted_iff (some claims) claim values =
    let listed = listed_iff values (claims claim) in
    let set = ==_iff claim [] in
    (
      λ h. (λ empty. ground (arith, set), listed.0 (ground arith)),
      λ w. let (given, some_value) = w in ground (arith, set, listed.1 some_value),
    )

accepted-IsLogin :
    (env : AuthEnv) (claim : Text) (values : List Text) (r : Request) (raw : Text)
    (tok : Option IdToken) (id : Identity)
    → bearer_token r ≡ some raw
    → env.verify raw ≡ tok
    → accept_token env.now claim values tok ≡ ok id
    → IsLogin env claim values r id
accepted-IsLogin env claim values r raw none id present verified h = cc h
accepted-IsLogin env claim values r raw (some tok) id present verified h =
    elim (Bool-cases (not (verify_time tok env.now) || tok.subject == [])) [
      | inl bad ↦ cc (rw bad at h)
      | inr good ↦
          let (expiry, expires, unexpired, issued) =
            (verify_time_exact tok env.now).0 (ground arith) in
          subst (IsLogin env claim values r) (result-injective (rw good at h)) (record {
            raw = raw;
            presented = present;
            token = tok;
            verified = verified;
            expiry = expiry;
            expires = expires;
            unexpired = unexpired;
            issued = issued;
            subject = refl;
            has_subject = ground (arith, ==_iff tok.subject []);
            issuer = refl;
            method = refl;
            named = refl;
            admin = granted_iff tok.claims claim values;
          })
    ]

-- An identity that the OIDC authenticator resolves is a login.
pub oidc_auth-IsLogin :
    (env : AuthEnv) (claim : Text) (values : List Text) (r : Request) (db : Db) (id : Identity)
    → (oidc_auth env claim values r db).0 ≡ ok id
    → IsLogin env claim values r id
unfolding oidc_auth
oidc_auth-IsLogin env claim values r db id h = elim (Option-cases (bearer_token r)) [
  | inl absent ↦ cc (rw absent at h)
  | inr (raw, present) ↦
      accepted-IsLogin env claim values r raw (env.verify raw) id present refl (rw present at h)
]
