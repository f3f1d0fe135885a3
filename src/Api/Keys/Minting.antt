-- ===== src/Api/Keys/Minting.antt =====
-- Minting an API key, and authenticating with it.
use orbit_depot_prototype.Base.{
  some-injective, ◌≡◌, refl, sym, ap, subst, ◌∙◌, true, false, not, Option, none, some, [], arith,
  inl, inr, Option-cases,
}
use orbit_depot_prototype.Base.Int.{◌≤ℤ◌}
use orbit_depot_prototype.Base.Clock.{Time, unix, from_unix}
use orbit_depot_prototype.Base.Text.{Text, ◌==◌}
use orbit_depot_prototype.Base.Exec.{Result, ok, err, is_ok, continue, pure, result-injective}
use orbit_depot_prototype.Http.{Request}
use orbit_depot_prototype.Store.{StoreError, ApiKey}
use orbit_depot_prototype.Store.Sqlite.{Db, next_fault, create_key, resolve_key, key_row, scan_key}
use orbit_depot_prototype.Store.Sqlite.Keys.{resolve_key-create_key}
use orbit_depot_prototype.Auth.{
  Method, Identity, Authenticator, AuthEnv, bearer_token, hash_api_key, accept_key, api_key_auth,
  key_identity,
}
use orbit_depot_prototype.Api.{
  World, Server, Call, Handler, authenticate, or_status, on_result, given, require,
}
use orbit_depot_prototype.Api.Frames.{Keeps, stepped, on_result-Keeps, require-Keeps, given-Keeps}
use orbit_depot_prototype.Api.Keys.{
  CreateKeyRequest, KeyResponse, Mint, is_oidc, generate_api_key, asked_expiry, same_status, failed,
  minted_row, key_response, generated, require_oidc, handle_create_key,
}

-- What a minting that answers has stored.
pub record Minted {H : Type 0} (c : Call) (mint : Mint) (id : Identity) (resp : KeyResponse)
    (after : World H) : Type 0 where
  pub asks : CreateKeyRequest
  pub expires : Option Time
  pub raw : Text
  pub before : Db
  pub stored : is_ok (create_key (minted_row mint id asks expires raw c.now) before).0 ≡ true
  pub ends : after.db ≡ (create_key (minted_row mint id asks expires raw c.now) before).1
  pub answers : key_response (minted_row mint id asks expires raw c.now) raw ≡ resp

after_create :
    {H : Type 0} (a resp : KeyResponse) (w : World H) (x : Result StoreError Unit × Db)
    → (continue (λ u. pure a) (or_status failed x.0) (record w { db = x.1 })).0 ≡ ok resp
    → (is_ok x.0 ≡ true)
      × ((continue (λ u. pure a) (or_status failed x.0) (record w { db = x.1 })).1.db ≡ x.1)
      × (a ≡ resp)
after_create a resp w (ok u, db) h = (refl, refl, result-injective h)
after_create a resp w (err e, db) h = cc h

generated-Keeps : {H X : Type 0} (f : World H → X) (o : Option Text) → Keeps f (generated o)
generated-Keeps f none = record { at = λ w. refl }
generated-Keeps f (some raw) = record { at = λ w. refl }

anything-Keeps : {H A : Type 0} (m : Handler H A) → Keeps {H = H} (λ w. tt) m
anything-Keeps m = record { at = λ w. refl }

module _ {H : Type 0} (srv : Server H) (c : Call) (mint : Mint) where
  abbrev nothing : World H → Unit {0}
  nothing w = tt

  minted :
      (body : Option CreateKeyRequest) (w : World H) (resp : KeyResponse)
      → (handle_create_key srv c mint body w).0 ≡ ok resp
      → (id : Identity) × ((require_oidc srv c w).0 ≡ ok id)
        × Minted c mint id resp (handle_create_key srv c mint body w).1
  unfolding handle_create_key
  minted body w resp h =
      let s1 =
        stepped nothing (require_oidc srv c) _ w resp (anything-Keeps (require_oidc srv c)) h in
      let s2 = stepped nothing (given body) _ s1.behind resp (given-Keeps nothing body) s1.rest in
      let req = s2.value in
      let s3 =
        stepped nothing (require (not (req.label == [])) 400) _ s2.behind resp
          (require-Keeps nothing (not (req.label == [])) 400) s2.rest in
      let expiry = asked_expiry mint c.now req.expires_at in
      let s4 =
        stepped nothing (on_result same_status expiry) _ s3.behind resp
          (on_result-Keeps nothing same_status expiry) s3.rest in
      let made = generate_api_key mint.base64 mint.random in
      let s5 =
        stepped nothing (generated made) _ s4.behind resp (generated-Keeps nothing made) s4.rest in
      let row = minted_row mint s1.value req s4.value s5.value c.now in
      let (stored, ends, answers) =
        after_create (key_response row s5.value) resp s5.behind (create_key row s5.behind.db)
          s5.rest in
      (
        s1.value,
        s1.gives,
        record {
          asks = req;
          expires = s4.value;
          raw = s5.value;
          before = s5.behind.db;
          stored = stored;
          ends = ap (λ v. v.db) (s1.ends ∙ s2.ends ∙ s3.ends ∙ s4.ends ∙ s5.ends) ∙ ends;
          answers = answers;
        },
      )

accepts_live :
    (now : Time) (k : ApiKey) (db : Db)
    → ((t : Time) → k.expires_at ≡ some t → now ≤ℤ t)
    → (accept_key now (ok k) db).0 ≡ ok (key_identity k)
accepts_live now k db live = elim (Option-cases k.expires_at) [
  | inl never ↦ rw never
  | inr (t, some_day) ↦ rw some_day (ground (arith, live t some_day))
]

accepted :
    (now : Time) (found : Result StoreError ApiKey × Db) (k : ApiKey)
    → found.0 ≡ ok k
    → ((t : Time) → k.expires_at ≡ some t → now ≤ℤ t)
    → (accept_key now found.0 found.1).0 ≡ ok (key_identity k)
accepted now (err e, db) k h live = cc h
accepted now (ok j, db) k h live =
    subst (λ i. (accept_key now (ok i) db).0 ≡ ok (key_identity k)) (sym (result-injective h))
      (accepts_live now k db live)

authenticates :
    (env : AuthEnv) (r : Request) (db : Db) (k : ApiKey) (raw : Text)
    → bearer_token r ≡ some raw
    → (resolve_key (hash_api_key env.sha256 raw) db).0 ≡ ok k
    → ((t : Time) → k.expires_at ≡ some t → env.now ≤ℤ t)
    → (api_key_auth env r db).0 ≡ ok (key_identity k)
unfolding api_key_auth
authenticates env r db k raw present h live =
    rw present (accepted env.now (resolve_key (hash_api_key env.sha256 raw) db) k h live)

cut_live :
    (k : ApiKey) (now : Time)
    → ((t : Time) → k.expires_at ≡ some t → now ≤ℤ from_unix (unix t))
    → (t : Time) → (scan_key (key_row k)).expires_at ≡ some t
    → now ≤ℤ t
unfolding scan_key key_row
cut_live k now live t h = elim (Option-cases k.expires_at) [
  | inl never ↦ cc (rw never at h)
  | inr (u, some_day) ↦ subst (λ v. now ≤ℤ v) (some-injective (rw some_day at h)) (live u some_day)
]

is_oidc-oidc : (m : Method) → is_oidc m ≡ true → m ≡ Method.oidc
is_oidc-oidc Method.anonymous h = cc h
is_oidc-oidc Method.oidc h = refl
is_oidc-oidc Method.api_key h = cc h
is_oidc-oidc Method.service_key h = cc h

-- Whom the gate of the key endpoints lets through.
asked_by :
    {H : Type 0} (srv : Server H) (c : Call) (w : World H) (id : Identity)
    → (require_oidc srv c w).0 ≡ ok id
    → (a : Authenticator) × (srv.auth ≡ some a)
      × ((a c.request w.db).0 ≡ ok id)
      × (id.method ≡ Method.oidc)
unfolding require_oidc authenticate
asked_by srv c w id h = elim (Option-cases srv.auth) [
  | inl unwired ↦ cc (rw unwired at h)
  | inr (a, has_auth) ↦ (a, has_auth, ground arith, is_oidc-oidc id.method (ground arith))
]

module _ {H : Type 0} (srv : Server H) (c : Call) (mint : Mint) where
  -- A minting that answers was asked for by a caller whom the server's authenticator resolves to an
  -- identity of the method OIDC; and in the database that it leaves, a
  -- request that presents the raw key of the answer is authenticated as that login's account and
  -- issuer, not as admin, where the key's expiry, cut to the second, is not past. The driver lets
  -- the lookup of the key through, and both sides hash alike.
  pub handle_create_key-api_key_auth :
      (body : Option CreateKeyRequest) (w : World H) (resp : KeyResponse) (env : AuthEnv)
      (r : Request)
      → (handle_create_key srv c mint body w).0 ≡ ok resp
      → env.sha256 ≡ mint.sha256
      → bearer_token r ≡ some resp.key
      → next_fault (handle_create_key srv c mint body w).1.db.faults ≡ false
      → ((t : Time) → resp.expires_at ≡ some t → env.now ≤ℤ from_unix (unix t))
      → (a : Authenticator) × (id : Identity) × (srv.auth ≡ some a)
        × ((a c.request w.db).0 ≡ ok id)
        × (id.method ≡ Method.oidc)
        × ((api_key_auth env r (handle_create_key srv c mint body w).1.db).0
            ≡ ok (record {
              subject = id.subject;
              issuer = id.issuer;
              method = Method.api_key;
              anonymous = false;
              admin = false;
            }))
  unfolding scan_key key_row
  handle_create_key-api_key_auth body w resp env r h hash present go live =
      let (id, gate, m) = minted srv c mint body w resp h in
      let (a, has_auth, known, logged_in) = asked_by srv c w id gate in
      let row = minted_row mint id m.asks m.expires m.raw c.now in
      let resolved : (resolve_key row.hash (create_key row m.before).1).0
          ≡ ok (scan_key (key_row row)) =
        resolve_key-create_key row m.before m.stored
          (subst (λ d. next_fault d.faults ≡ false) m.ends go) in
      (
        a,
        id,
        has_auth,
        known,
        logged_in,
        authenticates env r (handle_create_key srv c mint body w).1.db (scan_key (key_row row))
            m.raw (present ∙ sym (ap (λ a. some a.key) m.answers))
            (subst
              (λ d. (resolve_key (hash_api_key env.sha256 m.raw) d).0 ≡ ok (scan_key (key_row row)))
              (sym m.ends)
              (subst
                (λ f.
                  (resolve_key (hash_api_key f m.raw) (create_key row m.before).1).0
                  ≡ ok (scan_key (key_row row)))
                (sym hash) resolved))
            (cut_live row env.now (λ t e. live t (sym (ap (λ a. a.expires_at) m.answers) ∙ e))),
      )
