-- ===== src/Auth/Credentials.antt =====
-- The credentials of internal/auth: API keys, the service key, and the time window of a token.
use orbit_depot_prototype.Base.{
  ◌≡◌, ◌≢◌, refl, sym, ap, ◌∙◌, ◌↔◌, inl, inr, true, false, Option, none, some, List, [], ◌∷◌,
  arith, Bool-cases, Option-cases, keep,
}
use orbit_depot_prototype.Base.Int.{ℤ, ◌≤ℤ◌, ◌+ℤ◌}
use orbit_depot_prototype.Base.Rows.{Listed}
use orbit_depot_prototype.Base.Text.{Text, codes, ◌==◌, ==_iff, hex_encode}
use orbit_depot_prototype.Base.Clock.{Time, from_unix}
use orbit_depot_prototype.Base.Exec.{Result, ok, err, result-injective}
use orbit_depot_prototype.Http.{Request}
use orbit_depot_prototype.Store.{ApiKey, StoreError}
use orbit_depot_prototype.Store.Sqlite.{Db, statement, resolve_key, scan_key, first_key, next_fault}
use orbit_depot_prototype.Auth.{
  Method, Identity, IdToken, AuthEnv, Authenticator, no_credential, with_service_key,
  service_key_auth, or_unauthorized, clock_skew, time_window, bearer_token, accept_key,
  api_key_auth, key_identity, hash_api_key, verify_time,
}

-- The bearer of an API key: the database holds a row under the hash of the token that the request
-- presents, which is not past its expiry, and the identity is the owner of that row.
pub record IsLiveKey (env : AuthEnv) (r : Request) (db : Db) (id : Identity) : Type 0 where
  pub raw : Text
  pub presented : bearer_token r ≡ some raw
  pub row : ApiKey
  pub stored : Listed row db.keys
  pub hashed : row.hash ≡ hex_encode (env.sha256 raw)
  pub live : (t : ℤ) → row.expires_at ≡ some t → env.now ≤ℤ from_unix t
  pub subject : id.subject ≡ row.owner_account
  pub issuer : id.issuer ≡ row.owner_issuer
  pub method : id.method ≡ Method.api_key
  pub named : id.anonymous ≡ false
  pub plain : id.admin ≡ false

first_of :
    (hash : Text) (rows : List ApiKey) (db : Db) (k : ApiKey)
    → (first_key (keep (λ r. r.hash == hash) rows) db).0 ≡ ok k
    → (row : ApiKey) × Listed row rows × (row.hash ≡ hash) × (k ≡ scan_key row)
first_of hash [] db k h = cc h
first_of hash (r ∷ rows) db k h = elim (Bool-cases (r.hash == hash)) [
  | inl same ↦ (r, inl refl, (==_iff r.hash hash).0 same, sym (result-injective (rw same at h)))
  | inr other ↦
      let (row, stands, hashed, scanned) = first_of hash rows db k (rw other at h) in
      (row, inr stands, hashed, scanned)
]

-- A key that the store resolves is a row of the table under its hash, with its times in full.
resolve_key-Listed :
    (hash : Text) (db : Db) (k : ApiKey)
    → (resolve_key hash db).0 ≡ ok k
    → (row : ApiKey) × Listed row db.keys × (row.hash ≡ hash) × (k ≡ scan_key row)
unfolding resolve_key statement
resolve_key-Listed hash db k h = elim (Bool-cases (next_fault db.faults)) [
  | inl fails ↦ cc (rw fails at h)
  | inr goes ↦ first_of hash db.keys _ k (rw goes at h)
]

live_key :
    (now : Time) (found : Result StoreError ApiKey) (db : Db) (id : Identity)
    → (accept_key now found db).0 ≡ ok id
    → (k : ApiKey) × (found ≡ ok k)
      × ((t : Time) → k.expires_at ≡ some t → now ≤ℤ t)
      × (id ≡ key_identity k)
live_key now (err e) db id h = cc h
live_key now (ok k) db id h = (k, refl, λ t e. ground arith, ground arith)

scanned_expiry :
    (row : ApiKey) (t : ℤ)
    → row.expires_at ≡ some t
    → (scan_key row).expires_at ≡ some (from_unix t)
unfolding scan_key
scanned_expiry row t h = rw h

-- An identity that the API-key authenticator resolves is the owner of a row that the database holds
-- under the hash of the presented token, and that is not past its expiry; it is not admin.
pub api_key_auth_sound :
    (env : AuthEnv) (r : Request) (db : Db) (id : Identity)
    → (api_key_auth env r db).0 ≡ ok id
    → IsLiveKey env r db id
unfolding api_key_auth hash_api_key scan_key
api_key_auth_sound env r db id h = elim (Option-cases (bearer_token r)) [
  | inl absent ↦ cc (rw absent at h)
  | inr (raw, present) ↦
      let hash = hex_encode (env.sha256 raw) in
      let found = resolve_key hash db in
      let (k, gives, live, owner) = live_key env.now found.0 found.1 id (rw present at h) in
      let (row, stands, hashed, scanned) = resolve_key-Listed hash db k gives in
      let whose : id ≡ key_identity (scan_key row) = owner ∙ ap key_identity scanned in
      record {
        raw = raw;
        presented = present;
        row = row;
        stored = stands;
        hashed = hashed;
        live = λ t e. live (from_unix t) (ap (λ x. x.expires_at) scanned ∙ scanned_expiry row t e);
        subject = ap (λ i. i.subject) whose;
        issuer = ap (λ i. i.issuer) whose;
        method = ap (λ i. i.method) whose;
        named = ap (λ i. i.anonymous) whose;
        plain = ap (λ i. i.admin) whose;
      }
]

abbrev pub AfterServiceKey :
    Authenticator → Text → Text → Option Authenticator → Request → Db → Type 0
AfterServiceKey a key raw inner r db =
    (raw ≡ key
      → a r db ≡ (
        ok (record {
          subject = codes "_service";
          issuer = codes "_service";
          method = Method.service_key;
          anonymous = false;
          admin = true;
        }),
        db,
      ))
    × (raw ≢ key → a r db ≡ or_unauthorized inner r db)

-- With a service key set, a presented token that equals it resolves to the admin identity of the
-- service account and touches nothing; any other token is left to the wrapped authenticator, and
-- is rejected if there is none; a request with no token is rejected.
pub with_service_key_exact :
    (key : Text) (inner : Option Authenticator) (r : Request) (db : Db)
    → key ≢ []
    → (a : Authenticator) × (with_service_key key inner ≡ some a)
      × ((raw : Text) → bearer_token r ≡ some raw → AfterServiceKey a key raw inner r db)
      × (bearer_token r ≡ none → a r db ≡ (err no_credential, db))
unfolding with_service_key service_key_auth
with_service_key_exact [] inner r db h = absurd (h refl)
with_service_key_exact (c ∷ key) inner r db h = (
  service_key_auth (c ∷ key) inner,
  refl,
  λ raw present. (
    λ same. rw (present, (==_iff raw (c ∷ key)).1 same),
    λ other. rw present (ground (arith, ==_iff raw (c ∷ key))),
  ),
  λ absent. rw absent,
)

abbrev pub InWindow : Option Time → Option Time → Time → Type 0
InWindow expires issued now =
    (expiry : Time) × (expires ≡ some expiry)
    × (now ≤ℤ expiry +ℤ clock_skew)
    × ((t : Time) → issued ≡ some t → t ≤ℤ now +ℤ clock_skew)

pub window :
    (expires issued : Option Time) (now : Time)
    → (time_window expires issued now ≡ true) ↔ InWindow expires issued now
window none issued now = (λ h. cc, λ w. cc w.1)
window (some e) none now =
    (λ h. (e, refl, ground arith, λ t q. cc), λ w. let (x, p, q, k) = w in ground arith)
window (some e) (some i) now = (
  λ h. (e, refl, ground arith, λ t q. ground arith),
  λ w. let (x, p, q, k) = w in ground (arith, k i refl),
)

-- A token passes the time check exactly if it has an expiry that is past by at most 30 seconds, and
-- an issued-at, if it has one, that is ahead by at most 30 seconds.
pub verify_time_exact :
    (tok : IdToken) (now : Time)
    → (verify_time tok now ≡ true) ↔ (
        (expiry : Time) × (tok.expiry ≡ some expiry)
        × (now ≤ℤ expiry +ℤ clock_skew)
        × ((t : Time) → tok.issued_at ≡ some t → t ≤ℤ now +ℤ clock_skew))
unfolding verify_time
verify_time_exact tok now = window tok.expiry tok.issued_at now
