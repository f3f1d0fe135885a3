-- ===== src/Api/Frames.antt =====
-- What a step of a handler leaves as it was, and how a chain of steps comes to its result.
use orbit_depot_prototype.Base.{
  ℕ, ◌≡◌, ◌∙◌, refl, Bool, true, false, ap, Option, none, some, arith, Bool-cases, inl, inr, [],
  ◌∷◌, ◌++◌,
}
use orbit_depot_prototype.Base.Text.{Text}
use orbit_depot_prototype.Base.Exec.{Result, ok, err, continue, is_ok, ◌>>=◌, result-injective}
use orbit_depot_prototype.Base.Int.{ℤ}
use orbit_depot_prototype.Base.Clock.{unix}
use orbit_depot_prototype.Http.{Request}
use orbit_depot_prototype.Store.{Upload}
use orbit_depot_prototype.Store.Sqlite.{Db, statement, usage, record_upload}
use orbit_depot_prototype.Quota.{Enforcer, allow_all, enforcer, check}
use orbit_depot_prototype.Auth.{Authenticator, Identity}
use orbit_depot_prototype.Auth.Downgrade.{KeepsUploads}
use orbit_depot_prototype.Api.Upload.{quota_status, limit_user, check_quota}
use orbit_depot_prototype.Config.Units.{Rate}
use orbit_depot_prototype.Api.{
  World, Handler, Limiter, Server, rate_limit, on_result, require, wired, given, or_status,
  unauthenticated, authenticate,
}

module _ {H X : Type 0} (f : World H → X) where
  -- The step leaves that part of the world as it was.
  pub record Keeps {A : Type 0} (m : Handler H A) : Type 0 where
    pub at : (w : World H) → f (m w).1 ≡ f w

  -- One step that succeeded, and the rest of the chain behind it.
  pub record Stepped {A B : Type 0} (m : Handler H A) (n : A → Handler H B) (w : World H) (b : B)
      : Type 0 where
    pub value : A
    pub behind : World H
    pub gives : (m w).0 ≡ ok value
    pub kept : f behind ≡ f w
    pub stands : behind ≡ (m w).1
    pub rest : (n value behind).0 ≡ ok b
    pub ends : ((m >>= n) w).1 ≡ (n value behind).1

  from_step :
      {A B : Type 0} (m : Handler H A) (n : A → Handler H B) (w : World H) (b : B) (r : Result ℕ A)
      → (m w).0 ≡ r
      → f (m w).1 ≡ f w
      → (continue n r (m w).1).0 ≡ ok b
      → ((m >>= n) w).1 ≡ (continue n r (m w).1).1
      → Stepped m n w b
  from_step m n w b (err e) g k h e' = cc h
  from_step m n w b (ok a) g k h e' = record {
    value = a;
    behind = (m w).1;
    gives = g;
    kept = k;
    stands = refl;
    rest = h;
    ends = e';
  }

  pub stepped :
      {A B : Type 0} (m : Handler H A) (n : A → Handler H B) (w : World H) (b : B)
      → Keeps m
      → ((m >>= n) w).0 ≡ ok b
      → Stepped m n w b
  stepped m n w b k h = from_step m n w b (m w).0 refl (k.at w) h refl

  pub on_result-Keeps :
      {E A : Type 0} (status : E → ℕ) (r : Result E A) → Keeps (on_result status r)
  on_result-Keeps status r = record { at = λ w. refl }

  pub require-Keeps : (t : Bool) (status : ℕ) → Keeps (require t status)
  require-Keeps true status = record { at = λ w. refl }
  require-Keeps false status = record { at = λ w. refl }

  pub wired-Keeps : {A : Type 0} (o : Option A) → Keeps (wired o)
  wired-Keeps none = record { at = λ w. refl }
  wired-Keeps (some a) = record { at = λ w. refl }

  pub given-Keeps : {A : Type 0} (o : Option A) → Keeps (given o)
  given-Keeps none = record { at = λ w. refl }
  given-Keeps (some a) = record { at = λ w. refl }

pub both : {X Y : Type 0} {a b : X} {c d : Y} → a ≡ b → c ≡ d → ◌≡◌ {A = X × Y} (a, c) (b, d)
both {X} {Y} {a} {b} {c} {d} h l = ap (λ x. (x, c)) h ∙ ap (λ y. (b, y)) l

-- A step that keeps two parts keeps both.
pub both-Keeps :
    {H X Y A : Type 0} {f : World H → X} {g : World H → Y} {m : Handler H A}
    → Keeps f m
    → Keeps g m
    → Keeps {X = X × Y} (λ w. (f w, g w)) m
both-Keeps k l = record { at = λ w. both (k.at w) (l.at w) }

pub or_status-ok :
    {E A : Type 0} (status : E → ℕ) (r : Result E A) (a : A) → or_status status r ≡ ok a → r ≡ ok a
or_status-ok status (ok b) a h = ap ok (result-injective h)
or_status-ok status (err e) a h = cc h

module _ {H A : Type 0} where
  pub on_result-ok :
      {E : Type 0} (status : E → ℕ) (r : Result E A) (w : World H) (a : A)
      → (on_result status r w).0 ≡ ok a
      → r ≡ ok a
  on_result-ok status (ok b) w a h = ap ok (result-injective h)
  on_result-ok status (err e) w a h = cc h

  pub wired-ok : (o : Option A) (w : World H) (a : A) → (wired o w).0 ≡ ok a → o ≡ some a
  wired-ok none w a h = cc h
  wired-ok (some b) w a h = ap some (result-injective h)

  pub given-ok : (o : Option A) (w : World H) (a : A) → (given o w).0 ≡ ok a → o ≡ some a
  given-ok none w a h = cc h
  given-ok (some b) w a h = ap some (result-injective h)

pub require-ok :
    {H : Type 0} (t : Bool) (status : ℕ) (w : World H) (u : Unit)
    → (require t status w).0 ≡ ok u
    → t ≡ true
require-ok true status w u h = refl
require-ok false status w u h = cc h

-- The limiter touches nothing of the database.
pub rate_limit-Keeps :
    {H X : Type 0} (g : Db → X) (limiter : Option (Limiter H)) (scope : Text) (rate : Rate)
    → Keeps (λ w. g w.db) (rate_limit limiter scope rate)
unfolding rate_limit
rate_limit-Keeps g none scope rate = record { at = λ w. refl }
rate_limit-Keeps g (some limiter) scope rate = record { at = λ w. ground arith }

pub limit_user-Keeps :
    {H X : Type 0} (g : Db → X) (srv : Server H) (scope : Text) (id : Identity) (rate : Rate)
    → Keeps (λ w. g w.db) (limit_user srv scope id rate)
limit_user-Keeps g srv scope id rate = record {
  at = λ w. elim (Bool-cases id.anonymous) [
    | inl named ↦ rw named
    | inr known ↦ rw known ((rate_limit-Keeps g srv.limiter _ rate).at w)
  ];
}

-- Nor anything of the files.
pub rate_limit-disk :
    {H : Type 0} (limiter : Option (Limiter H)) (scope : Text) (rate : Rate)
    → Keeps (λ w. w.disk) (rate_limit limiter scope rate)
unfolding rate_limit
rate_limit-disk none scope rate = record { at = λ w. refl }
rate_limit-disk (some limiter) scope rate = record { at = λ w. ground arith }

pub limit_user-disk :
    {H : Type 0} (srv : Server H) (scope : Text) (id : Identity) (rate : Rate)
    → Keeps (λ w. w.disk) (limit_user srv scope id rate)
limit_user-disk srv scope id rate = record {
  at = λ w. elim (Bool-cases id.anonymous) [
    | inl named ↦ rw named
    | inr known ↦ rw known ((rate_limit-disk srv.limiter _ rate).at w)
  ];
}

pub check_quota-disk :
    {H : Type 0} (e : Enforcer) (id : Identity) (size : ℤ)
    → Keeps {H = H} (λ w. w.disk) (check_quota e id size)
check_quota-disk e id size = record {
  at = λ w. elim (Bool-cases id.anonymous) [ inl named ↦ rw named | inr known ↦ rw known ];
}

pub authenticate-disk :
    {H : Type 0} (a : Authenticator) (r : Request) → Keeps {H = H} (λ w. w.disk) (authenticate a r)
unfolding authenticate
authenticate-disk a r = record { at = λ w. refl }

usage-uploads : (account issuer : Text) (db : Db) → (usage account issuer db).1.uploads ≡ db.uploads
unfolding usage statement
usage-uploads account issuer db = ground arith

check-uploads :
    (e : Enforcer) (account issuer : Text) (size : ℤ) (db : Db)
    → (check usage e account issuer size db).1.uploads ≡ db.uploads
unfolding check
check-uploads allow_all account issuer size db = refl
check-uploads (enforcer limit overrides) account issuer size db =
    ground (arith, usage-uploads account issuer db)

pub check_quota-Keeps :
    {H : Type 0} (e : Enforcer) (id : Identity) (size : ℤ)
    → Keeps {H = H} (λ w. w.db.uploads) (check_quota e id size)
check_quota-Keeps e id size = record {
  at = λ w. elim (Bool-cases id.anonymous) [
    | inl named ↦ rw named
    | inr known ↦ rw known (check-uploads e id.subject id.issuer size w.db)
  ];
}

-- For an identified caller, the quota check is that of the enforcer on the database.
pub check_quota-ok :
    {H : Type 0} (e : Enforcer) (id : Identity) (size : ℤ) (w : World H)
    → (check_quota e id size w).0 ≡ ok tt
    → id.anonymous ≡ false
    → (check usage e id.subject id.issuer size w.db).0 ≡ ok tt
check_quota-ok e id size w h named =
    or_status-ok quota_status (check usage e id.subject id.issuer size w.db).0 tt (rw named at h)

pub authenticate-Keeps :
    {H : Type 0} (a : Authenticator) (r : Request)
    → KeepsUploads a
    → Keeps {H = H} (λ w. w.db.uploads) (authenticate a r)
unfolding authenticate
authenticate-Keeps a r k = record { at = λ w. k.at r w.db }

pub authenticate-ok :
    {H : Type 0} (a : Authenticator) (r : Request) (w : World H) (id : Identity)
    → (authenticate a r w).0 ≡ ok id
    → (a r w.db).0 ≡ ok id
unfolding authenticate
authenticate-ok a r w id h = or_status-ok unauthenticated (a r w.db).0 id h

pub record_upload-ok :
    (u : Upload) (db : Db)
    → is_ok (record_upload u db).0 ≡ true
    → (record_upload u db).1.uploads
      ≡ db.uploads ++ (record u { uploaded_at = unix u.uploaded_at } ∷ [])
unfolding record_upload statement
record_upload-ok u db h = ground arith
