-- ===== src/Api/Upholding.antt =====
-- A rule per step of a handler for what the step upholds of the table of uploads, and what its result
-- is worth to the steps behind it.
use orbit_depot_prototype.Base.{ℕ, ◌≡◌, refl, sym, subst, List}
use orbit_depot_prototype.Base.Exec.{Result, ok, err, Exec, continue, ◌>>=◌, pure, fail}
use orbit_depot_prototype.Store.{Upload}
use orbit_depot_prototype.Store.Sqlite.{Db}
use orbit_depot_prototype.Fs.{Disk}
use orbit_depot_prototype.Api.{World, Handler, on_result, on_db, on_disk, attempt}
use orbit_depot_prototype.Api.Frames.{Keeps, on_result-ok}

-- Nothing is known of the result.
abbrev pub Any : {A : Type 0} → A → Type 0
Any a = Unit {0}

module _ {H : Type 0} (Inv : List Upload → Type 0) where
  -- The step upholds the invariant however it ends, and its result has the property.
  pub record Upholds {A : Type 0} (Q : A → Type 0) (m : Handler H A) : Type 0 where
    pub keeps : (w : World H) → Inv w.db.uploads → Inv (m w).1.db.uploads
    pub gives : (w : World H) (a : A) → (m w).0 ≡ ok a → Q a

  pub then-Upholds :
      {A B : Type 0} {Q : A → Type 0} {R : B → Type 0} {m : Handler H A} {n : A → Handler H B}
      → Upholds Q m
      → ((a : A) → Q a → Upholds R (n a))
      → Upholds R (m >>= n)
  then-Upholds {A} {B} {Q} {R} {m} {n} u v = record {
    keeps = λ w i. kept (m w).0 (m w).1 (λ a e. u.gives w a e) (u.keeps w i);
    gives = λ w b h. given_by (m w).0 (m w).1 (λ a e. u.gives w a e) b h;
  }
    where
      kept :
          (r : Result ℕ A) (w : World H)
          → ((a : A) → r ≡ ok a → Q a)
          → Inv w.db.uploads
          → Inv (continue n r w).1.db.uploads
      kept (ok a) w q i = (v a (q a refl)).keeps w i
      kept (err e) w q i = i

      given_by :
          (r : Result ℕ A) (w : World H)
          → ((a : A) → r ≡ ok a → Q a)
          → (b : B) → (continue n r w).0 ≡ ok b
          → R b
      given_by (ok a) w q b h = (v a (q a refl)).gives w b h
      given_by (err e) w q b h = cc h

  -- A step that leaves the table as it was.
  pub kept-Upholds : {A : Type 0} {m : Handler H A} → Keeps (λ w. w.db.uploads) m → Upholds Any m
  kept-Upholds k = record { keeps = λ w i. subst Inv (sym (k.at w)) i; gives = λ w a h. tt }

  pub result-Upholds :
      {E A : Type 0} (status : E → ℕ) (r : Result E A)
      → Upholds (λ a. r ≡ ok a) (on_result {H = H} status r)
  result-Upholds status r = record {
    keeps = λ w i. i;
    gives = λ w a h. on_result-ok status r w a h;
  }

  pub db-Upholds :
      {E A : Type 0} (status : E → ℕ) (m : Exec E Db A)
      → ((db : Db) → Inv db.uploads → Inv (m db).1.uploads)
      → Upholds Any (on_db {H = H} status m)
  db-Upholds status m k = record { keeps = λ w i. k w.db i; gives = λ w a h. tt }

  pub disk-Upholds :
      {E A : Type 0} (status : E → ℕ) (m : Exec E Disk A)
      → Upholds (λ a. (disk : Disk) × ((m disk).0 ≡ ok a)) (on_disk {H = H} status m)
  disk-Upholds status m = record {
    keeps = λ w i. i;
    gives = λ w a h. (w.disk, on_result-ok {H = H} status (m w.disk).0 w a h);
  }

  pub attempt-Upholds : {E A : Type 0} (m : Exec E Disk A) → Upholds Any (attempt {H = H} m)
  attempt-Upholds m = record { keeps = λ w i. i; gives = λ w a h. tt }

  pub pure-Upholds : {A : Type 0} (a : A) → Upholds Any (pure {E = ℕ} {S = World H} a)
  pure-Upholds a = record { keeps = λ w i. i; gives = λ w b h. tt }

  pub fail-Upholds :
      {A : Type 0} (status : ℕ) → Upholds {A = A} Any (fail {E = ℕ} {S = World H} status)
  fail-Upholds status = record { keeps = λ w i. i; gives = λ w b h. tt }
