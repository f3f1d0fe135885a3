-- ===== src/Store/Sqlite/Wiping.antt =====
-- `WipeUploads`: the transaction that removes one owner's uploads.
use orbit_depot_prototype.Base.{
  Bool, true, ◌∷◌, length, ap, ◌∙◌, ◌&&◌, if◌then◌else◌, ◌≡◌, ◌≢◌, refl, not, List, [], map, arith,
  keep,
}
use orbit_depot_prototype.Base.Rows.{keep-keep, keep_of_all}
use orbit_depot_prototype.Base.Text.{Text, ◌==◌, ==_iff}
use orbit_depot_prototype.Base.Exec.{Result, ok, err}
use orbit_depot_prototype.Store.{Upload, StoreError, account_required}
use orbit_depot_prototype.Store.Sqlite.{Db, statement, is_wiped, wipe_uploads}

-- A query yields the rows that match, each once, in whatever order.
pub record IsScan (db : Db) : Type 0 where
  pub same_rows :
      (p : Upload → Bool) (rows : List Upload)
      → length (keep p (db.scan rows)) ≡ length (keep p rows)

-- The rows of an account, and of an issuer if one is named.
abbrev pub is_of : Text → Text → Upload → Bool
is_of account issuer u =
    u.uploader_account == account && (if issuer == [] then true else u.uploader_issuer == issuer)

-- What a wipe may have done to the tables, by its result.
abbrev pub Wiped : Text → Text → Db → Result StoreError (List Text) × Db → Type 0
Wiped account issuer before (ok keys, after) =
    (account ≢ [])
    × ((p : Text → Bool)
        → length (keep p keys)
          ≡ length (keep (λ u. is_of account issuer u && p u.object_key) before.uploads))
    × (after.uploads ≡ keep (λ u. not (is_of account issuer u)) before.uploads)
    × (after.keys ≡ before.keys)
Wiped account issuer before (err e, after) =
    (after.uploads ≡ before.uploads) × (after.keys ≡ before.keys)

length-keep-map :
    (p : Text → Bool) (rows : List Upload)
    → length (keep p (map (λ u. u.object_key) rows)) ≡ length (keep (λ u. p u.object_key) rows)
length-keep-map p [] = refl
length-keep-map p (u ∷ rows) = ground (arith, length-keep-map p rows)

is_wiped-is_of :
    (account issuer : Text) (u : Upload) → is_wiped account issuer u ≡ is_of account issuer u
is_wiped-is_of account issuer u = ground arith

wiped_keys :
    (account issuer : Text) (db : Db) (p : Text → Bool)
    → IsScan db
    → length
        (keep p (map (λ u. u.object_key) (db.scan (keep (is_wiped account issuer) db.uploads))))
      ≡ length (keep (λ u. is_of account issuer u && p u.object_key) db.uploads)
wiped_keys account issuer db p sql =
    length-keep-map p (db.scan (keep (is_wiped account issuer) db.uploads))
    ∙ sql.same_rows (λ u. p u.object_key) (keep (is_wiped account issuer) db.uploads)
    ∙ ap length (
        keep-keep (λ u. p u.object_key) (is_wiped account issuer) db.uploads
        ∙ keep_of_all _ _ db.uploads (λ u. ground arith))

-- The exact state behind a wipe, in the terms of the statements.
abbrev Ran : Text → Text → Db → Result StoreError (List Text) × Db → Type 0
Ran account issuer before (ok keys, after) =
    (account ≢ [])
    × (keys ≡ map (λ u. u.object_key) (before.scan (keep (is_wiped account issuer) before.uploads)))
    × (after.uploads ≡ keep (λ u. not (is_wiped account issuer u)) before.uploads)
    × (after.keys ≡ before.keys)
Ran account issuer before (err e, after) =
    (after.uploads ≡ before.uploads) × (after.keys ≡ before.keys)

runs : (account issuer : Text) (db : Db) → Ran account issuer db (wipe_uploads account issuer db)
unfolding wipe_uploads statement
runs account issuer db = ground (arith, ==_iff account [])

by_rows :
    (account issuer : Text) (db : Db) (x : Result StoreError (List Text) × Db)
    → IsScan db
    → Ran account issuer db x
    → Wiped account issuer db x
by_rows account issuer db (err e, after) sql r = r
by_rows account issuer db (ok keys, after) sql (set, listed, rows, kept) = (
  set,
  λ p. ap (λ ks. length (keep p ks)) listed ∙ wiped_keys account issuer db p sql,
  rows ∙ keep_of_all _ _ db.uploads (λ u. ap not (is_wiped-is_of account issuer u)),
  kept,
)

-- Whatever steps of the transaction the driver fails, a wipe either succeeds, for a non-empty
-- account, and then removed exactly the rows whose account is the one named (and whose issuer is, if
-- one is named) and returns exactly their object keys, each as often as it stood there and in
-- whatever order the query yields them, or it fails and leaves both tables as they were. A query
-- yields the matching rows, each once.
pub wipe_uploads_atomic :
    (account issuer : Text) (db : Db)
    → IsScan db
    → Wiped account issuer db (wipe_uploads account issuer db)
wipe_uploads_atomic account issuer db sql =
    by_rows account issuer db (wipe_uploads account issuer db) sql (runs account issuer db)

-- An empty account is refused before anything is read or written: it would match every row.
pub wipe_uploads_refuses_empty :
    (issuer : Text) (db : Db) → wipe_uploads [] issuer db ≡ (err account_required, db)
unfolding wipe_uploads ◌==◌
wipe_uploads_refuses_empty issuer db = refl

Ran-rows :
    (account issuer : Text) (before : Db) (r : Result StoreError (List Text) × Db)
    {keys : List Text}
    → Ran account issuer before r
    → r.0 ≡ ok keys
    → r.1.uploads ≡ keep (λ u. not (is_wiped account issuer u)) before.uploads
Ran-rows account issuer before (ok keys, after) w h = w.2
Ran-rows account issuer before (err e, after) w h = cc

pub uploads-wipe_uploads :
    (account issuer : Text) (db : Db) {keys : List Text}
    → (wipe_uploads account issuer db).0 ≡ ok keys
    → (wipe_uploads account issuer db).1.uploads
      ≡ keep (λ u. not (is_wiped account issuer u)) db.uploads
uploads-wipe_uploads account issuer db h =
    Ran-rows account issuer db (wipe_uploads account issuer db) (runs account issuer db) h
