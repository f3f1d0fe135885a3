-- ===== src/Store/Sqlite.antt =====
-- internal/store/sqlite: the tables `uploads` and `api_keys`, and each statement that the store
-- runs on them. A row is a record whose times are the integers of its columns.
pub mod Engine
pub mod Listing
pub mod Ownership
pub mod Deletion
pub mod Wiping
pub mod Accounting
pub mod Keys
use orbit_depot_prototype.Base.{
  ℕ, zero, suc, ◌-◌, ◌≡◌, Bool, true, false, not, ◌&&◌, ◌||◌, Option, none, some, List, [], ◌∷◌,
  ◌++◌, map, if◌then◌else◌, length, any, keep, leb,
}
use orbit_depot_prototype.Base.Int.{ℤ, pos, negsuc, ◌+ℤ◌, max_int64}
use orbit_depot_prototype.Base.Clock.{Time, unix, from_unix}
use orbit_depot_prototype.Base.Text.{Text, codes, ◌==◌}
use orbit_depot_prototype.Base.Exec.{Result, ok, err, Exec, pure, fail, ◌>>=◌, ◌>>◌}
use orbit_depot_prototype.Store.{
  StoreError, not_found, account_required, database_error, Upload, ListUploadsQuery, ApiKey,
}

-- The database: its two tables, for each statement to come whether the driver fails it (past the end
-- of that list every statement goes through), and the order in which a query without ORDER BY yields
-- its rows, which SQLite leaves to the index that it picks.
pub record Db : Type 0 where
  pub uploads : List Upload
  pub keys : List ApiKey
  pub faults : List Bool
  pub scan : List Upload → List Upload

abbrev answer : Bool → Result StoreError Unit
answer true = err database_error
answer false = ok tt

abbrev pub next_fault : List Bool → Bool
next_fault [] = false
next_fault (f ∷ fs) = f

abbrev pub later_faults : List Bool → List Bool
later_faults [] = []
later_faults (f ∷ fs) = fs

-- One statement, or one step of a transaction, as far as the driver may fail it.
unfoldable pub statement : Exec StoreError Db Unit
statement db = (answer (next_fault db.faults), record db { faults = later_faults db.faults })

abbrev pub gets : {A : Type 0} → (Db → A) → Exec StoreError Db A
gets f db = (ok (f db), db)

abbrev set_uploads : List Upload → Exec StoreError Db Unit
set_uploads rows db = (ok tt, record db { uploads = rows })

abbrev set_keys : List ApiKey → Exec StoreError Db Unit
set_keys rows db = (ok tt, record db { keys = rows })

abbrev require : Bool → StoreError → Exec StoreError Db Unit
require true e db = (ok tt, db)
require false e db = (err e, db)

abbrev pub has_key : Text → Upload → Bool
has_key object_key u = u.object_key == object_key

abbrev pub is_owned_by : Text → Text → Upload → Bool
is_owned_by account issuer u = u.uploader_account == account && u.uploader_issuer == issuer

-- INSERT INTO uploads, whose primary key is `object_key`.
unfoldable pub record_upload : Upload → Exec StoreError Db Unit
record_upload u = do
  statement
  rows ← gets (λ db. db.uploads)
  require (not (any (has_key u.object_key) rows)) database_error
  set_uploads (rows ++ (record u { uploaded_at = unix u.uploaded_at } ∷ []))

-- `notFoundIfZero(res)`, with the number of rows affected, `none` where the driver does not know it.
abbrev not_found_if_zero : Option ℕ → Exec StoreError Db Unit
not_found_if_zero none = fail database_error
not_found_if_zero (some zero) = fail not_found
not_found_if_zero (some (suc n)) = pure tt

-- DELETE FROM uploads WHERE … with the rows that the condition selects. SQLite counts them.
unfoldable pub delete_where : (Upload → Bool) → Exec StoreError Db Unit
delete_where selected = do
  statement
  rows ← gets (λ db. db.uploads)
  set_uploads (keep (λ u. not (selected u)) rows)
  not_found_if_zero (some (length (keep selected rows)))

unfoldable pub delete_upload : Text → Text → Text → Exec StoreError Db Unit
unfolding delete_where
delete_upload object_key account issuer =
    delete_where (λ u. has_key object_key u && is_owned_by account issuer u)

unfoldable pub delete_upload_any : Text → Exec StoreError Db Unit
unfolding delete_where
delete_upload_any object_key = delete_where (has_key object_key)

-- The predicate of the wipe: the issuer counts only if it is not empty.
abbrev pub is_wiped : Text → Text → Upload → Bool
is_wiped account issuer u =
    u.uploader_account == account && (issuer == [] || u.uploader_issuer == issuer)

-- The transaction: begin, select, delete, commit. What it writes shows when the commit goes
-- through, and is rolled back where a step fails.
abbrev wipe_transaction : (Upload → Bool) → Exec StoreError Db (List Text)
wipe_transaction selected = do
  statement
  statement
  found ← gets (λ db. db.scan (keep selected db.uploads))
  rows ← gets (λ db. db.uploads)
  statement
  statement
  set_uploads (keep (λ u. not (selected u)) rows)
  pure (map (λ u. u.object_key) found)

unfoldable pub wipe_uploads : Text → Text → Exec StoreError Db (List Text)
wipe_uploads account issuer =
    if account == [] then fail account_required else wipe_transaction (is_wiped account issuer)

abbrev fits : ℤ → Bool
fits (pos n) = leb n max_int64
fits (negsuc n) = leb n max_int64

-- COALESCE(SUM(file_size), 0); SQLite's SUM fails where a partial sum is no 64-bit integer.
unfoldable pub sum_sizes : ℤ → List Upload → Option ℤ
sum_sizes total [] = some total
sum_sizes total (u ∷ rows) =
    let rest = sum_sizes (total +ℤ u.file_size) rows in
    if fits (total +ℤ u.file_size) then rest else none

abbrev pub or_database_error : Option ℤ → Exec StoreError Db ℤ
or_database_error none = fail database_error
or_database_error (some total) = pure total

unfoldable pub usage : Text → Text → Exec StoreError Db ℤ
usage account issuer = do
  statement
  rows ← gets (λ db. keep (is_owned_by account issuer) db.uploads)
  or_database_error (sum_sizes (pos 0) rows)

abbrev null_unix : Option Time → Option ℤ
null_unix none = none
null_unix (some t) = some (unix t)

abbrev unix_ptr : Option ℤ → Option Time
unix_ptr none = none
unix_ptr (some n) = some (from_unix n)

unfoldable pub key_row : ApiKey → ApiKey
key_row k = record k {
  expires_at = null_unix k.expires_at;
  last_used_at = null_unix k.last_used_at;
  created_at = unix k.created_at;
}

unfoldable pub scan_key : ApiKey → ApiKey
scan_key r = record r {
  expires_at = unix_ptr r.expires_at;
  last_used_at = unix_ptr r.last_used_at;
  created_at = from_unix r.created_at;
}

-- INSERT INTO api_keys, whose primary key is `id` and whose `hash` is unique.
unfoldable pub create_key : ApiKey → Exec StoreError Db Unit
unfolding key_row
create_key k = do
  statement
  rows ← gets (λ db. db.keys)
  require (not (any (λ r. r.id == k.id || r.hash == k.hash) rows)) database_error
  set_keys (rows ++ (key_row k ∷ []))

abbrev pub first_key : List ApiKey → Exec StoreError Db ApiKey
first_key [] = fail not_found
first_key (r ∷ rows) = pure (scan_key r)

unfoldable pub resolve_key : Text → Exec StoreError Db ApiKey
resolve_key hash = do
  statement
  rows ← gets (λ db. keep (λ r. r.hash == hash) db.keys)
  first_key rows

abbrev pub is_key_of : Text → Text → Text → ApiKey → Bool
is_key_of id account issuer r =
    r.id == id && (r.owner_account == account && r.owner_issuer == issuer)

unfoldable pub revoke_key : Text → Text → Text → Exec StoreError Db Unit
revoke_key id account issuer = do
  statement
  rows ← gets (λ db. db.keys)
  set_keys (keep (λ r. not (is_key_of id account issuer r)) rows)
  not_found_if_zero (some (length (keep (is_key_of id account issuer) rows)))

abbrev pub touched : Text → Time → ApiKey → ApiKey
touched id now r = if r.id == id then record r { last_used_at = some (unix now) } else r

unfoldable pub touch_key : Text → Time → Exec StoreError Db Unit
touch_key id now = do statement; rows ← gets (λ db. db.keys); set_keys (map (touched id now) rows)
