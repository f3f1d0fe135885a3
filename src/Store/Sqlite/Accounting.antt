-- ===== src/Store/Sqlite/Accounting.antt =====
-- Usage: the bytes that are attributed to an owner, and how the writes change them.
use orbit_depot_prototype.Base.{
  ℕ, ◌+◌, ◌≤◌, ◌≡◌, ap, ◌∙◌, Bool, true, false, not, ◌&&◌, none, some, List, [], ◌∷◌, ◌++◌,
  if◌then◌else◌, arith, keep, leb, All, All-keep, ◌⊎◌,
}
use orbit_depot_prototype.Base.Int.{pos, pos_part, ◌≤ℤ◌, max_int64}
use orbit_depot_prototype.Base.Rows.{keep-keep, keep_none, keep-append}
use orbit_depot_prototype.Base.Clock.{unix}
use orbit_depot_prototype.Base.Text.{Text, ==_iff}
use orbit_depot_prototype.Base.Exec.{ok, err, is_ok}
use orbit_depot_prototype.Store.{database_error, Upload}
use orbit_depot_prototype.Store.Sqlite.Wiping.{uploads-wipe_uploads}
use orbit_depot_prototype.Store.Sqlite.{
  Db, statement, next_fault, is_owned_by, is_wiped, record_upload, wipe_uploads, sum_sizes, usage,
}

-- The sum of the sizes of the rows, with no bound.
abbrev pub bytes : List Upload → ℕ
bytes [] = 0
bytes (u ∷ rows) = pos_part u.file_size + bytes rows

abbrev pub owned_bytes : Text → Text → Db → ℕ
owned_bytes account issuer db = bytes (keep (is_owned_by account issuer) db.uploads)

-- Every row has a size of at least 0, as the upload handlers record it.
abbrev pub IsSized : List Upload → Type 0
IsSized = All (λ u. pos 0 ≤ℤ u.file_size)

sum_sizes_lem :
    (n : ℕ) (rows : List Upload)
    → n ≤ max_int64
    → IsSized rows
    → sum_sizes (pos n) rows
      ≡ (if leb (n + bytes rows) max_int64 then some (pos (n + bytes rows)) else none)
unfolding sum_sizes
sum_sizes_lem n [] h k = ground arith
sum_sizes_lem n (u ∷ rows) h (k, ks) = ground (arith, sum_sizes_lem (n + pos_part u.file_size) rows)

-- Where the driver lets the query through and no size is negative, `Usage` returns the exact sum
-- of the sizes of the owner's rows, if an `int64` holds it, and fails otherwise; it changes neither
-- table.
pub usage_exact :
    (account issuer : Text) (db : Db)
    → next_fault db.faults ≡ false
    → IsSized db.uploads
    → ((usage account issuer db).0 ≡ (
        if leb (owned_bytes account issuer db) max_int64
        then ok (pos (owned_bytes account issuer db))
        else err database_error))
      × ((usage account issuer db).1.uploads ≡ db.uploads)
      × ((usage account issuer db).1.keys ≡ db.keys)
unfolding usage statement
usage_exact account issuer db go sized =
    let rows = keep (is_owned_by account issuer) db.uploads in
    (
      ground (
        arith,
        sum_sizes_lem 0 rows (omega arith)
            (All-keep _ (is_owned_by account issuer) db.uploads sized),
      ),
      ground arith,
      ground arith,
    )

bytes-append : (xs ys : List Upload) → bytes (xs ++ ys) ≡ bytes xs + bytes ys
bytes-append [] ys = omega arith
bytes-append (u ∷ xs) ys = omega (arith, bytes-append xs ys)

-- A recorded upload is one more row; a record that fails changes nothing.
pub uploads-record_upload :
    (u : Upload) (db : Db)
    → (record_upload u db).1.uploads ≡ (
        if is_ok (record_upload u db).0
        then db.uploads ++ (record u { uploaded_at = unix u.uploaded_at } ∷ [])
        else db.uploads)
unfolding record_upload statement
uploads-record_upload u db = ground arith

bytes_if :
    (account issuer : Text) (row : Upload) (rows : List Upload) (b : Bool)
    → bytes (keep (is_owned_by account issuer) (if b then rows ++ (row ∷ []) else rows)) ≡ (
        bytes (keep (is_owned_by account issuer) rows)
        + (if b && is_owned_by account issuer row then pos_part row.file_size else 0))
bytes_if account issuer row rows false = omega arith
bytes_if account issuer row rows true =
    ap bytes (keep-append (is_owned_by account issuer) rows (row ∷ []))
    ∙ (bytes-append (keep (is_owned_by account issuer) rows) _ ∙ ground arith)

-- A recorded upload adds its size to the usage of its owner, and nothing to that of anyone else; a
-- record that fails adds nothing.
pub owned_bytes-record_upload :
    (account issuer : Text) (u : Upload) (db : Db)
    → owned_bytes account issuer (record_upload u db).1 ≡ (
        owned_bytes account issuer db
        + (if is_ok (record_upload u db).0 && is_owned_by account issuer u
            then pos_part u.file_size
            else 0))
owned_bytes-record_upload account issuer u db =
    ap (λ rows. bytes (keep (is_owned_by account issuer) rows)) (uploads-record_upload u db)
    ∙ bytes_if account issuer (record u { uploaded_at = unix u.uploaded_at }) db.uploads
        (is_ok (record_upload u db).0)

excluded :
    (account issuer narrowed : Text)
    → (narrowed ≡ []) ⊎ (narrowed ≡ issuer)
    → (u : Upload) → (not (is_wiped account narrowed u) && is_owned_by account issuer u) ≡ false
excluded account issuer narrowed scope u =
    ground (
      arith,
      ==_iff narrowed [],
      ==_iff u.uploader_issuer issuer,
      ==_iff u.uploader_issuer narrowed,
    )

-- After a wipe that succeeds, the owner that it names has no bytes left, whether or not the wipe
-- was narrowed to that issuer.
pub owned_bytes-wipe_uploads :
    (account issuer narrowed : Text) (db : Db) {keys : List Text}
    → (narrowed ≡ []) ⊎ (narrowed ≡ issuer)
    → (wipe_uploads account narrowed db).0 ≡ ok keys
    → owned_bytes account issuer (wipe_uploads account narrowed db).1 ≡ 0
owned_bytes-wipe_uploads account issuer narrowed db scope h =
    ap (λ rows. bytes (keep (is_owned_by account issuer) rows))
      (uploads-wipe_uploads account narrowed db h)
    ∙ ap bytes (
        keep-keep (is_owned_by account issuer) (λ u. not (is_wiped account narrowed u)) db.uploads
        ∙ keep_none _ db.uploads (excluded account issuer narrowed scope))
