-- ===== src/Store/Sqlite/Listing.antt =====
-- internal/store/sqlite: the queries that list and aggregate rows.
pub mod Pages
pub mod Aggregates
use orbit_depot_prototype.Base.{
  ℕ, suc, ◌≡◌, Bool, true, false, not, ◌&&◌, ◌||◌, Option, none, some, List, [], ◌∷◌, ◌++◌, map,
  if◌then◌else◌, length, any, keep, take, drop, ltb, leb, eqb,
}
use orbit_depot_prototype.Base.Int.{ℤ, pos, leb_ℤ, eqb_ℤ}
use orbit_depot_prototype.Base.Clock.{Time, from_unix}
use orbit_depot_prototype.Base.Text.{Text, codes, ◌==◌}
use orbit_depot_prototype.Base.Exec.{Result, ok, err, Exec, pure, fail, ◌>>=◌, ◌>>◌}
use orbit_depot_prototype.Store.{
  StoreError, database_error, Upload, ListUploadsQuery, ListUploadersQuery, UploaderUsage,
  UploadStats, ApiKey,
}
use orbit_depot_prototype.Store.Sqlite.{
  Db, statement, gets, is_owned_by, sum_sizes, or_database_error, scan_key,
}
use orbit_depot_prototype.Store.Sqlite.Engine.{Engine}

-- A clause that counts only where its value is not empty.
abbrev pub narrows : Text → Text → Bool
narrows wanted value = wanted == [] || value == wanted

-- original_filename LIKE '%'||?||'%'
abbrev pub searches : Engine → Text → Text → Bool
searches e search name = search == [] || e.like (b'%' ∷ (search ++ (b'%' ∷ []))) name

-- `uploadFilter`: the WHERE clause as a condition on a row
unfoldable pub upload_filter : Engine → ListUploadsQuery → Upload → Bool
upload_filter e q u =
    narrows q.account u.uploader_account
    && (narrows q.issuer u.uploader_issuer
        && (narrows q.content_type u.content_type && searches e q.search u.original_filename))

-- `scanUpload`
unfoldable pub scan_upload : Upload → Upload
scan_upload u = record u { uploaded_at = from_unix u.uploaded_at }

-- The column of the ORDER BY: only the allowed names select one, any other is the default.
abbrev pub sort_column : Text → Upload → ℤ
sort_column sort u = if sort == codes "file_size" then u.file_size else u.uploaded_at

abbrev pub directed : Text → ℤ → ℤ → Bool
directed order a b = if order == codes "asc" then leb_ℤ a b else leb_ℤ b a

abbrev pub upload_before : ListUploadsQuery → Upload → Upload → Bool
upload_before q u v = directed q.order (sort_column q.sort u) (sort_column q.sort v)

-- LIMIT ? OFFSET ?
abbrev pub page : {A : Type 0} → ℕ → ℕ → List A → List A
page limit offset rows = take limit (drop offset rows)

unfoldable pub list_uploads : Engine → ListUploadsQuery → Exec StoreError Db (List Upload × ℕ)
list_uploads e q = do
  statement
  rows ← gets (λ db. keep (upload_filter e q) db.uploads)
  let total = length rows
  statement
  found ← gets (λ db. keep (upload_filter e q) db.uploads)
  pure (map scan_upload (page q.limit q.offset (e.order (upload_before q) found)), total)

abbrev pub is_image : Engine → Upload → Bool
is_image e u = e.like (codes "image/%") u.content_type

unfoldable pub stats : Engine → ListUploadsQuery → Exec StoreError Db UploadStats
stats e q = do
  statement
  rows ← gets (λ db. keep (upload_filter e q) db.uploads)
  size ← or_database_error (sum_sizes (pos 0) rows)
  pure (record {
    total_files = length rows;
    total_size = size;
    total_images = length (keep (is_image e) rows);
  })

abbrev pub same_owner : Upload → Upload → Bool
same_owner u v = is_owned_by u.uploader_account u.uploader_issuer v

-- GROUP BY: a row of every group, in the order in which the groups appear from the end.
unfoldable pub one_of_each : List Upload → List Upload
one_of_each [] = []
one_of_each (u ∷ rows) =
    let rest = one_of_each rows in if any (same_owner u) rest then rest else u ∷ rest

-- The aggregates of one group, where the sum fits.
abbrev pub of_sum : Upload → ℕ → Option ℤ → Option UploaderUsage
of_sum u files none = none
of_sum u files (some bytes) = some (record {
  account = u.uploader_account;
  issuer = u.uploader_issuer;
  files = files;
  bytes = bytes;
})

abbrev pub group_usage : List Upload → Upload → Option UploaderUsage
group_usage rows u =
    let own = keep (same_owner u) rows in of_sum u (length own) (sum_sizes (pos 0) own)

abbrev pub cons_usage :
    Option UploaderUsage → Option (List UploaderUsage) → Option (List UploaderUsage)
cons_usage none rest = none
cons_usage (some g) none = none
cons_usage (some g) (some gs) = some (g ∷ gs)

unfoldable pub group_usages : List Upload → List Upload → Option (List UploaderUsage)
group_usages rows [] = some []
group_usages rows (u ∷ us) = let rest = group_usages rows us in cons_usage (group_usage rows u) rest

-- The order of the bytes, as SQLite compares text.
unfoldable pub text_before : Text → Text → Bool
text_before [] t = true
text_before (a ∷ s) [] = false
text_before (a ∷ s) (b ∷ t) = ltb a b || (eqb a b && text_before s t)

abbrev uploader_column : Text → UploaderUsage → ℤ
uploader_column sort g = if sort == codes "file_count" then pos g.files else g.bytes

-- ORDER BY the column, then the account.
abbrev pub uploader_before : ListUploadersQuery → UploaderUsage → UploaderUsage → Bool
uploader_before q g h =
    let a = uploader_column q.sort g in
    let b = uploader_column q.sort h in
    if eqb_ℤ a b then text_before g.account h.account else directed q.order a b

abbrev pub or_fail : {A : Type 0} → Option A → Exec StoreError Db A
or_fail none = fail database_error
or_fail (some a) = pure a

unfoldable pub list_uploaders :
    Engine → ListUploadersQuery → Exec StoreError Db (List UploaderUsage × ℕ)
list_uploaders e q = do
  statement
  owners ← gets (λ db. one_of_each db.uploads)
  let total = length owners
  statement
  grouped ← gets (λ db. group_usages db.uploads (one_of_each db.uploads))
  usages ← or_fail grouped
  pure (page q.limit q.offset (e.order (uploader_before q) usages), total)

-- DISTINCT
unfoldable pub distinct : List Text → List Text
distinct [] = []
distinct (t ∷ ts) = let rest = distinct ts in if any (λ s. s == t) rest then rest else t ∷ rest

unfoldable pub content_types : Engine → Exec StoreError Db (List Text)
content_types e = do
  statement
  types ← gets (λ db. keep (λ t. not (t == [])) (map (λ u. u.content_type) db.uploads))
  pure (e.order text_before (distinct types))

abbrev pub created_before : ApiKey → ApiKey → Bool
created_before r s = leb_ℤ r.created_at s.created_at

abbrev pub owns_key : Text → Text → ApiKey → Bool
owns_key account issuer r = r.owner_account == account && r.owner_issuer == issuer

unfoldable pub list_keys : Engine → Text → Text → Exec StoreError Db (List ApiKey)
list_keys e account issuer = do
  statement
  rows ← gets (λ db. keep (owns_key account issuer) db.keys)
  pure (map scan_key (e.order created_before rows))
