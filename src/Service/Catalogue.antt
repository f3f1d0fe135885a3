-- ===== src/Service/Catalogue.antt =====
-- The table of uploads under every handler: no key twice, and every key one that the driver serves.
use orbit_depot_prototype.Base.{
  ◌≡◌, refl, ap, Bool, true, false, not, ◌&&◌, List, [], ◌∷◌, ◌++◌, arith, all, any, all-append,
  keep,
}
use orbit_depot_prototype.Base.Int.{ℤ}
use orbit_depot_prototype.Base.Rows.{Apart, Apart-keep, Apart-append}
use orbit_depot_prototype.Base.Clock.{unix}
use orbit_depot_prototype.Base.Text.{Text}
use orbit_depot_prototype.Base.Exec.{Result, ok, err, Exec, is_ok}
use orbit_depot_prototype.Store.{Upload, ApiKey, ListUploadsQuery, ListUploadersQuery}
use orbit_depot_prototype.Store.Sqlite.{
  Db, statement, has_key, is_owned_by, is_wiped, record_upload, delete_where, delete_upload,
  delete_upload_any, wipe_uploads, usage, create_key, revoke_key,
}
use orbit_depot_prototype.Store.Sqlite.Engine.{Engine}
use orbit_depot_prototype.Store.Sqlite.Listing.{
  list_uploads, list_uploaders, stats, content_types, list_keys,
}
use orbit_depot_prototype.Store.Sqlite.Ownership.{same_object, same_object_comm}
use orbit_depot_prototype.Fs.{
  FsError, UploadTarget, Driver, Disk, Constraints, Reader, validate_key, presign_upload,
  put_object,
}

abbrev pub is_servable : Upload → Bool
is_servable u = is_ok (validate_key u.object_key)

-- The invariant of the table.
pub record IsCatalogue (rows : List Upload) : Type 0 where
  pub apart : Apart same_object rows
  pub servable : all is_servable rows ≡ true

pub all-keep : (p q : Upload → Bool) (us : List Upload) → all p us ≡ true → all p (keep q us) ≡ true
all-keep p q [] h = refl
all-keep p q (u ∷ us) h = ground (arith, all-keep p q us)

keep-IsCatalogue : (q : Upload → Bool) (us : List Upload) → IsCatalogue us → IsCatalogue (keep q us)
keep-IsCatalogue q us c = record {
  apart = Apart-keep same_object q us c.apart;
  servable = all-keep is_servable q us c.servable;
}

-- What a change of the database upholds.
abbrev pub Safe : {E A : Type 0} → Exec E Db A → Type 0
Safe m = (db : Db) → IsCatalogue db.uploads → IsCatalogue (m db).1.uploads

delete_where-Safe : (selected : Upload → Bool) → Safe (delete_where selected)
unfolding delete_where statement
delete_where-Safe selected db c =
    ground (arith, keep-IsCatalogue (λ u. not (selected u)) db.uploads c)

pub delete_upload-Safe : (k a i : Text) → Safe (delete_upload k a i)
unfolding delete_upload
delete_upload-Safe k a i = delete_where-Safe (λ u. has_key k u && is_owned_by a i u)

pub delete_upload_any-Safe : (k : Text) → Safe (delete_upload_any k)
unfolding delete_upload_any
delete_upload_any-Safe k = delete_where-Safe (has_key k)

pub wipe_uploads-Safe : (a i : Text) → Safe (wipe_uploads a i)
unfolding wipe_uploads statement
wipe_uploads-Safe a i db c =
    ground (arith, keep-IsCatalogue (λ u. not (is_wiped a i u)) db.uploads c)

append-IsCatalogue :
    (us : List Upload) (u : Upload)
    → IsCatalogue us
    → any (same_object u) us ≡ false
    → is_servable u ≡ true
    → IsCatalogue (us ++ (u ∷ []))
append-IsCatalogue us u c fresh valid = record {
  apart = Apart-append same_object same_object_comm us u c.apart fresh;
  servable = all-append is_servable us (u ∷ []) c.servable (rw valid);
}

pub record_upload-Safe : (u : Upload) → validate_key u.object_key ≡ ok tt → Safe (record_upload u)
unfolding record_upload statement
record_upload-Safe u valid db c = ground (
  arith,
  append-IsCatalogue db.uploads (record u { uploaded_at = unix u.uploaded_at }) c,
  ap is_ok valid,
)

pub usage-Safe : (a i : Text) → Safe (usage a i)
unfolding usage statement
usage-Safe a i db c = ground arith

-- The statements on the other table, and those that only read.
pub create_key-Safe : (k : ApiKey) → Safe (create_key k)
unfolding create_key statement
create_key-Safe k db c = ground arith

pub revoke_key-Safe : (id a i : Text) → Safe (revoke_key id a i)
unfolding revoke_key statement
revoke_key-Safe id a i db c = ground arith

module _ (e : Engine) where
  pub list_uploads-Safe : (q : ListUploadsQuery) → Safe (list_uploads e q)
  unfolding list_uploads statement
  list_uploads-Safe q db c = ground arith

  pub stats-Safe : (q : ListUploadsQuery) → Safe (stats e q)
  unfolding stats statement
  stats-Safe q db c = ground arith

  pub list_uploaders-Safe : (q : ListUploadersQuery) → Safe (list_uploaders e q)
  unfolding list_uploaders statement
  list_uploaders-Safe q db c = ground arith

  pub content_types-Safe : Safe (content_types e)
  unfolding content_types statement
  content_types-Safe db c = ground arith

  pub list_keys-Safe : (a i : Text) → Safe (list_keys e a i)
  unfolding list_keys statement
  list_keys-Safe a i db c = ground arith

validated : (r : Result FsError Unit) → is_ok r ≡ true → r ≡ ok tt
validated (ok tt) h = refl
validated (err e) h = cc h

-- What the driver presigns, or has written, has a key that it serves.
pub presign_upload-valid :
    (d : Driver) (key : Text) (k : Constraints) (now : ℤ) (t : UploadTarget)
    → presign_upload d key k now ≡ ok t
    → validate_key t.object_key ≡ ok tt
unfolding presign_upload
presign_upload-valid d key k now t h = ground arith

pub put_object-valid :
    (d : Driver) (key : Text) (k : Constraints) (r : Reader) (n : ℤ) (disk : Disk)
    → (put_object d key k r disk).0 ≡ ok n
    → validate_key key ≡ ok tt
unfolding put_object
put_object-valid d key k r n disk h = ground arith
