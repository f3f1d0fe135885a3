-- ===== src/Store/Examples.antt =====
-- Runs of the store on a small database.
use orbit_depot_prototype.Base.{◌≡◌, refl, none, [], ◌∷◌, arith, if◌then◌else◌, leb}
use orbit_depot_prototype.Base.Int.{pos, max_int64}
use orbit_depot_prototype.Base.Text.{Text, codes, ◌==◌}
use orbit_depot_prototype.Base.Exec.{ok, err}
use orbit_depot_prototype.Store.{database_error, Upload, ApiKey}
use orbit_depot_prototype.Store.Sqlite.{Db, is_owned_by, delete_upload, wipe_uploads, usage}
use orbit_depot_prototype.Store.{ListUploadersQuery, UploaderUsage}
use orbit_depot_prototype.Store.Sqlite.Ownership.{
  IsConsistent, KeepsConsistent, writes-IsConsistent,
}
use orbit_depot_prototype.Store.Sqlite.Deletion.{upload_at, answered, remaining, delete_upload_lem}
use orbit_depot_prototype.Store.Sqlite.Wiping.{Wiped, wipe_uploads_atomic}
use orbit_depot_prototype.Store.Sqlite.Accounting.{owned_bytes, usage_exact}

abbrev photo : Upload
photo = record {
  object_key = codes "p";
  uploader_account = codes "ann";
  uploader_issuer = codes "i";
  file_size = pos 7;
  content_type = codes "image/png";
  original_filename = codes "p.png";
  uploaded_at = pos 0;
}

abbrev ann_key : ApiKey
ann_key = record {
  id = codes "k";
  hash = codes "h";
  owner_account = codes "ann";
  owner_issuer = codes "i";
  label = codes "l";
  scopes = [];
  expires_at = none;
  last_used_at = none;
  created_at = pos 0;
}

abbrev one_row : Db
one_row = record { uploads = photo ∷ []; keys = ann_key ∷ []; faults = []; scan = λ rows. rows }

abbrev no_keys : Db
no_keys = record { uploads = photo ∷ []; keys = []; faults = []; scan = λ rows. rows }

one_row-IsConsistent : IsConsistent one_row
one_row-IsConsistent = record { objects_apart = (refl, tt); keys_apart = (refl, tt) }

writes-IsConsistent_example : KeepsConsistent one_row
writes-IsConsistent_example = writes-IsConsistent one_row one_row-IsConsistent

delete_upload_lem_example :
    ((delete_upload (codes "p") (codes "ann") (codes "i") one_row).0
      ≡ answered (is_owned_by (codes "ann") (codes "i")) (upload_at (codes "p") one_row))
    × ((j : Text)
        → upload_at j (delete_upload (codes "p") (codes "ann") (codes "i") one_row).1 ≡ (
            if codes "p" == j
            then remaining (is_owned_by (codes "ann") (codes "i")) (upload_at j one_row)
            else upload_at j one_row))
delete_upload_lem_example =
    delete_upload_lem (codes "p") (codes "ann") (codes "i") one_row one_row-IsConsistent refl

wipe_uploads_atomic_example : Wiped (codes "ann") [] one_row (wipe_uploads (codes "ann") [] one_row)
wipe_uploads_atomic_example =
    wipe_uploads_atomic (codes "ann") [] one_row (record { same_rows = λ p rows. refl })

usage_exact_example :
    ((usage (codes "ann") (codes "i") one_row).0 ≡ (
      if leb (owned_bytes (codes "ann") (codes "i") one_row) max_int64
      then ok (pos (owned_bytes (codes "ann") (codes "i") one_row))
      else err database_error))
    × ((usage (codes "ann") (codes "i") one_row).1.uploads ≡ one_row.uploads)
    × ((usage (codes "ann") (codes "i") one_row).1.keys ≡ one_row.keys)
usage_exact_example = usage_exact (codes "ann") (codes "i") one_row refl (omega arith, tt)

abbrev sketch : Upload
sketch = record photo { object_key = codes "q"; uploaded_at = pos 5 }

abbrev two_rows : Db
two_rows = record { uploads = photo ∷ sketch ∷ []; keys = []; faults = []; scan = λ rows. rows }

abbrev biggest : ListUploadersQuery
biggest = record { sort = codes "total_size"; order = codes "desc"; limit = 10; offset = 0 }

abbrev ann_usage : UploaderUsage
ann_usage = record { account = codes "ann"; issuer = codes "i"; files = 2; bytes = pos 14 }
