-- ===== src/Store/Sqlite/Ownership.antt =====
-- The primary keys of both tables, under every write of the store.
use orbit_depot_prototype.Base.{◌≡◌, Bool, not, ◌&&◌, ◌||◌, arith}
use orbit_depot_prototype.Base.Rows.{Apart, Apart-keep, Apart-append, Apart-map}
use orbit_depot_prototype.Base.Clock.{Time, unix}
use orbit_depot_prototype.Base.Text.{Text, ◌==◌, ==_comm}
use orbit_depot_prototype.Store.{Upload, ApiKey}
use orbit_depot_prototype.Store.Sqlite.{
  Db, statement, has_key, is_owned_by, is_wiped, record_upload, delete_where, delete_upload,
  delete_upload_any, wipe_uploads, create_key, revoke_key, touch_key, touched, is_key_of, key_row,
}

abbrev pub same_object : Upload → Upload → Bool
same_object u v = has_key u.object_key v

abbrev pub same_key : ApiKey → ApiKey → Bool
same_key r s = s.id == r.id || s.hash == r.hash

-- The keys of both tables are unique.
pub record IsConsistent (db : Db) : Type 0 where
  pub objects_apart : Apart same_object db.uploads
  pub keys_apart : Apart same_key db.keys

-- Every write keeps the keys of both tables unique, whether it succeeds or fails: recording an
-- upload, the two deletions, the wipe, and creating, revoking and touching an API key.
pub record KeepsConsistent (db : Db) : Type 0 where
  pub by_record : (u : Upload) → IsConsistent (record_upload u db).1
  pub by_delete : (k a i : Text) → IsConsistent (delete_upload k a i db).1
  pub by_delete_any : (k : Text) → IsConsistent (delete_upload_any k db).1
  pub by_wipe : (a i : Text) → IsConsistent (wipe_uploads a i db).1
  pub by_create : (k : ApiKey) → IsConsistent (create_key k db).1
  pub by_revoke : (id a i : Text) → IsConsistent (revoke_key id a i db).1
  pub by_touch : (id : Text) (now : Time) → IsConsistent (touch_key id now db).1

pub same_object_comm : (u v : Upload) → same_object u v ≡ same_object v u
same_object_comm u v = ==_comm v.object_key u.object_key

same_key_comm : (r s : ApiKey) → same_key r s ≡ same_key s r
same_key_comm r s = ground (arith, ==_comm s.id r.id, ==_comm s.hash r.hash)

record_upload-IsConsistent :
    (db : Db) (u : Upload) → IsConsistent db → IsConsistent (record_upload u db).1
unfolding record_upload statement
record_upload-IsConsistent db u h = record {
  objects_apart = ground (
    arith,
    Apart-append same_object same_object_comm db.uploads
        (record u { uploaded_at = unix u.uploaded_at }) h.objects_apart,
  );
  keys_apart = ground arith;
}

delete_where-IsConsistent :
    (selected : Upload → Bool) (db : Db)
    → IsConsistent db
    → IsConsistent (delete_where selected db).1
unfolding delete_where statement
delete_where-IsConsistent selected db h = record {
  objects_apart =
      ground (arith, Apart-keep same_object (λ u. not (selected u)) db.uploads h.objects_apart);
  keys_apart = ground arith;
}

wipe_uploads-IsConsistent :
    (db : Db) (a i : Text) → IsConsistent db → IsConsistent (wipe_uploads a i db).1
unfolding wipe_uploads statement
wipe_uploads-IsConsistent db a i h = record {
  objects_apart =
      ground (arith, Apart-keep same_object (λ u. not (is_wiped a i u)) db.uploads h.objects_apart);
  keys_apart = ground arith;
}

create_key-IsConsistent :
    (db : Db) (k : ApiKey) → IsConsistent db → IsConsistent (create_key k db).1
unfolding create_key statement
create_key-IsConsistent db k h = record {
  objects_apart = ground arith;
  keys_apart = ground (arith, Apart-append same_key same_key_comm db.keys (key_row k) h.keys_apart);
}

revoke_key-IsConsistent :
    (db : Db) (id a i : Text) → IsConsistent db → IsConsistent (revoke_key id a i db).1
unfolding revoke_key statement
revoke_key-IsConsistent db id a i h = record {
  objects_apart = ground arith;
  keys_apart =
      ground (arith, Apart-keep same_key (λ r. not (is_key_of id a i r)) db.keys h.keys_apart);
}

touched_same :
    (id : Text) (now : Time) (r s : ApiKey)
    → same_key (touched id now r) (touched id now s) ≡ same_key r s
touched_same id now r s = ground arith

touch_key-IsConsistent :
    (db : Db) (id : Text) (now : Time) → IsConsistent db → IsConsistent (touch_key id now db).1
unfolding touch_key statement
touch_key-IsConsistent db id now h = record {
  objects_apart = ground arith;
  keys_apart =
      ground
        (arith, Apart-map same_key (touched id now) (touched_same id now) db.keys h.keys_apart);
}

-- If the keys of both tables are unique, every write keeps them so, whatever the driver fails and
-- whether the write succeeds: recording an upload, the two deletions, the wipe, and creating,
-- revoking and touching an API key.
pub writes-IsConsistent : (db : Db) → IsConsistent db → KeepsConsistent db
unfolding delete_upload delete_upload_any
writes-IsConsistent db h = record {
  by_record = λ u. record_upload-IsConsistent db u h;
  by_delete = λ k a i. delete_where-IsConsistent (λ u. has_key k u && is_owned_by a i u) db h;
  by_delete_any = λ k. delete_where-IsConsistent (has_key k) db h;
  by_wipe = λ a i. wipe_uploads-IsConsistent db a i h;
  by_create = λ k. create_key-IsConsistent db k h;
  by_revoke = λ id a i. revoke_key-IsConsistent db id a i h;
  by_touch = λ id now. touch_key-IsConsistent db id now h;
}
