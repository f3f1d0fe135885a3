-- ===== src/Api/Upload/Storing.antt =====
-- What a one-shot upload writes for a file that has passed every check.
use orbit_depot_prototype.Base.{
  ◌≡◌, refl, sym, ap, subst, ◌∙◌, Bool, true, false, List, [], ◌∷◌, ◌++◌,
}
use orbit_depot_prototype.Base.Int.{ℤ}
use orbit_depot_prototype.Base.Clock.{unix}
use orbit_depot_prototype.Base.Exec.{ok, is_ok, result-injective}
use orbit_depot_prototype.Place.{Place}
use orbit_depot_prototype.Place.Key.{derive_key}
use orbit_depot_prototype.Store.{Upload}
use orbit_depot_prototype.Store.Sqlite.{record_upload}
use orbit_depot_prototype.Auth.{Identity}
use orbit_depot_prototype.Fs.{Driver, Disk, put_object, resolve_download}
use orbit_depot_prototype.Api.{World, Handler, Server, Call, on_result, on_disk, place_error_status}
use orbit_depot_prototype.Api.Upload.{
  internal, put_status, upload_row, place_request, record_in_store, FilePart, OneshotResponse,
  part_limits, store_file,
}
use orbit_depot_prototype.Api.Frames.{
  Keeps, stepped, both, or_status-ok, on_result-Keeps, on_result-ok, record_upload-ok,
}

-- What an upload writes to.
abbrev pub kept_by : {H : Type 0} → World H → List Upload × Disk
kept_by w = (w.db.uploads, w.disk)

-- What an upload that is answered has written for a checked file: the key is derived from the identity,
-- the driver has written the file under it, and the row says so.
pub record Written {H : Type 0} (srv : Server H) (c : Call) (driver : Driver) (pl : Place)
    (id : Identity) (file : FilePart) (resp : OneshotResponse) (before after : List Upload × Disk)
    : Type 0 where
  pub derived :
      derive_key c.surroundings pl id.subject id.issuer id.anonymous
        (place_request file.filename file.size file.content_type)
      ≡ ok resp.object_key
  pub put :
      put_object driver resp.object_key (part_limits file) file.content before.1
      ≡ (ok resp.size, after.1)
  pub linked : resolve_download driver resp.object_key ≡ ok resp.url
  pub recorded :
      srv.has_store ≡ true
      → after.0
        ≡ before.0
          ++ (record (upload_row id resp.object_key resp.size file.content_type file.filename
                c.now) { uploaded_at = unix c.now }
              ∷ [])

module _ {H : Type 0} where
  record_in_store-disk :
      (has : Bool) (u : Upload) → Keeps {H = H} (λ w. w.disk) (record_in_store has u)
  record_in_store-disk false u = record { at = λ w. refl }
  record_in_store-disk true u = record { at = λ w. refl }

  grown :
      (has : Bool) (u : Upload) (w : World H) (x : Unit)
      → (record_in_store has u w).0 ≡ ok x
      → has ≡ true
      → (record_in_store has u w).1.db.uploads
        ≡ w.db.uploads ++ (record u { uploaded_at = unix u.uploaded_at } ∷ [])
  grown false u w x h e = cc e
  grown true u w x h e =
      record_upload-ok u w.db (ap is_ok (or_status-ok internal (record_upload u w.db).0 x h))

  module _ (srv : Server H) (c : Call) where
    pub store_file_sound :
        (driver : Driver) (pl : Place) (id : Identity) (file : FilePart) (w : World H)
        (resp : OneshotResponse)
        → (store_file srv c driver pl id file w).0 ≡ ok resp
        → Written srv c driver pl id file resp
            (kept_by w)
            (kept_by (store_file srv c driver pl id file w).1)
    unfolding store_file
    store_file_sound driver pl id file w resp h =
        let f : World H → World H = λ v. v in
        let disk : World H → Disk = λ v. v.disk in
        let uploads : World H → List Upload = λ v. v.db.uploads in
        let derived =
          derive_key c.surroundings pl id.subject id.issuer id.anonymous
            (place_request file.filename file.size file.content_type) in
        let s1 =
          stepped f (on_result place_error_status derived) _ w resp
            (on_result-Keeps f place_error_status derived) h in
        let put : Handler H ℤ =
          on_disk put_status (put_object driver s1.value (part_limits file) file.content) in
        let s2 = stepped uploads put _ s1.behind resp (record { at = λ v. refl }) s1.rest in
        let row = upload_row id s1.value s2.value file.content_type file.filename c.now in
        let s3 =
          stepped disk (record_in_store srv.has_store row) _ s2.behind resp
            (record_in_store-disk srv.has_store row) s2.rest in
        let s4 =
          stepped f (on_result internal (resolve_download driver s1.value)) _ s3.behind resp
            (on_result-Keeps f internal (resolve_download driver s1.value)) s3.rest in
        let resp' : OneshotResponse = record {
          object_key = s1.value;
          url = s4.value;
          size = s2.value;
          content_type = file.content_type;
        } in
        let final : (store_file srv c driver pl id file w).1 ≡ s4.behind =
          s1.ends ∙ s2.ends ∙ s3.ends ∙ s4.ends in
        let wrote : put_object driver s1.value (part_limits file) file.content s1.behind.disk
            ≡ (ok s2.value, disk s2.behind) =
          both (or_status-ok put_status _ s2.value s2.gives) (ap disk (sym s2.stands)) in
        subst
          (λ r.
            Written srv c driver pl id file r (kept_by w)
              (kept_by (store_file srv c driver pl id file w).1))
          (result-injective s4.rest)
          (subst (λ v. Written srv c driver pl id file resp' (kept_by w) (kept_by v)) (sym final)
            (record {
              derived = on_result-ok place_error_status derived w s1.value s1.gives;
              put =
                  subst
                    (λ x.
                      put_object driver s1.value (part_limits file) file.content x
                      ≡ (ok s2.value, s4.behind.disk))
                    (ap disk s1.kept)
                    (wrote ∙ ap (λ x. (ok s2.value, x)) (sym (ap disk s4.kept ∙ s3.kept)));
              linked =
                  on_result-ok internal (resolve_download driver s1.value) s3.behind s4.value
                    s4.gives;
              recorded = λ has.
                  ap uploads (s4.kept ∙ s3.stands)
                  ∙ grown srv.has_store row s2.behind s3.value s3.gives has
                  ∙ ap (λ us. us ++ (record row { uploaded_at = unix c.now } ∷ []))
                      (s2.kept ∙ ap uploads s1.kept);
            }))
