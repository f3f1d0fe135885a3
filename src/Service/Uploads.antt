-- ===== src/Service/Uploads.antt =====
-- What the presign and the one-shot upload uphold of the table of uploads.
use orbit_depot_prototype.Base.{ℕ, ◌≡◌, Bool, true, false, not, Option, [], ◌++◌}
use orbit_depot_prototype.Base.Int.{ℤ}
use orbit_depot_prototype.Base.Text.{Text, codes, ◌==◌}
use orbit_depot_prototype.Base.Exec.{Result, ok}
use orbit_depot_prototype.Config.Units.{Rate}
use orbit_depot_prototype.Store.{Upload}
use orbit_depot_prototype.Store.Sqlite.{record_upload}
use orbit_depot_prototype.Auth.{Identity}
use orbit_depot_prototype.Fs.{Driver}
use orbit_depot_prototype.Api.{Server, Call, rate_limit, on_result}
use orbit_depot_prototype.Api.Frames.{
  on_result-Keeps, rate_limit-Keeps, limit_user-Keeps, check_quota-Keeps,
}
use orbit_depot_prototype.Api.Upholding.{
  then-Upholds, kept-Upholds, result-Upholds, db-Upholds, disk-Upholds, pure-Upholds, fail-Upholds,
}
use orbit_depot_prototype.Service.Catalogue.{IsCatalogue, record_upload-Safe}
use orbit_depot_prototype.Service.Handlers.{
  KeepsRows, Keeping, required, wired_any, given_any, wired_auth, known,
}
use orbit_depot_prototype.Service.Catalogue.{presign_upload-valid, put_object-valid}
use orbit_depot_prototype.Place.{Place, Registry, resolve, validate}
use orbit_depot_prototype.Place.Key.{derive_key}
use orbit_depot_prototype.Fs.{validate_key, presign_upload, put_object, resolve_download}
use orbit_depot_prototype.Api.{client_ip}
use orbit_depot_prototype.Api.Upload.{
  PresignRequest, Form, limit_user, check_quota, record_in_store, upload_row, place_request,
  presign_ttl, issue_url, presign_for, handle_presign, FilePart, handle_upload, store_file,
  upload_for, part_limits, parse_form, over_limit, malformed, parsed, body_limit,
}

module _ {H : Type 0} where
  computed : {E A : Type 0} (status : E → ℕ) (r : Result E A) → Keeping {H = H} (on_result status r)
  computed status r = kept-Upholds IsCatalogue (on_result-Keeps (λ w. w.db.uploads) status r)

  -- A row whose key the driver serves is recorded.
  recorded :
      (has : Bool) (u : Upload)
      → validate_key u.object_key ≡ ok tt
      → Keeping {H = H} (record_in_store has u)
  recorded false u valid = pure-Upholds IsCatalogue tt
  recorded true u valid = db-Upholds IsCatalogue _ (record_upload u) (record_upload-Safe u valid)

  module _ (srv : Server H) (keeps : KeepsRows srv) where
    limited : (scope : Text) (id : Identity) (rate : Rate) → Keeping (limit_user srv scope id rate)
    limited scope id rate =
        kept-Upholds IsCatalogue (limit_user-Keeps (λ db. db.uploads) srv scope id rate)

    within_quota : (id : Identity) (size : ℤ) → Keeping {H = H} (check_quota srv.quota id size)
    within_quota id size = kept-Upholds IsCatalogue (check_quota-Keeps srv.quota id size)

    rated : (scope : Text) (rate : Rate) → Keeping (rate_limit srv.limiter scope rate)
    rated scope rate =
        kept-Upholds IsCatalogue (rate_limit-Keeps (λ db. db.uploads) srv.limiter scope rate)

    issue_url-Keeping :
        (c : Call) (d : Driver) (pl : Place) (id : Identity) (req : PresignRequest)
        → Keeping (issue_url srv c d pl id req)
    unfolding issue_url
    issue_url-Keeping c d pl id req =
        then-Upholds IsCatalogue
          (computed _ (
            derive_key c.surroundings pl id.subject id.issuer id.anonymous
              (place_request req.filename req.size req.content_type)))
          λ key _.
            then-Upholds IsCatalogue
              (result-Upholds IsCatalogue _ (
                presign_upload d key
                  (record {
                    content_type = req.content_type;
                    max_size = req.size;
                    expiry = presign_ttl;
                  })
                  c.now))
              λ target made. then-Upholds IsCatalogue (computed _ (resolve_download d key)) λ url _.
                then-Upholds IsCatalogue
                  (recorded srv.has_store
                    (upload_row id target.object_key req.size req.content_type req.filename c.now)
                    (presign_upload-valid d key _ c.now target made))
                  λ u _. pure-Upholds IsCatalogue _

    presign_for-Keeping :
        (c : Call) (d : Driver) (places : Registry) (id : Identity) (body : Option PresignRequest)
        → Keeping (presign_for srv c d places id body)
    unfolding presign_for
    presign_for-Keeping c d places id body = then-Upholds IsCatalogue (given_any body) λ req _.
        then-Upholds IsCatalogue (required (not (req.filename == [])) 400) λ u _.
          then-Upholds IsCatalogue (computed _ (resolve places req.place)) λ pl _.
            then-Upholds IsCatalogue
              (computed _
                (validate pl (place_request req.filename req.size req.content_type) id.anonymous))
              λ v _.
                then-Upholds IsCatalogue (within_quota id req.size)
                  λ x _. issue_url-Keeping c d pl id req

    pub handle_presign-Keeping :
        (c : Call) (body : Option PresignRequest) → Keeping (handle_presign srv c body)
    unfolding handle_presign
    handle_presign-Keeping c body = then-Upholds IsCatalogue (wired_any srv.driver) λ d _.
        then-Upholds IsCatalogue (wired_auth srv keeps) λ a has.
          then-Upholds IsCatalogue (wired_any srv.places) λ places _.
            then-Upholds IsCatalogue
              (rated (codes "presign:ip:" ++ client_ip srv.trust_forwarded_for c) srv.rate_per_ip)
              λ u _. then-Upholds IsCatalogue (known srv keeps c a has) λ id _.
                then-Upholds IsCatalogue (limited (codes "presign:user:") id srv.rate_per_user)
                  λ v _. presign_for-Keeping c d places id body

    form_any : (f : Form) → Keeping {H = H} (parse_form f)
    form_any over_limit = fail-Upholds IsCatalogue 413
    form_any malformed = fail-Upholds IsCatalogue 400
    form_any (parsed file place) = pure-Upholds IsCatalogue _

    store_file-Keeping :
        (c : Call) (d : Driver) (pl : Place) (id : Identity) (file : FilePart)
        → Keeping (store_file srv c d pl id file)
    unfolding store_file
    store_file-Keeping c d pl id file =
        then-Upholds IsCatalogue
          (computed _ (
            derive_key c.surroundings pl id.subject id.issuer id.anonymous
              (place_request file.filename file.size file.content_type)))
          λ key _.
            then-Upholds IsCatalogue
              (disk-Upholds IsCatalogue _ (put_object d key (part_limits file) file.content))
              λ n (disk, done).
                then-Upholds IsCatalogue
                  (recorded srv.has_store
                    (upload_row id key n file.content_type file.filename c.now)
                    (put_object-valid d key _ file.content n disk done))
                  λ z _.
                    then-Upholds IsCatalogue (computed _ (resolve_download d key))
                      λ url _. pure-Upholds IsCatalogue _

    upload_for-Keeping :
        (c : Call) (d : Driver) (places : Registry) (id : Identity) (form : Option ℤ → Form)
        → Keeping (upload_for srv c d places id form)
    unfolding upload_for
    upload_for-Keeping c d places id form =
        then-Upholds IsCatalogue (form_any (form (body_limit srv.max_file_size))) λ fields _.
          then-Upholds IsCatalogue (given_any fields.0) λ file _.
            then-Upholds IsCatalogue (computed _ (resolve places fields.1)) λ pl _.
              then-Upholds IsCatalogue
                (computed _ (
                  validate pl (place_request file.filename file.size file.content_type)
                    id.anonymous))
                λ x _.
                  then-Upholds IsCatalogue (within_quota id file.size)
                    λ y _. store_file-Keeping c d pl id file

    pub handle_upload-Keeping :
        (c : Call) (form : Option ℤ → Form) → Keeping (handle_upload srv c form)
    unfolding handle_upload
    handle_upload-Keeping c form = then-Upholds IsCatalogue (wired_any srv.driver) λ d _.
        then-Upholds IsCatalogue (wired_auth srv keeps) λ a has.
          then-Upholds IsCatalogue (wired_any srv.places) λ places _.
            then-Upholds IsCatalogue
              (rated (codes "oneshot:ip:" ++ client_ip srv.trust_forwarded_for c) srv.oneshot_rate)
              λ u _. then-Upholds IsCatalogue (known srv keeps c a has) λ id _.
                then-Upholds IsCatalogue (limited (codes "oneshot:user:") id srv.oneshot_rate)
                  λ v _. upload_for-Keeping c d places id form
