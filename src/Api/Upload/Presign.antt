-- ===== src/Api/Upload/Presign.antt =====
-- What a presign has checked and written by the time it answers with a URL.
use orbit_depot_prototype.Base.{
  ◌≡◌, refl, sym, ap, subst, ◌∙◌, Bool, true, false, not, Option, some, List, [], ◌∷◌, ◌++◌,
}
use orbit_depot_prototype.Base.Clock.{unix}
use orbit_depot_prototype.Base.Text.{Text, codes, ◌==◌}
use orbit_depot_prototype.Base.Exec.{Result, ok, err, is_ok, continue, ◌>>◌, pure, result-injective}
use orbit_depot_prototype.Place.{Place, Registry, resolve, validate}
use orbit_depot_prototype.Place.Key.{derive_key}
use orbit_depot_prototype.Quota.{check}
use orbit_depot_prototype.Store.{StoreError, Upload}
use orbit_depot_prototype.Store.Sqlite.{usage, Db, record_upload}
use orbit_depot_prototype.Auth.{Authenticator, Identity}
use orbit_depot_prototype.Auth.Downgrade.{KeepsUploads, Wired}
use orbit_depot_prototype.Fs.{Driver, UploadTarget, Constraints, presign_upload, resolve_download}
use orbit_depot_prototype.Api.{
  World, or_status, Server, Call, rate_limit, client_ip, on_result, require, wired, given,
  authenticate, place_error_status,
}
use orbit_depot_prototype.Api.Upload.{
  PresignRequest, PresignResponse, presign_ttl, internal, upload_row, place_request, limit_user,
  check_quota, record_in_store, issue_url, presign_for, handle_presign,
}
use orbit_depot_prototype.Api.Frames.{
  stepped, on_result-Keeps, require-Keeps, wired-Keeps, given-Keeps, on_result-ok, wired-ok,
  given-ok, rate_limit-Keeps, limit_user-Keeps, check_quota-Keeps, check_quota-ok,
  authenticate-Keeps, authenticate-ok, record_upload-ok,
}

abbrev pub asked : PresignRequest → Constraints
asked req = record { content_type = req.content_type; max_size = req.size; expiry = presign_ttl }

-- What a URL that is issued for a checked request is: the key is derived from the identity, the URL
-- is what the driver presigns for it, and the row says so.
pub record Issued {H : Type 0} (srv : Server H) (c : Call) (driver : Driver) (pl : Place)
    (id : Identity) (req : PresignRequest) (resp : PresignResponse) (before after : List Upload)
    : Type 0 where
  pub key : Text
  pub derived :
      derive_key c.surroundings pl id.subject id.issuer id.anonymous
        (place_request req.filename req.size req.content_type)
      ≡ ok key
  pub presigned : presign_upload driver key (asked req) c.now ≡ ok resp.target
  pub recorded :
      srv.has_store ≡ true
      → after
        ≡ before
          ++ (record (upload_row id resp.target.object_key req.size req.content_type req.filename
                c.now) { uploaded_at = unix c.now }
              ∷ [])

-- What has been checked for an identity before a URL is issued.
pub record Checked {H : Type 0} (srv : Server H) (c : Call) (driver : Driver) (places : Registry)
    (id : Identity) (body : Option PresignRequest) (resp : PresignResponse)
    (before after : List Upload) : Type 0 where
  pub asks : PresignRequest
  pub place : Place
  pub at_check : World H
  pub decoded : body ≡ some asks
  pub resolved : resolve places asks.place ≡ ok place
  pub validated :
      validate place (place_request asks.filename asks.size asks.content_type) id.anonymous ≡ ok tt
  pub same_uploads : at_check.db.uploads ≡ before
  pub within_quota : (check_quota srv.quota id asks.size at_check).0 ≡ ok tt
  pub metered :
      id.anonymous ≡ false
      → (check usage srv.quota id.subject id.issuer asks.size at_check.db).0 ≡ ok tt
  pub issued : Issued srv c driver place id asks resp before after

-- What stands behind a presign's answer.
pub record Presigned {H : Type 0} (srv : Server H) (c : Call) (body : Option PresignRequest)
    (w : World H) (resp : PresignResponse) (after : World H) : Type 0 where
  pub driver : Driver
  pub auth : Authenticator
  pub places : Registry
  pub identity : Identity
  pub has_driver : srv.driver ≡ some driver
  pub has_auth : srv.auth ≡ some auth
  pub has_places : srv.places ≡ some places
  pub authenticated : (auth c.request w.db).0 ≡ ok identity
  pub checked : Checked srv c driver places identity body resp w.db.uploads after.db.uploads

-- A statement on the tables before and after, along equations of both.
moved :
    (P : List Upload → List Upload → Type 0) {a b c d : List Upload} → a ≡ b → d ≡ c → P a c → P b d
moved P {a} {b} {c} {d} h k p = subst (λ x. P x d) h (subst (P a) (sym k) p)

after_record :
    {H : Type 0} (a resp : PresignResponse) (w : World H) (x : Result StoreError Unit × Db)
    (grown : List Upload)
    → (is_ok x.0 ≡ true → x.1.uploads ≡ grown)
    → (continue (λ u. pure a) (or_status internal x.0) (record w { db = x.1 })).0 ≡ ok resp
    → (a ≡ resp)
      × ((continue (λ u. pure a) (or_status internal x.0) (record w { db = x.1 })).1.db.uploads
          ≡ grown)
after_record a resp w (ok u, db) grown g h = (result-injective h, g refl)
after_record a resp w (err e, db) grown g h = cc h

-- The last step: the row is in the table, and the answer stands.
recorded_last :
    {H : Type 0} (has : Bool) (u : Upload) (a resp : PresignResponse) (w : World H)
    → ((record_in_store has u >> pure a) w).0 ≡ ok resp
    → (a ≡ resp)
      × (has ≡ true
          → ((record_in_store has u >> pure a) w).1.db.uploads
            ≡ w.db.uploads ++ (record u { uploaded_at = unix u.uploaded_at } ∷ []))
recorded_last false u a resp w h = (result-injective h, λ e. cc e)
recorded_last true u a resp w h =
    let (same, grown) =
      after_record a resp w (record_upload u w.db)
        (w.db.uploads ++ (record u { uploaded_at = unix u.uploaded_at } ∷ []))
        (record_upload-ok u w.db) h in
    (same, λ e. grown)

module _ {H : Type 0} (srv : Server H) (c : Call) where
  abbrev rows : World H → List Upload
  rows v = v.db.uploads

  issue_url_sound :
      (driver : Driver) (pl : Place) (id : Identity) (req : PresignRequest) (w : World H)
      (resp : PresignResponse)
      → (issue_url srv c driver pl id req w).0 ≡ ok resp
      → Issued srv c driver pl id req resp (rows w) (rows (issue_url srv c driver pl id req w).1)
  unfolding issue_url
  issue_url_sound driver pl id req w resp h =
      let derived =
        derive_key c.surroundings pl id.subject id.issuer id.anonymous
          (place_request req.filename req.size req.content_type) in
      let s1 =
        stepped rows (on_result place_error_status derived) _ w resp
          (on_result-Keeps rows place_error_status derived) h in
      let target = presign_upload driver s1.value (asked req) c.now in
      let s2 =
        stepped rows (on_result internal target) _ s1.behind resp
          (on_result-Keeps rows internal target) s1.rest in
      let s3 =
        stepped rows (on_result internal (resolve_download driver s1.value)) _ s2.behind resp
          (on_result-Keeps rows internal (resolve_download driver s1.value)) s2.rest in
      let a : PresignResponse = record { target = s2.value; download_url = s3.value } in
      let row : UploadTarget → Upload =
        λ t. upload_row id t.object_key req.size req.content_type req.filename c.now in
      let (same, grown) = recorded_last srv.has_store (row s2.value) a resp s3.behind s3.rest in
      record {
        key = s1.value;
        derived = on_result-ok place_error_status derived w s1.value s1.gives;
        presigned =
            on_result-ok internal target s1.behind s2.value s2.gives ∙ ap (λ p. ok p.target) same;
        recorded = λ has.
            subst
              (λ p.
                rows (issue_url srv c driver pl id req w).1
                ≡ rows w ++ (record (row p.target) { uploaded_at = unix c.now } ∷ []))
              same
              (moved (λ x y. y ≡ x ++ (record (row s2.value) { uploaded_at = unix c.now } ∷ []))
                (s3.kept ∙ s2.kept ∙ s1.kept) (ap rows (s1.ends ∙ s2.ends ∙ s3.ends)) (grown has));
      }

  presign_for_sound :
      (driver : Driver) (places : Registry) (id : Identity) (body : Option PresignRequest)
      (w : World H) (resp : PresignResponse)
      → (presign_for srv c driver places id body w).0 ≡ ok resp
      → Checked srv c driver places id body resp
          (rows w)
          (rows (presign_for srv c driver places id body w).1)
  unfolding presign_for
  presign_for_sound driver places id body w resp h =
      let s1 = stepped rows (given body) _ w resp (given-Keeps rows body) h in
      let req = s1.value in
      let s2 =
        stepped rows (require (not (req.filename == [])) 400) _ s1.behind resp
          (require-Keeps rows (not (req.filename == [])) 400) s1.rest in
      let s3 =
        stepped rows (on_result place_error_status (resolve places req.place)) _ s2.behind resp
          (on_result-Keeps rows place_error_status (resolve places req.place)) s2.rest in
      let valid =
        validate s3.value (place_request req.filename req.size req.content_type) id.anonymous in
      let s4 =
        stepped rows (on_result place_error_status valid) _ s3.behind resp
          (on_result-Keeps rows place_error_status valid) s3.rest in
      let s5 =
        stepped rows (check_quota srv.quota id req.size) _ s4.behind resp
          (check_quota-Keeps srv.quota id req.size) s4.rest in
      let issued = issue_url_sound driver s3.value id req s5.behind resp s5.rest in
      record {
        asks = req;
        place = s3.value;
        at_check = s4.behind;
        decoded = given-ok body w req s1.gives;
        resolved =
            on_result-ok place_error_status (resolve places req.place) s2.behind s3.value s3.gives;
        validated = on_result-ok place_error_status valid s3.behind s4.value s4.gives;
        same_uploads = s4.kept ∙ s3.kept ∙ s2.kept ∙ s1.kept;
        within_quota = s5.gives;
        metered = check_quota-ok srv.quota id req.size s4.behind s5.gives;
        issued =
            moved (Issued srv c driver s3.value id req resp)
              (s5.kept ∙ s4.kept ∙ s3.kept ∙ s2.kept ∙ s1.kept)
              (ap rows (s1.ends ∙ s2.ends ∙ s3.ends ∙ s4.ends ∙ s5.ends)) issued;
      }

  -- A presign that answers with a URL has authenticated the caller, decoded the request, resolved
  -- its place, validated it against the place, passed the quota check for an identified caller, and
  -- derived the key from the verified identity; the URL is what the driver presigns for that key
  -- and the requested type and size; and with a store, the table of uploads has grown by exactly
  -- the row that says so, under that key and the verified identity. The authenticator does not
  -- write the table of uploads.
  pub handle_presign_sound :
      (body : Option PresignRequest) (w : World H) (resp : PresignResponse)
      → Wired KeepsUploads srv.auth
      → (handle_presign srv c body w).0 ≡ ok resp
      → Presigned srv c body w resp (handle_presign srv c body w).1
  unfolding handle_presign
  handle_presign_sound body w resp keeps h =
      let db : World H → Db = λ v. v.db in
      let s1 = stepped db (wired srv.driver) _ w resp (wired-Keeps db srv.driver) h in
      let s2 = stepped db (wired srv.auth) _ s1.behind resp (wired-Keeps db srv.auth) s1.rest in
      let s3 = stepped db (wired srv.places) _ s2.behind resp (wired-Keeps db srv.places) s2.rest in
      let scope = codes "presign:ip:" ++ client_ip srv.trust_forwarded_for c in
      let s4 =
        stepped db (rate_limit srv.limiter scope srv.rate_per_ip) _ s3.behind resp
          (rate_limit-Keeps (λ d. d) srv.limiter scope srv.rate_per_ip) s3.rest in
      let has_auth = wired-ok srv.auth s1.behind s2.value s2.gives in
      let s5 =
        stepped rows (authenticate s2.value c.request) _ s4.behind resp
          (authenticate-Keeps s2.value c.request (subst (Wired KeepsUploads) has_auth keeps))
          s4.rest in
      let s6 =
        stepped rows (limit_user srv (codes "presign:user:") s5.value srv.rate_per_user) _ s5.behind
          resp
          (limit_user-Keeps (λ d. d.uploads) srv (codes "presign:user:") s5.value srv.rate_per_user)
          s5.rest in
      let checked = presign_for_sound s1.value s3.value s5.value body s6.behind resp s6.rest in
      let before = s4.kept ∙ s3.kept ∙ s2.kept ∙ s1.kept in
      record {
        driver = s1.value;
        auth = s2.value;
        places = s3.value;
        identity = s5.value;
        has_driver = wired-ok srv.driver w s1.value s1.gives;
        has_auth = has_auth;
        has_places = wired-ok srv.places s2.behind s3.value s3.gives;
        authenticated =
            subst (λ d. (s2.value c.request d).0 ≡ ok s5.value) before
              (authenticate-ok s2.value c.request s4.behind s5.value s5.gives);
        checked =
            moved (Checked srv c s1.value s3.value s5.value body resp)
              (s6.kept ∙ s5.kept ∙ ap (λ d. d.uploads) before)
              (ap rows (s1.ends ∙ s2.ends ∙ s3.ends ∙ s4.ends ∙ s5.ends ∙ s6.ends)) checked;
      }
