-- ===== src/Api/Upload/Oneshot.antt =====
-- What a one-shot upload has checked and written by the time it answers with a URL.
use orbit_depot_prototype.Base.{false, ◌≡◌, refl, sym, ap, subst, ◌∙◌, Option, some, List, ◌++◌}
use orbit_depot_prototype.Base.Int.{ℤ}
use orbit_depot_prototype.Base.Text.{Text, codes}
use orbit_depot_prototype.Base.Exec.{ok, result-injective}
use orbit_depot_prototype.Place.{Place, Registry, resolve, validate}
use orbit_depot_prototype.Quota.{check}
use orbit_depot_prototype.Store.{Upload}
use orbit_depot_prototype.Store.Sqlite.{usage, Db}
use orbit_depot_prototype.Auth.{Authenticator, Identity}
use orbit_depot_prototype.Auth.Downgrade.{KeepsUploads, Wired}
use orbit_depot_prototype.Fs.{Driver, Disk}
use orbit_depot_prototype.Api.{
  World, Server, Call, rate_limit, client_ip, on_result, wired, given, authenticate,
  place_error_status,
}
use orbit_depot_prototype.Api.Upload.{
  place_request, limit_user, check_quota, Form, FilePart, parsed, over_limit, malformed, parse_form,
  body_limit, OneshotResponse, upload_for, handle_upload,
}
use orbit_depot_prototype.Api.Frames.{
  Keeps, stepped, both-Keeps, on_result-Keeps, wired-Keeps, given-Keeps, on_result-ok, wired-ok,
  given-ok, rate_limit-Keeps, limit_user-Keeps, check_quota-Keeps, check_quota-ok,
  authenticate-Keeps, rate_limit-disk, limit_user-disk, check_quota-disk, authenticate-disk,
  authenticate-ok,
}
use orbit_depot_prototype.Api.Upload.Storing.{kept_by, Written, store_file_sound}

-- What has been checked for an identity before a file is stored.
pub record Accepted {H : Type 0} (srv : Server H) (c : Call) (form : Option ℤ → Form)
    (driver : Driver) (places : Registry) (id : Identity) (resp : OneshotResponse)
    (before after : List Upload × Disk) : Type 0 where
  pub file : FilePart
  pub name : Text
  pub place : Place
  pub at_check : World H
  pub decoded : form (body_limit srv.max_file_size) ≡ parsed (some file) name
  pub resolved : resolve places name ≡ ok place
  pub validated :
      validate place (place_request file.filename file.size file.content_type) id.anonymous ≡ ok tt
  pub same_uploads : at_check.db.uploads ≡ before.0
  pub within_quota : (check_quota srv.quota id file.size at_check).0 ≡ ok tt
  pub metered :
      id.anonymous ≡ false
      → (check usage srv.quota id.subject id.issuer file.size at_check.db).0 ≡ ok tt
  pub written : Written srv c driver place id file resp before after

-- What stands behind an upload's answer.
pub record Uploaded {H : Type 0} (srv : Server H) (c : Call) (form : Option ℤ → Form) (w : World H)
    (resp : OneshotResponse) (after : World H) : Type 0 where
  pub driver : Driver
  pub auth : Authenticator
  pub places : Registry
  pub identity : Identity
  pub has_driver : srv.driver ≡ some driver
  pub has_auth : srv.auth ≡ some auth
  pub has_places : srv.places ≡ some places
  pub authenticated : (auth c.request w.db).0 ≡ ok identity
  pub accepted : Accepted srv c form driver places identity resp (kept_by w) (kept_by after)

parse_form-ok :
    {H : Type 0} (f : Form) (w : World H) (fields : Option FilePart × Text)
    → (parse_form f w).0 ≡ ok fields
    → f ≡ parsed fields.0 fields.1
parse_form-ok over_limit w fields h = cc h
parse_form-ok malformed w fields h = cc h
parse_form-ok (parsed file place) w fields h = ap (λ x. parsed x.0 x.1) (result-injective h)

parse_form-Keeps : {H X : Type 0} (f : World H → X) (form : Form) → Keeps f (parse_form form)
parse_form-Keeps f over_limit = record { at = λ w. refl }
parse_form-Keeps f malformed = record { at = λ w. refl }
parse_form-Keeps f (parsed file place) = record { at = λ w. refl }

module _ {H : Type 0} (srv : Server H) (c : Call) where
  -- Along equations of the parts before and after.
  carried : {X : Type 0} (P : X → X → Type 0) {a b x y : X} → a ≡ b → y ≡ x → P a x → P b y
  carried P {a} {b} {x} {y} h l p = subst (λ z. P z y) h (subst (P a) (sym l) p)

  upload_for_sound :
      (form : Option ℤ → Form) (driver : Driver) (places : Registry) (id : Identity) (w : World H)
      (resp : OneshotResponse)
      → (upload_for srv c driver places id form w).0 ≡ ok resp
      → Accepted srv c form driver places id resp
          (kept_by w)
          (kept_by (upload_for srv c driver places id form w).1)
  unfolding upload_for
  upload_for_sound form driver places id w resp h =
      let k : World H → List Upload × Disk = kept_by in
      let body = form (body_limit srv.max_file_size) in
      let s1 = stepped k (parse_form body) _ w resp (parse_form-Keeps k body) h in
      let s2 = stepped k (given s1.value.0) _ s1.behind resp (given-Keeps k s1.value.0) s1.rest in
      let file = s2.value in
      let chosen = resolve places s1.value.1 in
      let s3 =
        stepped k (on_result place_error_status chosen) _ s2.behind resp
          (on_result-Keeps k place_error_status chosen) s2.rest in
      let valid =
        validate s3.value (place_request file.filename file.size file.content_type) id.anonymous in
      let s4 =
        stepped k (on_result place_error_status valid) _ s3.behind resp
          (on_result-Keeps k place_error_status valid) s3.rest in
      let s5 =
        stepped k (check_quota srv.quota id file.size) _ s4.behind resp
          (both-Keeps (check_quota-Keeps srv.quota id file.size)
            (check_quota-disk srv.quota id file.size))
          s4.rest in
      let written = store_file_sound srv c driver s3.value id file s5.behind resp s5.rest in
      let same = s4.kept ∙ s3.kept ∙ s2.kept ∙ s1.kept in
      record {
        file = file;
        name = s1.value.1;
        place = s3.value;
        at_check = s4.behind;
        decoded =
            parse_form-ok body w s1.value s1.gives
            ∙ ap (λ o. parsed o s1.value.1) (given-ok s1.value.0 s1.behind file s2.gives);
        resolved = on_result-ok place_error_status chosen s2.behind s3.value s3.gives;
        validated = on_result-ok place_error_status valid s3.behind s4.value s4.gives;
        same_uploads = ap (λ x. x.0) same;
        within_quota = s5.gives;
        metered = check_quota-ok srv.quota id file.size s4.behind s5.gives;
        written =
            carried (Written srv c driver s3.value id file resp) (s5.kept ∙ same)
              (ap k (s1.ends ∙ s2.ends ∙ s3.ends ∙ s4.ends ∙ s5.ends)) written;
      }

  -- A one-shot upload that is answered has authenticated the caller, read a form with a file, resolved
  -- the place that the form names, validated the file against it, and passed the quota check for an
  -- identified caller; the key is derived from the verified identity; the driver has written the file
  -- under that key, with the file's size as its limit, and nothing else has touched the files; and with
  -- a store the table of uploads has grown by exactly the row of that key, identity and number of bytes.
  -- The authenticator does not write the table of uploads.
  pub handle_upload_sound :
      (form : Option ℤ → Form) (w : World H) (resp : OneshotResponse)
      → Wired KeepsUploads srv.auth
      → (handle_upload srv c form w).0 ≡ ok resp
      → Uploaded srv c form w resp (handle_upload srv c form w).1
  unfolding handle_upload
  handle_upload_sound form w resp keeps h =
      let f : World H → World H = λ v. v in
      let g : World H → Db × Disk = λ v. (v.db, v.disk) in
      let k : World H → List Upload × Disk = kept_by in
      let s1 = stepped f (wired srv.driver) _ w resp (wired-Keeps f srv.driver) h in
      let s2 = stepped f (wired srv.auth) _ s1.behind resp (wired-Keeps f srv.auth) s1.rest in
      let s3 = stepped f (wired srv.places) _ s2.behind resp (wired-Keeps f srv.places) s2.rest in
      let scope = codes "oneshot:ip:" ++ client_ip srv.trust_forwarded_for c in
      let s4 =
        stepped g (rate_limit srv.limiter scope srv.oneshot_rate) _ s3.behind resp
          (both-Keeps (rate_limit-Keeps (λ d. d) srv.limiter scope srv.oneshot_rate)
            (rate_limit-disk srv.limiter scope srv.oneshot_rate))
          s3.rest in
      let has_auth = wired-ok srv.auth s1.behind s2.value s2.gives in
      let s5 =
        stepped k (authenticate s2.value c.request) _ s4.behind resp
          (both-Keeps
            (authenticate-Keeps s2.value c.request (subst (Wired KeepsUploads) has_auth keeps))
            (authenticate-disk s2.value c.request))
          s4.rest in
      let s6 =
        stepped k (limit_user srv (codes "oneshot:user:") s5.value srv.oneshot_rate) _ s5.behind
          resp
          (both-Keeps
            (limit_user-Keeps (λ d. d.uploads) srv (codes "oneshot:user:") s5.value
              srv.oneshot_rate)
            (limit_user-disk srv (codes "oneshot:user:") s5.value srv.oneshot_rate))
          s5.rest in
      let accepted = upload_for_sound form s1.value s3.value s5.value s6.behind resp s6.rest in
      let before : s4.behind.db ≡ w.db =
        ap (λ x. x.0) s4.kept ∙ ap (λ v. v.db) (s3.kept ∙ s2.kept ∙ s1.kept) in
      record {
        driver = s1.value;
        auth = s2.value;
        places = s3.value;
        identity = s5.value;
        has_driver = wired-ok srv.driver w s1.value s1.gives;
        has_auth = has_auth;
        has_places = wired-ok srv.places s2.behind s3.value s3.gives;
        authenticated =
            subst (λ d. (s2.value c.request d).0 ≡ ok s5.value) before
              (authenticate-ok s2.value c.request s4.behind s5.value s5.gives);
        accepted =
            carried (Accepted srv c form s1.value s3.value s5.value resp)
              (s6.kept
                ∙ s5.kept
                ∙ ap (λ x. (x.0.uploads, x.1)) s4.kept
                ∙ ap k (s3.kept ∙ s2.kept ∙ s1.kept))
              (ap k (s1.ends ∙ s2.ends ∙ s3.ends ∙ s4.ends ∙ s5.ends ∙ s6.ends)) accepted;
      }
