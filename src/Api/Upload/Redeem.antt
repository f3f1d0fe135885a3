-- ===== src/Api/Upload/Redeem.antt =====
-- The URL of a presign, presented to the upload endpoint.
use orbit_depot_prototype.Base.{
  some-injective, ◌≡◌, sym, ap, subst, ◌∙◌, some, if◌then◌else◌, inl, inr,
}
use orbit_depot_prototype.Base.Int.{◌+ℤ◌}
use orbit_depot_prototype.Base.Clock.{Time, after, unix, from_unix}
use orbit_depot_prototype.Base.Text.{Text}
use orbit_depot_prototype.Base.Exec.{ok, err, result-injective, Result-cases}
use orbit_depot_prototype.Auth.Downgrade.{KeepsUploads, Wired}
use orbit_depot_prototype.Fs.{
  Driver, expired, Constraints, UploadTarget, UploadCap, validate_key, sign_upload, verify_upload,
  presign_upload,
}
use orbit_depot_prototype.Fs.Canonical.{IsInRange}
use orbit_depot_prototype.Fs.Capability.{Carries, to_second, verify_upload-sign_upload}
use orbit_depot_prototype.Api.{World, Server, Call}
use orbit_depot_prototype.Api.Upload.{PresignRequest, PresignResponse, presign_ttl, handle_presign}
use orbit_depot_prototype.Api.Upload.Presign.{asked, Presigned, handle_presign_sound}

abbrev pub capability : Text → Constraints → Time → UploadCap
capability key c now = record {
  key = key;
  max_size = c.max_size;
  content_type = c.content_type;
  expires = now +ℤ c.expiry;
}

presigned_target :
    (d : Driver) (key : Text) (c : Constraints) (now : Time) (target : UploadTarget)
    → presign_upload d key c now ≡ ok target
    → (target.object_key ≡ key) × (target.url.params ≡ sign_upload d (capability key c now))
unfolding presign_upload
presigned_target d key c now target h = elim (Result-cases (validate_key key)) [
  | inl (e, bad) ↦ cc (rw bad at h)
  | inr (u, good) ↦
      let same = result-injective (rw good at h) in
      (sym (ap (λ t. t.object_key) same), sym (ap (λ t. t.url.params) same))
]

module _ {H : Type 0} (srv : Server H) (c : Call) (req : PresignRequest) (d : Driver) (w : World H)
    (resp : PresignResponse) (q : Text → Text) (now : Time) where
  redeem :
      (p : Presigned srv c (some req) w resp (handle_presign srv c (some req) w).1)
      → srv.driver ≡ some d
      → IsInRange (capability resp.target.object_key (asked req) c.now)
      → Carries q resp.target.url.params
      → verify_upload d resp.target.object_key q now ≡ (
          if after now (from_unix (unix (c.now +ℤ presign_ttl)))
          then err expired
          else ok (to_second (capability resp.target.object_key (asked req) c.now)))
  redeem p has_driver range carries =
      let (same, params) =
        presigned_target p.driver p.checked.issued.key (asked p.checked.asks) c.now resp.target
          p.checked.issued.presigned in
      let same_driver = some-injective (sym p.has_driver ∙ has_driver) in
      let same_asks = some-injective (sym p.checked.decoded) in
      verify_upload-sign_upload d (capability resp.target.object_key (asked req) c.now) q range now
        (subst (Carries q)
          (params
            ∙ ap
                (λ dr.
                  sign_upload dr (capability p.checked.issued.key (asked p.checked.asks) c.now))
                same_driver
            ∙ ap (λ k. sign_upload d (capability k (asked p.checked.asks) c.now)) (sym same)
            ∙ ap (λ r. sign_upload d (capability resp.target.object_key (asked r) c.now)) same_asks)
          carries)

  -- The URL that a presign answers with is redeemable: whatever request carries its query back for
  -- the key that was answered, the upload endpoint accepts the capability, for the requested size
  -- and content type, until fifteen minutes after the presign, cut to the second; from then on it
  -- is refused as expired. The numbers that are signed are in the range of `int64`, and the
  -- authenticator does not write the table of uploads.
  pub handle_presign-verify_upload :
      Wired KeepsUploads srv.auth
      → srv.driver ≡ some d
      → (handle_presign srv c (some req) w).0 ≡ ok resp
      → IsInRange (capability resp.target.object_key (asked req) c.now)
      → Carries q resp.target.url.params
      → verify_upload d resp.target.object_key q now ≡ (
          if after now (from_unix (unix (c.now +ℤ presign_ttl)))
          then err expired
          else ok (to_second (capability resp.target.object_key (asked req) c.now)))
  handle_presign-verify_upload keeps has_driver answered range carries =
      redeem (handle_presign_sound srv c (some req) w resp keeps answered) has_driver range carries
