-- ===== src/Api/Examples.antt =====
-- Runs of the handlers on a small server.
use orbit_depot_prototype.Base.{
  true, false, ◌∷◌, ◌↔◌, ◌≢◌, ◌⊎◌, ℕ, ◌≡◌, refl, Option, none, some, List, [], arith, if◌then◌else◌,
}
use orbit_depot_prototype.Base.Int.{pos, ◌+ℤ◌}
use orbit_depot_prototype.Base.Clock.{after, unix, from_unix}
use orbit_depot_prototype.Base.Decimal.{format_int}
use orbit_depot_prototype.Base.Text.{
  Text, codes, ◌==◌, lookup, has_prefix, hex_encode, trim_left, trim_right,
}
use orbit_depot_prototype.Base.Paths.{clean, join_path, split_slash}
use orbit_depot_prototype.Base.Exec.{Result, ok, err}
use orbit_depot_prototype.Place.{resolve, validate}
use orbit_depot_prototype.Place.Filename.{sanitize_filename}
use orbit_depot_prototype.Place.Key.{account_hash, unique_segment, derive_key}
use orbit_depot_prototype.Store.Sqlite.{statement, record_upload}
use orbit_depot_prototype.Store.Sqlite.Deletion.{others}
use orbit_depot_prototype.Quota.{check}
use orbit_depot_prototype.Fs.{
  Url, expired, canonical, mac, sign_upload, validate_key, verify_upload, presign_upload,
  resolve_download,
}
use orbit_depot_prototype.Fs.Canonical.{IsInRange}
use orbit_depot_prototype.Fs.Capability.{Carries, to_second}
use orbit_depot_prototype.Base.Rows.{Listed}
use orbit_depot_prototype.Auth.{AuthError, Identity}
use orbit_depot_prototype.Api.{rate_limit, client_ip, authenticate}
use orbit_depot_prototype.Fs.{put_object, write_object, disk_path, system_call}
use orbit_depot_prototype.Base.Int.{add64}
use orbit_depot_prototype.Api.Upload.Oneshot.{Uploaded, handle_upload_sound}
use orbit_depot_prototype.Api.Upload.{
  FilePart, OneshotResponse, parsed, store_file, upload_for, handle_upload, PresignResponse,
  presign_ttl, issue_url, presign_for, handle_presign,
}
use orbit_depot_prototype.Api.Upload.Presign.{asked, Presigned, handle_presign_sound}
use orbit_depot_prototype.Api.Upload.Redeem.{capability, handle_presign-verify_upload}
use orbit_depot_prototype.Api.Files.{handle_delete_file, require_admin}
use orbit_depot_prototype.Api.Files.Moderation.{
  IsAdministrator, others-handle_delete_file, require_admin_exact,
}
use orbit_depot_prototype.Api.Cors.{allow_origin, with_cors, with_cors_lem}
use orbit_depot_prototype.Api.Samples.{
  ann, signed_in, signed_in-KeepsUploads, local, server, call, world, wanted,
}

abbrev nowhere : Url
nowhere = record { host = []; path = []; params = [] }

abbrev response_of : Result ℕ PresignResponse → PresignResponse
response_of (ok resp) = resp
response_of (err status) = record {
  target = record { url = nowhere; method = []; object_key = []; expires_in = pos 0 };
  download_url = nowhere;
}

abbrev answer : PresignResponse
answer = response_of (handle_presign server call (some wanted) world).0

answers : (handle_presign server call (some wanted) world).0 ≡ ok answer
unfolding handle_presign presign_for issue_url rate_limit client_ip authenticate resolve lookup
    validate check derive_key account_hash unique_segment sanitize_filename hex_encode join_path
    clean split_slash ◌==◌ has_prefix trim_left trim_right presign_upload resolve_download
    validate_key sign_upload mac canonical format_int unix record_upload statement
answers = refl

handle_presign_sound_example :
    Presigned server call
      (some wanted)
      world
      answer
      (handle_presign server call (some wanted) world).1
handle_presign_sound_example =
    handle_presign_sound server call (some wanted) world answer signed_in-KeepsUploads answers

abbrev posted : FilePart
posted = record {
  filename = codes "a";
  size = pos 2;
  content_type = codes "t";
  content = record { bytes = codes "xy"; broken = false };
}

abbrev stored_of : Result ℕ OneshotResponse → OneshotResponse
stored_of (ok resp) = resp
stored_of (err status) = record { object_key = []; url = nowhere; size = pos 0; content_type = [] }

abbrev stored : OneshotResponse
stored = stored_of (handle_upload server call (λ limit. parsed (some posted) (codes "d")) world).0

stored_answers :
    (handle_upload server call (λ limit. parsed (some posted) (codes "d")) world).0 ≡ ok stored
unfolding handle_upload upload_for store_file rate_limit client_ip authenticate resolve lookup
    validate check derive_key account_hash unique_segment sanitize_filename hex_encode join_path
    clean split_slash ◌==◌ has_prefix trim_left trim_right resolve_download put_object write_object
    disk_path system_call add64 validate_key format_int unix record_upload statement
stored_answers = refl

handle_upload_sound_example :
    Uploaded server call
      (λ limit. parsed (some posted) (codes "d"))
      world
      stored
      (handle_upload server call (λ limit. parsed (some posted) (codes "d")) world).1
handle_upload_sound_example =
    handle_upload_sound server call (λ limit. parsed (some posted) (codes "d")) world stored
      signed_in-KeepsUploads stored_answers

abbrev or_nil : Option Text → Text
or_nil none = []
or_nil (some v) = v

abbrev query_of : List (Text × Text) → Text → Text
query_of params k = or_nil (lookup k params)

query_of-Carries : (params : List (Text × Text)) → Carries (query_of params) params
query_of-Carries params k v h = rw h

capability-IsInRange : IsInRange (capability answer.target.object_key (asked wanted) call.now)
unfolding unix
capability-IsInRange = record { size_int64 = omega arith; expiry_int64 = omega arith }

handle_presign-verify_upload_example :
    verify_upload local answer.target.object_key (query_of answer.target.url.params) (pos 1) ≡ (
      if after (pos 1) (from_unix (unix (call.now +ℤ presign_ttl)))
      then err expired
      else ok (to_second (capability answer.target.object_key (asked wanted) call.now)))
handle_presign-verify_upload_example =
    handle_presign-verify_upload server call wanted local world answer
      (query_of answer.target.url.params) (pos 1) signed_in-KeepsUploads refl answers
      capability-IsInRange (query_of-Carries answer.target.url.params)

others-handle_delete_file_example :
    others (codes "ann") (codes "i") (handle_delete_file server call world).1.db
    ≡ others (codes "ann") (codes "i") world.db
others-handle_delete_file_example =
    others-handle_delete_file server call signed_in world ann refl signed_in-KeepsUploads refl refl

require_admin_exact_example :
    ((e : AuthError)
      → (signed_in call.request world.db).0 ≡ err e
      → (require_admin server call world).0 ≡ err 401)
    × ((id : Identity)
        → (signed_in call.request world.db).0 ≡ ok id
        → IsAdministrator id
        → (require_admin server call world).0 ≡ ok id)
    × ((id : Identity)
        → (signed_in call.request world.db).0 ≡ ok id
        → ¬ (IsAdministrator id)
        → (require_admin server call world).0 ≡ err 403)
require_admin_exact_example = require_admin_exact server call signed_in world local refl refl refl

with_cors_lem_example :
    ((lookup allow_origin
          (with_cors (codes "https://a" ∷ []) (codes "OPTIONS") (codes "https://a")).headers
        ≡ some (codes "https://a"))
      ↔ ((codes "https://a" ≢ [])
          × ((Listed (codes "*") (codes "https://a" ∷ []) × (codes "https://a" ≡ codes "*"))
              ⊎ (¬ (Listed (codes "*") (codes "https://a" ∷ []))
                  × Listed (codes "https://a") (codes "https://a" ∷ [])
                  × (codes "https://a" ≡ codes "https://a")))))
    × (((with_cors (codes "https://a" ∷ []) (codes "OPTIONS") (codes "https://a")).is_preflight
          ≡ true)
        ↔ (((codes "https://a" ∷ []) ≢ [])
            × (codes "OPTIONS" ≡ codes "OPTIONS")
            × (codes "https://a" ≢ [])))
with_cors_lem_example =
    with_cors_lem (codes "https://a" ∷ []) (codes "OPTIONS") (codes "https://a") (codes "https://a")
