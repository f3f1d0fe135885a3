-- ===== src/Api/Upload.antt =====
-- internal/api/upload.go: the presign endpoint and the one-shot upload.
pub mod Presign
pub mod Redeem
pub mod Storing
pub mod Oneshot
use orbit_depot_prototype.Base.{
  ℕ, ◌*◌, Bool, true, false, not, Option, none, some, List, [], ◌∷◌, ◌++◌, if◌then◌else◌,
}
use orbit_depot_prototype.Base.Int.{ℤ, pos, add64, ltb_ℤ}
use orbit_depot_prototype.Base.Clock.{Time, minute}
use orbit_depot_prototype.Base.Text.{Text, codes, ◌==◌}
use orbit_depot_prototype.Base.Exec.{Result, ok, err, pure, fail, ◌>>=◌, ◌>>◌}
use orbit_depot_prototype.Place.{Place, Registry, UploadRequest, resolve, validate}
use orbit_depot_prototype.Place.Key.{derive_key}
use orbit_depot_prototype.Store.{StoreError, Upload}
use orbit_depot_prototype.Store.Sqlite.{usage, record_upload}
use orbit_depot_prototype.Quota.{Enforcer, QuotaError, exceeded, check}
use orbit_depot_prototype.Auth.{Identity}
use orbit_depot_prototype.Fs.{
  Driver, FsError, UploadTarget, Constraints, Url, Reader, presign_upload, resolve_download,
  put_object,
}
use orbit_depot_prototype.Config.Units.{Rate, is_zero_rate}
use orbit_depot_prototype.Api.{
  Server, World, Call, Handler, on_result, on_db, on_disk, wired, given, require, rate_limit,
  authenticate, client_ip, place_error_status,
}

-- The JSON body of a presign request.
pub record PresignRequest : Type 0 where
  pub filename : Text
  pub size : ℤ
  pub content_type : Text
  pub place : Text

pub record PresignResponse : Type 0 where
  pub target : UploadTarget
  pub download_url : Url

abbrev pub presign_ttl : ℤ
presign_ttl = pos (15 * minute)

abbrev pub quota_status : QuotaError → ℕ
quota_status exceeded = 413
quota_status e = 500

abbrev pub internal : {E : Type 0} → E → ℕ
internal e = 500

-- `writer.PutObject` fails with `storage.ErrTooLarge`, or with another error.
abbrev pub put_status : FsError → ℕ
put_status FsError.too_large = 413
put_status e = 500

abbrev pub upload_row : Identity → Text → ℤ → Text → Text → Time → Upload
upload_row id key size content_type filename now = record {
  object_key = key;
  uploader_account = id.subject;
  uploader_issuer = id.issuer;
  file_size = size;
  content_type = content_type;
  original_filename = filename;
  uploaded_at = now;
}

abbrev pub place_request : Text → ℤ → Text → UploadRequest
place_request filename size content_type = record {
  filename = filename;
  size = size;
  content_type = content_type;
}

module _ {H : Type 0} where
  -- The per-user limit, once a caller is identified.
  abbrev pub limit_user : Server H → Text → Identity → Rate → Handler H Unit
  limit_user srv scope id rate =
      if id.anonymous
      then pure tt
      else rate_limit srv.limiter (scope ++ (id.issuer ++ (b'|' ∷ id.subject))) rate

  -- The quota applies to identified callers only.
  abbrev pub check_quota : Enforcer → Identity → ℤ → Handler H Unit
  check_quota quota id size =
      if id.anonymous
      then pure tt
      else on_db quota_status (check usage quota id.subject id.issuer size)

  -- The metadata row, where there is a store.
  abbrev pub record_in_store : Bool → Upload → Handler H Unit
  record_in_store false u = pure tt
  record_in_store true u = on_db internal (record_upload u)

  -- The end of `handlePresign`: from the key on, for a request that has passed every check.
  unfoldable pub issue_url :
      Server H → Call → Driver → Place → Identity → PresignRequest → Handler H PresignResponse
  issue_url srv c driver pl id req = do
    key ← on_result place_error_status (
        derive_key c.surroundings pl id.subject id.issuer id.anonymous
          (place_request req.filename req.size req.content_type))
    target ← on_result internal (
        presign_upload driver key
          (record { content_type = req.content_type; max_size = req.size; expiry = presign_ttl })
          c.now)
    download ← on_result internal (resolve_download driver key)
    record_in_store srv.has_store
        (upload_row id target.object_key req.size req.content_type req.filename c.now)
    pure (record { target = target; download_url = download })

  -- The middle of `handlePresign`: the checks of the request for an identity.
  unfoldable pub presign_for :
      Server H
      → Call
      → Driver
      → Registry
      → Identity
      → Option PresignRequest
      → Handler H PresignResponse
  presign_for srv c driver places id body = do
    req ← given body
    require (not (req.filename == [])) 400
    pl ← on_result place_error_status (resolve places req.place)
    on_result place_error_status
        (validate pl (place_request req.filename req.size req.content_type) id.anonymous)
    check_quota srv.quota id req.size
    issue_url srv c driver pl id req

  -- `handlePresign`; `body` is what the JSON decoder makes of the body.
  unfoldable pub handle_presign :
      Server H → Call → Option PresignRequest → Handler H PresignResponse
  handle_presign srv c body = do
    driver ← wired srv.driver
    auth ← wired srv.auth
    places ← wired srv.places
    rate_limit srv.limiter (codes "presign:ip:" ++ client_ip srv.trust_forwarded_for c)
        srv.rate_per_ip
    id ← authenticate auth c.request
    limit_user srv (codes "presign:user:") id srv.rate_per_user
    presign_for srv c driver places id body

-- The "file" part of a multipart form.
pub record FilePart : Type 0 where
  pub filename : Text
  pub size : ℤ
  pub content_type : Text
  pub content : Reader

-- What `ParseMultipartForm` makes of the body: too many bytes, no form, or its file and "place".
pub data Form : Type 0 where
  over_limit malformed : Form
  parsed : Option FilePart → Text → Form

pub record OneshotResponse : Type 0 where
  pub object_key : Text
  pub url : Url
  pub size : ℤ
  pub content_type : Text

abbrev oneshot_overhead : ℤ
oneshot_overhead = pos (1024 * 1024)

abbrev pub part_limits : FilePart → Constraints
part_limits file = record { content_type = file.content_type; max_size = file.size; expiry = pos 0 }

-- The limit of the coarse guard, where there is one.
abbrev pub body_limit : ℤ → Option ℤ
body_limit max_file_size =
    if ltb_ℤ (pos 0) max_file_size then some (add64 max_file_size oneshot_overhead) else none

module _ {H : Type 0} where
  abbrev pub parse_form : Form → Handler H (Option FilePart × Text)
  parse_form over_limit = fail 413
  parse_form malformed = fail 400
  parse_form (parsed file place) = pure (file, place)

  -- The end of `handleUpload`: from the key on, for a file that has passed every check.
  unfoldable pub store_file :
      Server H → Call → Driver → Place → Identity → FilePart → Handler H OneshotResponse
  store_file srv c driver pl id file = do
    key ← on_result place_error_status (
        derive_key c.surroundings pl id.subject id.issuer id.anonymous
          (place_request file.filename file.size file.content_type))
    n ← on_disk put_status (put_object driver key (part_limits file) file.content)
    record_in_store srv.has_store (upload_row id key n file.content_type file.filename c.now)
    download ← on_result internal (resolve_download driver key)
    pure (record { object_key = key; url = download; size = n; content_type = file.content_type })

  -- The middle of `handleUpload`: the form and its checks for an identity.
  unfoldable pub upload_for :
      Server H → Call → Driver → Registry → Identity → (Option ℤ → Form) → Handler H OneshotResponse
  upload_for srv c driver places id form = do
    fields ← parse_form (form (body_limit srv.max_file_size))
    file ← given fields.0
    pl ← on_result place_error_status (resolve places fields.1)
    on_result place_error_status
        (validate pl (place_request file.filename file.size file.content_type) id.anonymous)
    check_quota srv.quota id file.size
    store_file srv c driver pl id file

  -- `handleUpload`; `form` is the body as net/http parses it under a limit.
  unfoldable pub handle_upload : Server H → Call → (Option ℤ → Form) → Handler H OneshotResponse
  handle_upload srv c form = do
    driver ← wired srv.driver
    auth ← wired srv.auth
    places ← wired srv.places
    rate_limit srv.limiter (codes "oneshot:ip:" ++ client_ip srv.trust_forwarded_for c)
        srv.oneshot_rate
    id ← authenticate auth c.request
    limit_user srv (codes "oneshot:user:") id srv.oneshot_rate
    upload_for srv c driver places id form
