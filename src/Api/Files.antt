-- ===== src/Api/Files.antt =====
-- internal/api/file.go, quota.go and the gate of admin.go: deletion, the wipes, and the usage report.
pub mod Moderation
use orbit_depot_prototype.Base.{
  ℕ, Bool, true, false, not, ◌&&◌, Option, none, some, List, [], ◌∷◌, ◌++◌, if◌then◌else◌, length,
}
use orbit_depot_prototype.Base.Int.{ℤ, pos, leb_ℤ}
use orbit_depot_prototype.Base.Text.{Text, codes, ◌==◌}
use orbit_depot_prototype.Base.Exec.{Result, ok, err, pure, fail, ◌>>=◌, ◌>>◌}
use orbit_depot_prototype.Store.{StoreError, not_found}
use orbit_depot_prototype.Store.Sqlite.{delete_upload, delete_upload_any, wipe_uploads, usage}
use orbit_depot_prototype.Quota.{limit_of}
use orbit_depot_prototype.Auth.{Method, Identity}
use orbit_depot_prototype.Fs.{Driver, delete_object}
use orbit_depot_prototype.Api.{
  Server, World, Call, Handler, on_db, attempt, wired, require, authenticate,
}

-- `ErrNotFound` is the caller's 404, any other error of the store a 500.
abbrev pub missing_status : StoreError → ℕ
missing_status not_found = 404
missing_status e = 500

abbrev failed_status : StoreError → ℕ
failed_status e = 500

-- Whether the method is one of the two that can be admin.
abbrev pub is_admin_method : Method → Bool
is_admin_method Method.oidc = true
is_admin_method Method.service_key = true
is_admin_method m = false

pub record QuotaResponse : Type 0 where
  pub used : ℤ
  pub limit : ℤ
  pub unlimited : Bool

module _ {H : Type 0} where
  -- `handleDeleteFile`
  unfoldable pub handle_delete_file : Server H → Call → Handler H Unit
  handle_delete_file srv c = do
    driver ← wired srv.driver
    auth ← wired srv.auth
    require srv.has_store 501
    id ← authenticate auth c.request
    require (not id.anonymous) 403
    let key = c.request.path_value
    require (not (key == [])) 400
    on_db missing_status
        (if id.admin then delete_upload_any key else delete_upload key id.subject id.issuer)
    attempt (delete_object driver key)

  abbrev pub delete_objects : Driver → List Text → Handler H Unit
  delete_objects driver [] = pure tt
  delete_objects driver (k ∷ keys) =
      let rest = delete_objects driver keys in attempt (delete_object driver k) >> rest

  -- `wipeUploads` of the server: the number of rows that are gone.
  unfoldable pub wipe : Driver → Text → Text → Handler H ℕ
  wipe driver account issuer = do
    keys ← on_db failed_status (wipe_uploads account issuer)
    delete_objects driver keys
    pure (length keys)

  -- `handleWipeFiles`
  unfoldable pub handle_wipe_files : Server H → Call → Handler H ℕ
  handle_wipe_files srv c = do
    driver ← wired srv.driver
    auth ← wired srv.auth
    require srv.has_store 501
    id ← authenticate auth c.request
    require (not id.anonymous) 403
    wipe driver id.subject id.issuer

  -- `handleQuota`
  unfoldable pub handle_quota : Server H → Call → Handler H QuotaResponse
  handle_quota srv c = do
    auth ← wired srv.auth
    require srv.has_store 501
    id ← authenticate auth c.request
    require (not id.anonymous) 403
    used ← on_db failed_status (usage id.subject id.issuer)
    let limit = limit_of srv.quota id.subject
    pure (record { used = used; limit = limit; unlimited = leb_ℤ limit (pos 0) })

  -- `requireAdmin`
  unfoldable pub require_admin : Server H → Call → Handler H Identity
  require_admin srv c = do
    auth ← wired srv.auth
    require srv.has_store 501
    driver ← wired srv.driver
    id ← authenticate auth c.request
    require (is_admin_method id.method) 403
    require id.admin 403
    pure id

  -- `handleAdminWipeFiles`
  unfoldable pub handle_admin_wipe_files : Server H → Call → Handler H ℕ
  handle_admin_wipe_files srv c = do
    admin ← require_admin srv c
    let account = c.request.query (codes "account")
    require (not (account == [])) 400
    driver ← wired srv.driver
    wipe driver account (c.request.query (codes "issuer"))
