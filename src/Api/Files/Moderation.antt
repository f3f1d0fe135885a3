-- ===== src/Api/Files/Moderation.antt =====
-- Who may delete what through the API.
use orbit_depot_prototype.Base.{◌≡◌, refl, ◌↔◌, ◌⊎◌, inl, inr, true, false, some, arith}
use orbit_depot_prototype.Base.Exec.{ok, err, is_ok}
use orbit_depot_prototype.Store.Sqlite.Deletion.{others, others-delete_upload}
use orbit_depot_prototype.Auth.{Authenticator, AuthError, Identity, Method}
use orbit_depot_prototype.Auth.Downgrade.{KeepsUploads}
use orbit_depot_prototype.Fs.{Driver}
use orbit_depot_prototype.Api.{World, Server, Call, authenticate}
use orbit_depot_prototype.Api.Files.{
  is_admin_method, handle_delete_file, require_admin, handle_admin_wipe_files,
}

-- Who may administer: an identity with the admin flag, of an OIDC login or of the service key.
abbrev pub IsAdministrator : Identity → Type 0
IsAdministrator id =
    (id.admin ≡ true) × ((id.method ≡ Method.oidc) ⊎ (id.method ≡ Method.service_key))

is_admin_method_iff :
    (m : Method) → (is_admin_method m ≡ true) ↔ ((m ≡ Method.oidc) ⊎ (m ≡ Method.service_key))
is_admin_method_iff Method.anonymous = (λ h. ground arith, λ h. ground arith)
is_admin_method_iff Method.oidc = (λ h. inl refl, λ h. refl)
is_admin_method_iff Method.api_key = (λ h. ground arith, λ h. ground arith)
is_admin_method_iff Method.service_key = (λ h. inr refl, λ h. refl)

module _ {H : Type 0} (srv : Server H) (c : Call) (a : Authenticator) (w : World H) where
  -- Whatever key a caller names who is no admin, and whatever the store and the disk do, the rows
  -- of every other owner are left as they were, in order.
  pub others-handle_delete_file :
      (id : Identity)
      → srv.auth ≡ some a
      → KeepsUploads a
      → (a c.request w.db).0 ≡ ok id
      → id.admin ≡ false
      → others id.subject id.issuer (handle_delete_file srv c w).1.db
        ≡ others id.subject id.issuer w.db
  unfolding handle_delete_file authenticate
  others-handle_delete_file id wired_auth keeps known plain = ground (
    arith,
    keeps.at c.request w.db,
    (others-delete_upload c.request.path_value id.subject id.issuer (a c.request w.db).1).0,
  )

  -- With the seams wired, the admin gate answers 401 where the caller does not authenticate, lets the
  -- resolved identity through if its admin flag is set and its method is an OIDC login or the service
  -- key, and answers 403 if not.
  pub require_admin_exact :
      (d : Driver)
      → srv.auth ≡ some a
      → srv.driver ≡ some d
      → srv.has_store ≡ true
      → ((e : AuthError) → (a c.request w.db).0 ≡ err e → (require_admin srv c w).0 ≡ err 401)
        × ((id : Identity)
            → (a c.request w.db).0 ≡ ok id
            → IsAdministrator id
            → (require_admin srv c w).0 ≡ ok id)
        × ((id : Identity)
            → (a c.request w.db).0 ≡ ok id
            → ¬ (IsAdministrator id)
            → (require_admin srv c w).0 ≡ err 403)
  unfolding require_admin authenticate
  require_admin_exact d has_auth has_driver has_store = (
    λ e h. ground arith,
    λ id h (flag, how). ground (arith, (is_admin_method_iff id.method).1 how),
    λ id h bars.
        let barred : id.admin ≡ true → is_admin_method id.method ≡ true → ⊥ =
          λ flag how. bars (flag, (is_admin_method_iff id.method).0 how) in
        ground (arith, barred),
  )

  -- Without an admin identity, the wipe of a user is refused with 401 or 403, or 501 where a seam is
  -- missing; no file is touched, and no row but for what authentication itself writes.
  pub handle_admin_wipe_files_refuses :
      (id : Identity)
      → srv.auth ≡ some a
      → KeepsUploads a
      → (a c.request w.db).0 ≡ ok id
      → id.admin ≡ false
      → (is_ok (handle_admin_wipe_files srv c w).0 ≡ false)
        × (((handle_admin_wipe_files srv c w).1.db ≡ w.db)
            ⊎ ((handle_admin_wipe_files srv c w).1.db ≡ (a c.request w.db).1))
        × ((handle_admin_wipe_files srv c w).1.db.uploads ≡ w.db.uploads)
        × ((handle_admin_wipe_files srv c w).1.disk ≡ w.disk)
  unfolding handle_admin_wipe_files require_admin authenticate
  handle_admin_wipe_files_refuses id wired_auth keeps known plain =
      (ground arith, ground arith, ground (arith, keeps.at c.request w.db), ground arith)
