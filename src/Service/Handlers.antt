-- ===== src/Service/Handlers.antt =====
-- What every handler upholds of the table of uploads.
use orbit_depot_prototype.Base.{
  if◌then◌else◌, ℕ, ◌≡◌, sym, subst, Bool, true, false, not, Option, some, List, [], ◌∷◌,
}
use orbit_depot_prototype.Base.Text.{Text, codes, ◌==◌}
use orbit_depot_prototype.Store.{Upload}
use orbit_depot_prototype.Store.Sqlite.{delete_upload, delete_upload_any, wipe_uploads, usage}
use orbit_depot_prototype.Auth.{Authenticator}
use orbit_depot_prototype.Auth.Downgrade.{KeepsUploads}
use orbit_depot_prototype.Fs.{Driver, delete_object}
use orbit_depot_prototype.Api.{World, Handler, Server, Call, wired, given, require, authenticate}
use orbit_depot_prototype.Api.Frames.{
  require-Keeps, wired-Keeps, given-Keeps, authenticate-Keeps, wired-ok,
}
use orbit_depot_prototype.Api.Upholding.{
  Upholds, Any, then-Upholds, kept-Upholds, db-Upholds, attempt-Upholds, pure-Upholds,
}
use orbit_depot_prototype.Api.Files.{
  delete_objects, wipe, handle_delete_file, handle_wipe_files, handle_quota, is_admin_method,
  require_admin, handle_admin_wipe_files,
}
use orbit_depot_prototype.Service.Catalogue.{
  IsCatalogue, Safe, delete_upload-Safe, delete_upload_any-Safe, wipe_uploads-Safe, usage-Safe,
}

-- The authenticator of the server does not write the table of uploads.
pub record KeepsRows {H : Type 0} (srv : Server H) : Type 0 where
  pub at : (a : Authenticator) → srv.auth ≡ some a → KeepsUploads a

-- The handler upholds the invariant of the table.
abbrev pub Keeping : {H A : Type 0} → Handler H A → Type 0
Keeping {H} {A} m = Upholds {H = H} IsCatalogue {A = A} Any m

one_deleted :
    (admin : Bool) (key account issuer : Text)
    → Safe (if admin then delete_upload_any key else delete_upload key account issuer)
one_deleted true key account issuer = delete_upload_any-Safe key
one_deleted false key account issuer = delete_upload-Safe key account issuer

module _ {H : Type 0} where
  abbrev table : World H → List Upload
  table w = w.db.uploads

  pub required : (t : Bool) (status : ℕ) → Keeping {H = H} (require t status)
  required t status = kept-Upholds IsCatalogue (require-Keeps table t status)

  pub wired_any : {A : Type 0} (o : Option A) → Keeping {H = H} (wired o)
  wired_any o = kept-Upholds IsCatalogue (wired-Keeps table o)

  pub given_any : {A : Type 0} (o : Option A) → Keeping {H = H} (given o)
  given_any o = kept-Upholds IsCatalogue (given-Keeps table o)

  pub deleted_all : (d : Driver) (keys : List Text) → Keeping {H = H} (delete_objects d keys)
  deleted_all d [] = pure-Upholds IsCatalogue tt
  deleted_all d (k ∷ keys) =
      then-Upholds IsCatalogue (attempt-Upholds IsCatalogue (delete_object d k))
        λ u _. deleted_all d keys

  wiped : (d : Driver) (account issuer : Text) → Keeping {H = H} (wipe d account issuer)
  unfolding wipe
  wiped d account issuer =
      then-Upholds IsCatalogue
        (db-Upholds IsCatalogue _ (wipe_uploads account issuer) (wipe_uploads-Safe account issuer))
        λ keys _. then-Upholds IsCatalogue (deleted_all d keys) λ u _. pure-Upholds IsCatalogue _

  module _ (srv : Server H) (keeps : KeepsRows srv) where
    pub wired_auth : Upholds {H = H} IsCatalogue (λ a. srv.auth ≡ some a) (wired srv.auth)
    wired_auth = record {
      keeps = λ w i. subst IsCatalogue (sym ((wired-Keeps table srv.auth).at w)) i;
      gives = λ w a h. wired-ok srv.auth w a h;
    }

    pub known :
        (c : Call) (a : Authenticator)
        → srv.auth ≡ some a
        → Keeping {H = H} (authenticate a c.request)
    known c a has = kept-Upholds IsCatalogue (authenticate-Keeps a c.request (keeps.at a has))

    pub handle_quota-Keeping : (c : Call) → Keeping (handle_quota srv c)
    unfolding handle_quota
    handle_quota-Keeping c = then-Upholds IsCatalogue wired_auth λ a has.
        then-Upholds IsCatalogue (required srv.has_store 501) λ u _.
          then-Upholds IsCatalogue (known c a has) λ id _.
            then-Upholds IsCatalogue (required (not id.anonymous) 403) λ v _.
              then-Upholds IsCatalogue
                (db-Upholds IsCatalogue _ (usage id.subject id.issuer)
                  (usage-Safe id.subject id.issuer))
                λ used _. pure-Upholds IsCatalogue _

    pub handle_delete_file-Keeping : (c : Call) → Keeping (handle_delete_file srv c)
    unfolding handle_delete_file
    handle_delete_file-Keeping c = then-Upholds IsCatalogue (wired_any srv.driver) λ d _.
        then-Upholds IsCatalogue wired_auth λ a has.
          then-Upholds IsCatalogue (required srv.has_store 501) λ u _.
            then-Upholds IsCatalogue (known c a has) λ id _.
              then-Upholds IsCatalogue (required (not id.anonymous) 403) λ v _.
                then-Upholds IsCatalogue (required (not (c.request.path_value == [])) 400) λ x _.
                  then-Upholds IsCatalogue
                    (db-Upholds IsCatalogue _
                      (if id.admin
                        then delete_upload_any c.request.path_value
                        else delete_upload c.request.path_value id.subject id.issuer)
                      (one_deleted id.admin c.request.path_value id.subject id.issuer))
                    λ y _. attempt-Upholds IsCatalogue (delete_object d c.request.path_value)

    pub handle_wipe_files-Keeping : (c : Call) → Keeping (handle_wipe_files srv c)
    unfolding handle_wipe_files
    handle_wipe_files-Keeping c = then-Upholds IsCatalogue (wired_any srv.driver) λ d _.
        then-Upholds IsCatalogue wired_auth λ a has.
          then-Upholds IsCatalogue (required srv.has_store 501) λ u _.
            then-Upholds IsCatalogue (known c a has) λ id _.
              then-Upholds IsCatalogue (required (not id.anonymous) 403)
                λ v _. wiped d id.subject id.issuer

    pub require_admin-Keeping : (c : Call) → Keeping (require_admin srv c)
    unfolding require_admin
    require_admin-Keeping c = then-Upholds IsCatalogue wired_auth λ a has.
        then-Upholds IsCatalogue (required srv.has_store 501) λ u _.
          then-Upholds IsCatalogue (wired_any srv.driver) λ d _.
            then-Upholds IsCatalogue (known c a has) λ id _.
              then-Upholds IsCatalogue (required (is_admin_method id.method) 403) λ v _.
                then-Upholds IsCatalogue (required id.admin 403) λ x _. pure-Upholds IsCatalogue id

    pub handle_admin_wipe_files-Keeping : (c : Call) → Keeping (handle_admin_wipe_files srv c)
    unfolding handle_admin_wipe_files
    handle_admin_wipe_files-Keeping c = then-Upholds IsCatalogue (require_admin-Keeping c) λ id _.
        then-Upholds IsCatalogue (required (not (c.request.query (codes "account") == [])) 400)
          λ u _.
            then-Upholds IsCatalogue (wired_any srv.driver)
              λ d _. wiped d (c.request.query (codes "account")) (c.request.query (codes "issuer"))
