-- ===== src/Service/Reports.antt =====
-- What the reports and the endpoints of the API keys uphold of the table of uploads.
use orbit_depot_prototype.Base.{ℕ, not, Option, none, some, []}
use orbit_depot_prototype.Base.Text.{Text, ◌==◌}
use orbit_depot_prototype.Base.Exec.{Result}
use orbit_depot_prototype.Store.Sqlite.{create_key, revoke_key}
use orbit_depot_prototype.Store.Sqlite.Engine.{Engine}
use orbit_depot_prototype.Store.Sqlite.Listing.{
  list_uploads, list_uploaders, stats, content_types, list_keys,
}
use orbit_depot_prototype.Api.{Server, Call, on_result}
use orbit_depot_prototype.Api.Frames.{on_result-Keeps}
use orbit_depot_prototype.Api.Upholding.{
  then-Upholds, kept-Upholds, db-Upholds, pure-Upholds, fail-Upholds,
}
use orbit_depot_prototype.Service.Catalogue.{IsCatalogue}
use orbit_depot_prototype.Service.Handlers.{
  KeepsRows, Keeping, required, wired_any, given_any, wired_auth, known, require_admin-Keeping,
}
use orbit_depot_prototype.Service.Catalogue.{
  create_key-Safe, revoke_key-Safe, list_uploads-Safe, stats-Safe, list_uploaders-Safe,
  content_types-Safe, list_keys-Safe,
}
use orbit_depot_prototype.Api.Keys.{
  Mint, CreateKeyRequest, is_oidc, require_oidc, generate_api_key, generated, asked_expiry,
  minted_row, handle_create_key, handle_revoke_key,
}
use orbit_depot_prototype.Api.Listing.{
  with_filters, list_query, uploaders_query, items_of, file_item, admin_file_item,
  handle_list_files, handle_admin_list_files, handle_admin_metrics, handle_admin_list_uploaders,
  handle_admin_content_types, handle_list_keys,
}

module _ {H : Type 0} where
  -- A result of a computation that reads nothing of the world.
  computed : {E A : Type 0} (status : E → ℕ) (r : Result E A) → Keeping {H = H} (on_result status r)
  computed status r = kept-Upholds IsCatalogue (on_result-Keeps (λ w. w.db.uploads) status r)

  module _ (e : Engine) (srv : Server H) (keeps : KeepsRows srv) where
    require_oidc-Keeping : (c : Call) → Keeping (require_oidc srv c)
    unfolding require_oidc
    require_oidc-Keeping c = then-Upholds IsCatalogue (wired_auth srv keeps) λ a has.
        then-Upholds IsCatalogue (required srv.has_store 501) λ u _.
          then-Upholds IsCatalogue (known srv keeps c a has) λ id _.
            then-Upholds IsCatalogue (required (is_oidc id.method) 403)
              λ v _. pure-Upholds IsCatalogue id

    generated_any : (raw : Option Text) → Keeping {H = H} (generated raw)
    generated_any none = fail-Upholds IsCatalogue 500
    generated_any (some raw) = pure-Upholds IsCatalogue raw

    pub handle_create_key-Keeping :
        (c : Call) (mint : Mint) (body : Option CreateKeyRequest)
        → Keeping (handle_create_key srv c mint body)
    unfolding handle_create_key
    handle_create_key-Keeping c mint body =
        then-Upholds IsCatalogue (require_oidc-Keeping c) λ id _.
          then-Upholds IsCatalogue (given_any body) λ req _.
            then-Upholds IsCatalogue (required (not (req.label == [])) 400) λ u _.
              then-Upholds IsCatalogue (computed _ (asked_expiry mint c.now req.expires_at))
                λ expires _.
                  then-Upholds IsCatalogue
                    (generated_any (generate_api_key mint.base64 mint.random))
                    λ raw _.
                      then-Upholds IsCatalogue
                        (db-Upholds IsCatalogue _
                          (create_key (minted_row mint id req expires raw c.now))
                          (create_key-Safe (minted_row mint id req expires raw c.now)))
                        λ v _. pure-Upholds IsCatalogue _

    pub handle_revoke_key-Keeping : (c : Call) → Keeping (handle_revoke_key srv c)
    unfolding handle_revoke_key
    handle_revoke_key-Keeping c = then-Upholds IsCatalogue (require_oidc-Keeping c) λ id _.
        then-Upholds IsCatalogue (required (not (c.request.path_value == [])) 400) λ u _.
          db-Upholds IsCatalogue _ (revoke_key c.request.path_value id.subject id.issuer)
            (revoke_key-Safe c.request.path_value id.subject id.issuer)

    pub handle_list_keys-Keeping : (c : Call) → Keeping (handle_list_keys e srv c)
    unfolding handle_list_keys
    handle_list_keys-Keeping c = then-Upholds IsCatalogue (require_oidc-Keeping c) λ id _.
        then-Upholds IsCatalogue
          (db-Upholds IsCatalogue _ (list_keys e id.subject id.issuer)
            (list_keys-Safe e id.subject id.issuer))
          λ keys _. pure-Upholds IsCatalogue _

    pub handle_list_files-Keeping : (c : Call) → Keeping (handle_list_files e srv c)
    unfolding handle_list_files
    handle_list_files-Keeping c = then-Upholds IsCatalogue (wired_auth srv keeps) λ a has.
        then-Upholds IsCatalogue (required srv.has_store 501) λ u _.
          then-Upholds IsCatalogue (wired_any srv.driver) λ d _.
            then-Upholds IsCatalogue (known srv keeps c a has) λ id _.
              then-Upholds IsCatalogue (required (not id.anonymous) 403) λ v _.
                then-Upholds IsCatalogue (computed _ (list_query c.request.query)) λ q _.
                  then-Upholds IsCatalogue
                    (db-Upholds IsCatalogue _
                      (list_uploads e (record q { account = id.subject; issuer = id.issuer }))
                      (list_uploads-Safe e (record q { account = id.subject; issuer = id.issuer })))
                    λ found _.
                      then-Upholds IsCatalogue (computed _ (items_of file_item d found.0))
                        λ items _. pure-Upholds IsCatalogue _

    pub handle_admin_list_files-Keeping : (c : Call) → Keeping (handle_admin_list_files e srv c)
    unfolding handle_admin_list_files
    handle_admin_list_files-Keeping c =
        then-Upholds IsCatalogue (require_admin-Keeping srv keeps c) λ id _.
          then-Upholds IsCatalogue (computed _ (list_query c.request.query)) λ q _.
            then-Upholds IsCatalogue
              (db-Upholds IsCatalogue _ (list_uploads e (with_filters c.request.query q))
                (list_uploads-Safe e (with_filters c.request.query q)))
              λ found _. then-Upholds IsCatalogue (wired_any srv.driver) λ d _.
                then-Upholds IsCatalogue (computed _ (items_of admin_file_item d found.0))
                  λ items _. pure-Upholds IsCatalogue _

    pub handle_admin_metrics-Keeping : (c : Call) → Keeping (handle_admin_metrics e srv c)
    unfolding handle_admin_metrics
    handle_admin_metrics-Keeping c =
        then-Upholds IsCatalogue (require_admin-Keeping srv keeps c) λ id _.
          then-Upholds IsCatalogue (computed _ (list_query c.request.query)) λ q _.
            db-Upholds IsCatalogue _ (stats e (with_filters c.request.query q))
              (stats-Safe e (with_filters c.request.query q))

    pub handle_admin_list_uploaders-Keeping :
        (c : Call) → Keeping (handle_admin_list_uploaders e srv c)
    unfolding handle_admin_list_uploaders
    handle_admin_list_uploaders-Keeping c =
        then-Upholds IsCatalogue (require_admin-Keeping srv keeps c) λ id _.
          then-Upholds IsCatalogue (computed _ (uploaders_query c.request.query))
            λ q _. db-Upholds IsCatalogue _ (list_uploaders e q) (list_uploaders-Safe e q)

    pub handle_admin_content_types-Keeping :
        (c : Call) → Keeping (handle_admin_content_types e srv c)
    unfolding handle_admin_content_types
    handle_admin_content_types-Keeping c =
        then-Upholds IsCatalogue (require_admin-Keeping srv keeps c)
          λ id _. db-Upholds IsCatalogue _ (content_types e) (content_types-Safe e)
