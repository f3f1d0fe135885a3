-- ===== src/Service/Reachable.antt =====
-- What holds of every world that a running depot reaches.
use orbit_depot_prototype.Base.{
  ℕ, ◌≡◌, refl, sym, subst, Bool, true, false, Option, none, some, List, [], ◌∷◌, arith, all, keep,
  map,
}
use orbit_depot_prototype.Base.Exec.{Result, ok, err, is_ok}
use orbit_depot_prototype.Store.{Upload, ListUploadsQuery}
use orbit_depot_prototype.Store.Sqlite.Engine.{Engine, IsOrderBy, all-order}
use orbit_depot_prototype.Store.Sqlite.Listing.{upload_filter, upload_before, page, scan_upload}
use orbit_depot_prototype.Store.Sqlite.Listing.Pages.{sorted_rows, matching, lists, all-page}
use orbit_depot_prototype.Auth.{Authenticator, Identity}
use orbit_depot_prototype.Fs.{Driver, Reader}
use orbit_depot_prototype.Api.{World, Server, Call, authenticate}
use orbit_depot_prototype.Api.Listing.{FileItem, list_query, handle_list_files, items_of, file_item}
use orbit_depot_prototype.Api.Listing.Scope.{items_of_total}
use orbit_depot_prototype.Service.{
  Endpoint, Payload, serve, transferred, Step, request, outside, Reach, here, next,
}
use orbit_depot_prototype.Service.Catalogue.{IsCatalogue, is_servable, all-keep}
use orbit_depot_prototype.Service.Handlers.{
  KeepsRows, handle_quota-Keeping, handle_delete_file-Keeping, handle_wipe_files-Keeping,
  handle_admin_wipe_files-Keeping,
}
use orbit_depot_prototype.Service.Reports.{
  handle_create_key-Keeping, handle_revoke_key-Keeping, handle_list_keys-Keeping,
  handle_list_files-Keeping, handle_admin_list_files-Keeping, handle_admin_metrics-Keeping,
  handle_admin_list_uploaders-Keeping, handle_admin_content_types-Keeping,
}
use orbit_depot_prototype.Service.Uploads.{handle_presign-Keeping, handle_upload-Keeping}

module _ {H : Type 0} (e : Engine) (srv : Server H) (keeps : KeepsRows srv) where
  transferred_rows :
      (d : Option Driver) (c : Call) (body : Reader) (w : World H)
      → (transferred e srv d c body w).db.uploads ≡ w.db.uploads
  transferred_rows none c body w = refl
  transferred_rows (some d) c body w = refl

  serve-IsCatalogue :
      (endpoint : Endpoint) (c : Call) (p : Payload) (w : World H)
      → IsCatalogue w.db.uploads
      → IsCatalogue (serve e srv endpoint c p w).db.uploads
  unfolding serve
  serve-IsCatalogue Endpoint.root c p w i = i
  serve-IsCatalogue Endpoint.health c p w i = i
  serve-IsCatalogue Endpoint.presign c p w i =
      (handle_presign-Keeping srv keeps c p.presign_body).keeps w i
  serve-IsCatalogue Endpoint.upload c p w i = (handle_upload-Keeping srv keeps c p.form).keeps w i
  serve-IsCatalogue Endpoint.create_key c p w i =
      (handle_create_key-Keeping e srv keeps c p.mint p.key_body).keeps w i
  serve-IsCatalogue Endpoint.list_keys c p w i = (handle_list_keys-Keeping e srv keeps c).keeps w i
  serve-IsCatalogue Endpoint.revoke_key c p w i =
      (handle_revoke_key-Keeping e srv keeps c).keeps w i
  serve-IsCatalogue Endpoint.list_files c p w i =
      (handle_list_files-Keeping e srv keeps c).keeps w i
  serve-IsCatalogue Endpoint.wipe_files c p w i = (handle_wipe_files-Keeping srv keeps c).keeps w i
  serve-IsCatalogue Endpoint.delete_file c p w i =
      (handle_delete_file-Keeping srv keeps c).keeps w i
  serve-IsCatalogue Endpoint.admin_list_files c p w i =
      (handle_admin_list_files-Keeping e srv keeps c).keeps w i
  serve-IsCatalogue Endpoint.admin_wipe_files c p w i =
      (handle_admin_wipe_files-Keeping srv keeps c).keeps w i
  serve-IsCatalogue Endpoint.admin_metrics c p w i =
      (handle_admin_metrics-Keeping e srv keeps c).keeps w i
  serve-IsCatalogue Endpoint.admin_list_uploaders c p w i =
      (handle_admin_list_uploaders-Keeping e srv keeps c).keeps w i
  serve-IsCatalogue Endpoint.admin_content_types c p w i =
      (handle_admin_content_types-Keeping e srv keeps c).keeps w i
  serve-IsCatalogue Endpoint.quota c p w i = (handle_quota-Keeping srv keeps c).keeps w i
  serve-IsCatalogue Endpoint.transfer_upload c p w i =
      subst IsCatalogue (sym (transferred_rows srv.driver c p.bytes w)) i
  serve-IsCatalogue Endpoint.transfer_download c p w i = i

  Step-IsCatalogue :
      {v w : World H} → Step e srv v w → IsCatalogue v.db.uploads → IsCatalogue w.db.uploads
  Step-IsCatalogue (request w proxies pattern' endpoint c p known) i =
      serve-IsCatalogue endpoint c p w i
  Step-IsCatalogue (outside w faults disk hits) i = i

  -- From a table with no key twice and only keys that the driver serves, a running depot reaches no
  -- other: whatever requests come on whatever routes and in whatever order, however they end, and
  -- whichever statements and system calls fail on the way. The authenticator does not write the table.
  pub Reach-IsCatalogue :
      {v w : World H} → IsCatalogue v.db.uploads → Reach e srv v w → IsCatalogue w.db.uploads
  Reach-IsCatalogue i here = i
  Reach-IsCatalogue i (next r s) = Step-IsCatalogue s (Reach-IsCatalogue i r)

all-map :
    (p : Upload → Bool) (f : Upload → Upload) (us : List Upload)
    → ((u : Upload) → p (f u) ≡ p u)
    → all p us ≡ true
    → all p (map f us) ≡ true
all-map p f [] same h = refl
all-map p f (u ∷ us) same h = ground (arith, same u, all-map p f us)

scanned : (u : Upload) → is_servable (scan_upload u) ≡ is_servable u
unfolding scan_upload
scanned u = refl

ok_of : {E A : Type 0} (r : Result E A) → is_ok r ≡ true → (a : A) × (r ≡ ok a)
ok_of (ok a) h = (a, refl)
ok_of (err x) h = cc h

module _ {H : Type 0} (e : Engine) (sql : IsOrderBy e) (srv : Server H)
    (keeps : KeepsRows srv) where
  -- A page of a table whose keys are servable.
  page-items :
      (d : Driver) (q : ListUploadsQuery) (rows : List Upload)
      → all is_servable rows ≡ true
      → (items : List FileItem) × (items_of file_item d
            (map scan_upload (page q.limit q.offset (sorted_rows e q rows)))
          ≡ ok items)
  page-items d q rows h =
      let found = keep (upload_filter e q) rows in
      ok_of _ (
        items_of_total file_item d (map scan_upload (page q.limit q.offset (sorted_rows e q rows)))
          (all-map is_servable scan_upload (page q.limit q.offset (sorted_rows e q rows)) scanned (
            all-page is_servable q.limit q.offset (sorted_rows e q rows) (
              all-order e sql (upload_before q) is_servable found
                (all-keep is_servable (upload_filter e q) rows h)))))

  -- In every world that a running depot reaches, an identified caller whose query conforms gets a list
  -- of files, as long as the statements of the listing go through: the listing never fails for a key
  -- that the driver refuses. The database sorts as ORDER BY does.
  pub handle_list_files_answers :
      {v w : World H}
      → IsCatalogue v.db.uploads
      → Reach e srv v w
      → (c : Call) (a : Authenticator) (d : Driver) (id : Identity) (q : ListUploadsQuery)
      → srv.auth ≡ some a
      → srv.driver ≡ some d
      → srv.has_store ≡ true
      → (a c.request w.db).0 ≡ ok id
      → (a c.request w.db).1.faults ≡ []
      → id.anonymous ≡ false
      → list_query c.request.query ≡ ok q
      → (items : List FileItem) × (total : ℕ) × ((handle_list_files e srv c w).0
          ≡ ok (items, total))
  unfolding handle_list_files authenticate
  handle_list_files_answers {v} {w} i r c a d id q has_auth has_driver has_store known go named
        asked =
      let catalogue = Reach-IsCatalogue e srv keeps i r in
      let db = (a c.request w.db).1 in
      let own = record q { account = id.subject; issuer = id.issuer } in
      let same : db.uploads ≡ w.db.uploads = (keeps.at a has_auth).at c.request w.db in
      let (items, made) =
        page-items d own db.uploads
          (subst (λ us. all is_servable us ≡ true) (sym same) catalogue.servable) in
      (
        items,
        matching e own db,
        rw has_auth (
            rw has_store
              (rw has_driver (rw known (rw named (rw asked (rw (lists e own db go) (rw made))))))),
      )
