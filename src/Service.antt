-- ===== src/Service.antt =====
-- The depot as a whole: the routes of internal/api/server.go, and the steps that a running depot takes.
pub mod Catalogue
pub mod Handlers
pub mod Reports
pub mod Uploads
pub mod Reachable
mod Examples
use orbit_depot_prototype.Base.{
  Bool, true, false, Option, none, some, List, [], ◌∷◌, ◌++◌, ◌≡◌, if◌then◌else◌,
}
use orbit_depot_prototype.Base.Int.{ℤ}
use orbit_depot_prototype.Base.Clock.{Time}
use orbit_depot_prototype.Base.Text.{Text, codes, lookup}
use orbit_depot_prototype.Store.Sqlite.Engine.{Engine}
use orbit_depot_prototype.Fs.{Driver, Disk, Reader, upload_handler}
use orbit_depot_prototype.Api.{World, Server, Call}
use orbit_depot_prototype.Api.Upload.{PresignRequest, Form, handle_presign, handle_upload}
use orbit_depot_prototype.Api.Files.{
  handle_delete_file, handle_wipe_files, handle_quota, handle_admin_wipe_files,
}
use orbit_depot_prototype.Api.Keys.{Mint, CreateKeyRequest, handle_create_key, handle_revoke_key}
use orbit_depot_prototype.Api.Listing.{
  handle_list_files, handle_admin_list_files, handle_admin_metrics, handle_admin_list_uploaders,
  handle_admin_content_types, handle_list_keys,
}

pub data Endpoint : Type 0 where
  root health : Endpoint
  presign upload : Endpoint
  create_key list_keys revoke_key : Endpoint
  list_files wipe_files delete_file : Endpoint
  admin_list_files admin_wipe_files admin_metrics admin_list_uploaders admin_content_types :
      Endpoint
  quota : Endpoint
  transfer_upload transfer_download : Endpoint

abbrev transfers : Bool → List (Text × Endpoint)
transfers false = []
transfers true =
    (codes "PUT /transfer/{key...}", transfer_upload)
    ∷ (codes "GET /transfer/{key...}", transfer_download)
    ∷ []

-- `routes`: the patterns of the mux; `proxies` says whether the driver moves the bytes itself.
unfoldable pub routes : Bool → List (Text × Endpoint)
routes proxies =
    (codes "GET /{$}", root)
    ∷ (codes "GET /health", health)
    ∷ (codes "POST /upload/presign", presign)
    ∷ (codes "POST /upload", upload)
    ∷ (codes "POST /keys", create_key)
    ∷ (codes "GET /keys", list_keys)
    ∷ (codes "DELETE /keys/{id}", revoke_key)
    ∷ (codes "GET /files", list_files)
    ∷ (codes "DELETE /files", wipe_files)
    ∷ (codes "DELETE /file/{key...}", delete_file)
    ∷ (codes "GET /admin/files", admin_list_files)
    ∷ (codes "DELETE /admin/files", admin_wipe_files)
    ∷ (codes "GET /admin/metrics", admin_metrics)
    ∷ (codes "GET /admin/users", admin_list_uploaders)
    ∷ (codes "GET /admin/content-types", admin_content_types)
    ∷ (codes "GET /quota", quota)
    ∷ transfers proxies

-- What the decoders make of the body of a request, and what minting reads of its surroundings.
pub record Payload : Type 0 where
  pub presign_body : Option PresignRequest
  pub form : Option ℤ → Form
  pub mint : Mint
  pub key_body : Option CreateKeyRequest
  pub bytes : Reader

module _ {H : Type 0} (e : Engine) (srv : Server H) where
  abbrev transferred : Option Driver → Call → Reader → World H → World H
  transferred none c body w = w
  transferred (some d) c body w = record w {
    disk = (upload_handler d c.request body c.now w.disk).1;
  }

  -- What the handler behind a route makes of the world.
  unfoldable pub serve : Endpoint → Call → Payload → World H → World H
  serve root c p w = w
  serve health c p w = w
  serve presign c p w = (handle_presign srv c p.presign_body w).1
  serve upload c p w = (handle_upload srv c p.form w).1
  serve create_key c p w = (handle_create_key srv c p.mint p.key_body w).1
  serve list_keys c p w = (handle_list_keys e srv c w).1
  serve revoke_key c p w = (handle_revoke_key srv c w).1
  serve list_files c p w = (handle_list_files e srv c w).1
  serve wipe_files c p w = (handle_wipe_files srv c w).1
  serve delete_file c p w = (handle_delete_file srv c w).1
  serve admin_list_files c p w = (handle_admin_list_files e srv c w).1
  serve admin_wipe_files c p w = (handle_admin_wipe_files srv c w).1
  serve admin_metrics c p w = (handle_admin_metrics e srv c w).1
  serve admin_list_uploaders c p w = (handle_admin_list_uploaders e srv c w).1
  serve admin_content_types c p w = (handle_admin_content_types e srv c w).1
  serve quota c p w = (handle_quota srv c w).1
  serve transfer_upload c p w = transferred srv.driver c p.bytes w
  serve transfer_download c p w = w

  -- A step of a running depot: a request that a pattern matches is served to its end, or what stands
  -- around the depot changes: which statements fail, the files on disk, the state of the limiter.
  pub data Step : World H → World H → Type 0 where
    request :
        (w : World H) (proxies : Bool) (pattern' : Text) (endpoint : Endpoint) (c : Call)
        (p : Payload)
        → lookup pattern' (routes proxies) ≡ some endpoint
        → Step w (serve endpoint c p w)
    outside :
        (w : World H) (faults : List Bool) (disk : Disk) (hits : H)
        → Step w (record {
          db = record {
            uploads = w.db.uploads;
            keys = w.db.keys;
            faults = faults;
            scan = w.db.scan;
          };
          disk = disk;
          hits = hits;
        })

  pub data Reach (s : World H) : World H → Type 0 where
    here : Reach s s
    next : {v w : World H} → Reach s v → Step v w → Reach s w
