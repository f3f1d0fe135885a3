-- ===== src/Service/Examples.antt =====
-- A running depot: a presign, a failing database, and a listing.
use orbit_depot_prototype.Base.{subst, some-injective, ℕ, ◌≡◌, refl, false, none, some, List, []}
use orbit_depot_prototype.Base.Text.{codes, ◌==◌, lookup}
use orbit_depot_prototype.Base.Exec.{ok}
use orbit_depot_prototype.Store.{ListUploadsQuery}
use orbit_depot_prototype.Store.Sqlite.Engine.Sorting.{sorting, sorting-IsOrderBy}
use orbit_depot_prototype.Auth.Downgrade.{KeepsUploads}
use orbit_depot_prototype.Api.{World}
use orbit_depot_prototype.Api.Upload.{malformed}
use orbit_depot_prototype.Api.Listing.{FileItem, bounded_int, list_query, handle_list_files}
use orbit_depot_prototype.Api.Samples.{
  ann, signed_in, signed_in-KeepsUploads, local, server, call, world, wanted,
}
use orbit_depot_prototype.Service.{
  Endpoint, Payload, routes, serve, Reach, request, outside, here, next,
}
use orbit_depot_prototype.Service.Catalogue.{IsCatalogue}
use orbit_depot_prototype.Service.Handlers.{KeepsRows}
use orbit_depot_prototype.Service.Reachable.{Reach-IsCatalogue, handle_list_files_answers}

abbrev payload : Payload
payload = record {
  presign_body = some wanted;
  form = λ limit. malformed;
  mint = record {
    random = none;
    base64 = λ s. s;
    uuid = [];
    sha256 = λ s. s;
    rfc3339 = λ s. none;
    date = λ s. none;
  };
  key_body = none;
  bytes = record { bytes = []; broken = false };
}

server-KeepsRows : KeepsRows server
server-KeepsRows = record {
  at = λ a h. subst (λ x. KeepsUploads x) (some-injective h) signed_in-KeepsUploads;
}

abbrev presigned : World Unit
presigned = serve sorting server Endpoint.presign call payload world

-- The same tables, once the database answers again.
abbrev settled : World Unit
settled = record {
  db = record {
    uploads = presigned.db.uploads;
    keys = presigned.db.keys;
    faults = [];
    scan = presigned.db.scan;
  };
  disk = presigned.disk;
  hits = tt;
}

settled-Reach : Reach sorting server world settled
unfolding routes lookup ◌==◌
settled-Reach =
    next
      (next here
        (request world false (codes "POST /upload/presign") Endpoint.presign call payload refl))
      (outside presigned [] presigned.disk tt)

empty-IsCatalogue : IsCatalogue world.db.uploads
empty-IsCatalogue = record { apart = tt; servable = refl }

Reach-IsCatalogue_example : IsCatalogue settled.db.uploads
Reach-IsCatalogue_example =
    Reach-IsCatalogue sorting server server-KeepsRows empty-IsCatalogue settled-Reach

abbrev first_page : ListUploadsQuery
first_page = record {
  account = [];
  issuer = [];
  content_type = [];
  search = [];
  sort = [];
  order = [];
  limit = 50;
  offset = 0;
}

handle_list_files_answers_example :
    (items : List FileItem) × (total : ℕ) × ((handle_list_files sorting server call settled).0
      ≡ ok (items, total))
unfolding list_query bounded_int ◌==◌
handle_list_files_answers_example =
    handle_list_files_answers sorting sorting-IsOrderBy server server-KeepsRows empty-IsCatalogue
      settled-Reach call signed_in local ann first_page refl refl refl refl refl refl refl
