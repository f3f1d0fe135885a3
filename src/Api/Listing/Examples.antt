-- ===== src/Api/Listing/Examples.antt =====
-- Runs of the listing endpoints.
use orbit_depot_prototype.Base.{◌≡◌, refl, false, [], ◌∷◌}
use orbit_depot_prototype.Base.Int.{pos}
use orbit_depot_prototype.Base.Text.{codes, ◌==◌, has_prefix}
use orbit_depot_prototype.Base.Clock.{from_unix}
use orbit_depot_prototype.Base.Paths.{clean, join_path, split_slash}
use orbit_depot_prototype.Store.{Upload, ListUploadsQuery}
use orbit_depot_prototype.Store.Sqlite.{statement}
use orbit_depot_prototype.Store.Sqlite.Engine.Sorting.{sorting, sorting-IsOrderBy}
use orbit_depot_prototype.Store.Sqlite.Listing.{list_uploads, upload_filter, scan_upload}
use orbit_depot_prototype.Fs.{validate_key, resolve_download}
use orbit_depot_prototype.Api.{World, authenticate}
use orbit_depot_prototype.Api.Files.{handle_admin_wipe_files}
use orbit_depot_prototype.Api.Listing.{
  FileItem, bounded_int, list_query, items_of, handle_list_files, handle_admin_list_files,
  handle_admin_metrics, handle_admin_list_uploaders, handle_admin_content_types,
}
use orbit_depot_prototype.Api.Listing.Scope.{Refused, admin_endpoints_refuse}
use orbit_depot_prototype.Api.Listing.Own.{OwnPage, handle_list_files_lem}
use orbit_depot_prototype.Api.Samples.{
  ann, signed_in, signed_in-KeepsUploads, local, server, call, world,
}

admin_endpoints_refuse_example :
    Refused (signed_in call.request world.db).1 (handle_admin_list_files sorting server call) world
    × Refused (signed_in call.request world.db).1 (handle_admin_metrics sorting server call) world
    × Refused
        (signed_in call.request world.db).1
        (handle_admin_list_uploaders sorting server call)
        world
    × Refused
        (signed_in call.request world.db).1
        (handle_admin_content_types sorting server call)
        world
    × Refused (signed_in call.request world.db).1 (handle_admin_wipe_files server call) world
admin_endpoints_refuse_example =
    admin_endpoints_refuse sorting server call signed_in world ann refl signed_in-KeepsUploads refl
      refl

abbrev row : Upload
row = record {
  object_key = codes "k";
  uploader_account = codes "ann";
  uploader_issuer = codes "i";
  file_size = pos 7;
  content_type = codes "t";
  original_filename = codes "f";
  uploaded_at = pos 0;
}

-- A row of the caller and a row of another.
abbrev shared : World Unit
shared = record world {
  db = record {
    uploads = row ∷ record row { object_key = codes "l"; uploader_account = codes "bob" } ∷ [];
    keys = [];
    faults = [];
    scan = λ rows. rows;
  };
}

abbrev item : FileItem
item = record {
  object_key = codes "k";
  url = record { host = codes "h"; path = codes "/transfer/k"; params = [] };
  size = pos 7;
  content_type = codes "t";
  original_filename = codes "f";
  uploaded_at = pos 0;
}

abbrev first_page : ListUploadsQuery
first_page = record {
  account = [];
  issuer = [];
  content_type = [];
  search = [];
  sort = [];
  order = [];
  limit = 50;
  offset = 0;
}

handle_list_files_lem_example :
    (ann.anonymous ≡ false)
    × OwnPage sorting local ann first_page.search shared.db.uploads (item ∷ []) 1
unfolding handle_list_files authenticate list_query bounded_int list_uploads upload_filter
    scan_upload from_unix statement items_of resolve_download validate_key join_path clean
    split_slash has_prefix ◌==◌
handle_list_files_lem_example =
    handle_list_files_lem sorting sorting-IsOrderBy server call signed_in local shared ann
      first_page (item ∷ []) 1 refl refl signed_in-KeepsUploads refl (λ e. cc e) (λ e. cc e) refl
      refl
