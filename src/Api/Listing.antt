-- ===== src/Api/Listing.antt =====
-- internal/api/files.go, and the reports of admin.go and keys.go: the query of a listing, and the
-- endpoints that answer with a list or with a summary.
pub mod Query
pub mod Scope
pub mod Own
mod Examples
use orbit_depot_prototype.Base.{
  ℕ, Bool, true, false, not, ◌&&◌, ◌||◌, Option, none, some, List, [], ◌∷◌, map, if◌then◌else◌,
}
use orbit_depot_prototype.Base.Int.{ℤ, pos, negsuc, ltb_ℤ}
use orbit_depot_prototype.Base.Clock.{Time}
use orbit_depot_prototype.Base.Decimal.{parse_int}
use orbit_depot_prototype.Base.Text.{Text, codes, ◌==◌}
use orbit_depot_prototype.Base.Exec.{Result, ok, err, and_then, pure, fail, ◌>>=◌, ◌>>◌}
use orbit_depot_prototype.Store.{
  StoreError, Upload, ListUploadsQuery, ListUploadersQuery, UploaderUsage, UploadStats, ApiKey,
  valid_sort, valid_order, valid_uploader_sort,
}
use orbit_depot_prototype.Store.Sqlite.Engine.{Engine}
use orbit_depot_prototype.Store.Sqlite.Listing.{
  list_uploads, list_uploaders, stats, content_types, list_keys,
}
use orbit_depot_prototype.Auth.{Identity}
use orbit_depot_prototype.Fs.{Driver, FsError, Url, resolve_download}
use orbit_depot_prototype.Api.{
  Server, Call, Handler, on_db, on_result, wired, require, authenticate,
}
use orbit_depot_prototype.Api.Files.{require_admin}
use orbit_depot_prototype.Api.Keys.{require_oidc}

-- What a query is answered with that does not conform: the texts of the errors are left out.
pub data BadQuery : Type 0 where
  bad_query : BadQuery

abbrev pub within : ℤ → ℤ → Option ℤ → Result BadQuery ℤ
within min max none = err bad_query
within min max (some n) =
    if ltb_ℤ n min
    then err bad_query
    else if ltb_ℤ (pos 0) max && ltb_ℤ max n
    then err bad_query
    else ok n

-- `boundedInt`
unfoldable pub bounded_int : Text → ℤ → ℤ → ℤ → Result BadQuery ℤ
bounded_int q def min max = if q == [] then ok def else within min max (parse_int q)

abbrev pub default_list_limit : ℤ
default_list_limit = pos 50

abbrev pub max_list_limit : ℤ
max_list_limit = pos 200

-- A limit or an offset that has been checked not to be negative.
abbrev pub natural : ℤ → ℕ
natural (pos n) = n
natural (negsuc n) = 0

abbrev pub conforms : Bool → Result BadQuery Unit
conforms true = ok tt
conforms false = err bad_query

-- `listQuery`
unfoldable pub list_query : (Text → Text) → Result BadQuery ListUploadsQuery
list_query v =
    and_then (bounded_int (v (codes "limit")) default_list_limit (pos 1) max_list_limit) λ limit.
      and_then (bounded_int (v (codes "offset")) (pos 0) (pos 0) (pos 0)) λ offset.
        and_then (conforms (v (codes "sort") == [] || valid_sort (v (codes "sort")))) λ sorted.
          and_then (conforms (v (codes "order") == [] || valid_order (v (codes "order"))))
            λ ordered. ok (record {
              account = [];
              issuer = [];
              content_type = [];
              search = v (codes "q");
              sort = v (codes "sort");
              order = v (codes "order");
              limit = natural limit;
              offset = natural offset;
            })

-- `uploadersQuery`
unfoldable pub uploaders_query : (Text → Text) → Result BadQuery ListUploadersQuery
uploaders_query v =
    and_then (bounded_int (v (codes "limit")) default_list_limit (pos 1) max_list_limit) λ limit.
      and_then (bounded_int (v (codes "offset")) (pos 0) (pos 0) (pos 0)) λ offset.
        and_then (conforms (v (codes "sort") == [] || valid_uploader_sort (v (codes "sort"))))
          λ sorted.
            and_then (conforms (v (codes "order") == [] || valid_order (v (codes "order"))))
              λ ordered. ok (record {
                sort = v (codes "sort");
                order = v (codes "order");
                limit = natural limit;
                offset = natural offset;
              })

pub record FileItem : Type 0 where
  pub object_key : Text
  pub url : Url
  pub size : ℤ
  pub content_type : Text
  pub original_filename : Text
  pub uploaded_at : Time

abbrev pub file_item : Upload → Url → FileItem
file_item u url = record {
  object_key = u.object_key;
  url = url;
  size = u.file_size;
  content_type = u.content_type;
  original_filename = u.original_filename;
  uploaded_at = u.uploaded_at;
}

abbrev pub cons_item :
    {A : Type 0}
    → (Url → A)
    → Result FsError Url
    → Result FsError (List A)
    → Result FsError (List A)
cons_item item (err e) rest = err e
cons_item item (ok url) (err e) = err e
cons_item item (ok url) (ok items) = ok (item url ∷ items)

-- `fileItems` and `adminFileItems`: the rows with their URLs, unless the driver refuses one.
unfoldable pub items_of :
    {A : Type 0} → (Upload → Url → A) → Driver → List Upload → Result FsError (List A)
items_of item driver [] = ok []
items_of item driver (u ∷ us) =
    let rest = items_of item driver us in
    cons_item (item u) (resolve_download driver u.object_key) rest

pub record AdminFileItem : Type 0 where
  pub file : FileItem
  pub uploader_account : Text
  pub uploader_issuer : Text

abbrev pub admin_file_item : Upload → Url → AdminFileItem
admin_file_item u url = record {
  file = file_item u url;
  uploader_account = u.uploader_account;
  uploader_issuer = u.uploader_issuer;
}

abbrev pub bad_request : BadQuery → ℕ
bad_request e = 400

abbrev pub could_not_list : StoreError → ℕ
could_not_list e = 500

abbrev pub could_not_resolve : FsError → ℕ
could_not_resolve e = 500

-- The filters that an admin may set.
abbrev pub with_filters : (Text → Text) → ListUploadsQuery → ListUploadsQuery
with_filters v q = record q {
  account = v (codes "account");
  issuer = v (codes "issuer");
  content_type = v (codes "content_type");
}

module _ {H : Type 0} (e : Engine) where
  -- `handleListFiles`
  unfoldable pub handle_list_files : Server H → Call → Handler H (List FileItem × ℕ)
  handle_list_files srv c = do
    auth ← wired srv.auth
    require srv.has_store 501
    driver ← wired srv.driver
    id ← authenticate auth c.request
    require (not id.anonymous) 403
    q ← on_result bad_request (list_query c.request.query)
    found ←
        on_db could_not_list
          (list_uploads e (record q { account = id.subject; issuer = id.issuer }))
    items ← on_result could_not_resolve (items_of file_item driver found.0)
    pure (items, found.1)

  -- `handleAdminListFiles`
  unfoldable pub handle_admin_list_files : Server H → Call → Handler H (List AdminFileItem × ℕ)
  handle_admin_list_files srv c = do
    admin ← require_admin srv c
    q ← on_result bad_request (list_query c.request.query)
    found ← on_db could_not_list (list_uploads e (with_filters c.request.query q))
    driver ← wired srv.driver
    items ← on_result could_not_resolve (items_of admin_file_item driver found.0)
    pure (items, found.1)

  -- `handleAdminMetrics`
  unfoldable pub handle_admin_metrics : Server H → Call → Handler H UploadStats
  handle_admin_metrics srv c = do
    admin ← require_admin srv c
    q ← on_result bad_request (list_query c.request.query)
    on_db could_not_list (stats e (with_filters c.request.query q))

  -- `handleAdminListUploaders`
  unfoldable pub handle_admin_list_uploaders : Server H → Call → Handler H (List UploaderUsage × ℕ)
  handle_admin_list_uploaders srv c = do
    admin ← require_admin srv c
    q ← on_result bad_request (uploaders_query c.request.query)
    on_db could_not_list (list_uploaders e q)

  -- `handleAdminContentTypes`
  unfoldable pub handle_admin_content_types : Server H → Call → Handler H (List Text)
  handle_admin_content_types srv c = do
    admin ← require_admin srv c
    on_db could_not_list (content_types e)

-- A key of the answer: neither the hash nor the raw key.
pub record KeyItem : Type 0 where
  pub id : Text
  pub label : Text
  pub scopes : List Text
  pub expires_at : Option Time
  pub last_used_at : Option Time
  pub created_at : Time

abbrev pub key_item : ApiKey → KeyItem
key_item k = record {
  id = k.id;
  label = k.label;
  scopes = k.scopes;
  expires_at = k.expires_at;
  last_used_at = k.last_used_at;
  created_at = k.created_at;
}

module _ {H : Type 0} (e : Engine) where
  -- `handleListKeys`
  unfoldable pub handle_list_keys : Server H → Call → Handler H (List KeyItem)
  handle_list_keys srv c = do
    id ← require_oidc srv c
    keys ← on_db could_not_list (list_keys e id.subject id.issuer)
    pure (map key_item keys)
