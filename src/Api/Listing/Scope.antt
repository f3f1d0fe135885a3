-- ===== src/Api/Listing/Scope.antt =====
-- Who is shown what by the listing endpoints.
use orbit_depot_prototype.Base.{
  suc, ◌≡◌, refl, ◌⊎◌, subst, Bool, true, false, some, List, [], ◌∷◌, arith, length, all,
}
use orbit_depot_prototype.Base.Exec.{Result, ok, err, is_ok, result-injective}
use orbit_depot_prototype.Store.{Upload}
use orbit_depot_prototype.Store.Sqlite.{Db}
use orbit_depot_prototype.Store.Sqlite.Engine.{Engine}
use orbit_depot_prototype.Auth.{Authenticator, Identity}
use orbit_depot_prototype.Auth.Downgrade.{KeepsUploads}
use orbit_depot_prototype.Fs.{Driver, FsError, Url, validate_key, resolve_download}
use orbit_depot_prototype.Api.{World, Server, Call, Handler, authenticate}
use orbit_depot_prototype.Api.Files.{require_admin, handle_admin_wipe_files}
use orbit_depot_prototype.Api.Files.Moderation.{handle_admin_wipe_files_refuses}
use orbit_depot_prototype.Api.Listing.{
  cons_item, items_of, handle_admin_list_files, handle_admin_metrics, handle_admin_list_uploaders,
  handle_admin_content_types,
}

-- Each item shows its row, under the URL that the driver resolves for the key.
abbrev pub Shows : {A : Type 0} → (Upload → Url → A) → Driver → List Upload → List A → Type 0
Shows item driver [] [] = Unit
Shows item driver [] (i ∷ items) = ⊥
Shows item driver (u ∷ us) [] = ⊥
Shows item driver (u ∷ us) (i ∷ items) =
    ((url : Url) × (resolve_download driver u.object_key ≡ ok url) × (i ≡ item u url))
    × Shows item driver us items

cons_item-ok :
    {A : Type 0} (item : Url → A) (r : Result FsError Url) (rest : Result FsError (List A))
    (items : List A)
    → cons_item item r rest ≡ ok items
    → (url : Url) × (more : List A) × (r ≡ ok url) × (rest ≡ ok more) × (item url ∷ more ≡ items)
cons_item-ok item (err e) rest items h = cc h
cons_item-ok item (ok url) (err e) items h = cc h
cons_item-ok item (ok url) (ok more) items h = (url, more, refl, refl, result-injective h)

pub items_of-Shows :
    {A : Type 0} (item : Upload → Url → A) (driver : Driver) (us : List Upload) (items : List A)
    → items_of item driver us ≡ ok items
    → Shows item driver us items × (length items ≡ length us)
unfolding items_of
items_of-Shows item driver [] items h =
    subst (λ x. Shows item driver [] x × (length x ≡ 0)) (result-injective h) (tt, refl)
items_of-Shows item driver (u ∷ us) items h =
    let (url, more, resolved, rest, both) =
      cons_item-ok (item u) (resolve_download driver u.object_key) _ items h in
    let (shown, counted) = items_of-Shows item driver us more rest in
    subst (λ x. Shows item driver (u ∷ us) x × (length x ≡ suc (length us))) both
      (((url, resolved, refl), shown), omega (arith, counted))

-- Where every key is one that the driver accepts, no listing fails for a URL.
abbrev pub resolves : Driver → Upload → Bool
resolves driver u = is_ok (validate_key u.object_key)

pub items_of_total :
    {A : Type 0} (item : Upload → Url → A) (driver : Driver) (us : List Upload)
    → all (resolves driver) us ≡ true
    → is_ok (items_of item driver us) ≡ true
unfolding items_of resolve_download
items_of_total item driver [] h = refl
items_of_total item driver (u ∷ us) h = ground (arith, items_of_total item driver us)

-- The handler fails, leaves the database as it was or as it is given here, and leaves the uploads
-- and the files as they were.
abbrev pub Refused : {H A : Type 0} → Db → Handler H A → World H → Type 0
Refused left m w =
    (is_ok (m w).0 ≡ false)
    × (((m w).1.db ≡ w.db) ⊎ ((m w).1.db ≡ left))
    × ((m w).1.db.uploads ≡ w.db.uploads)
    × ((m w).1.disk ≡ w.disk)

module _ {H : Type 0} (e : Engine) (srv : Server H) (c : Call) (a : Authenticator)
    (w : World H) where
  -- Every admin endpoint is refused to an identity that is not admin: the listing, the metrics, the
  -- uploaders, the content types and the wipe of a user fail, leave the database exactly as it
  -- was or as the authentication of the caller left it (which may have recorded the use of an API key), and leave
  -- the table of uploads and the files as they were. The authenticator does not write the table of
  -- uploads.
  pub admin_endpoints_refuse :
      (id : Identity)
      → srv.auth ≡ some a
      → KeepsUploads a
      → (a c.request w.db).0 ≡ ok id
      → id.admin ≡ false
      → Refused (a c.request w.db).1 (handle_admin_list_files e srv c) w
        × Refused (a c.request w.db).1 (handle_admin_metrics e srv c) w
        × Refused (a c.request w.db).1 (handle_admin_list_uploaders e srv c) w
        × Refused (a c.request w.db).1 (handle_admin_content_types e srv c) w
        × Refused (a c.request w.db).1 (handle_admin_wipe_files srv c) w
  unfolding handle_admin_list_files handle_admin_metrics handle_admin_list_uploaders
      handle_admin_content_types require_admin authenticate
  admin_endpoints_refuse id has_auth keeps known plain = (
    (ground arith, ground arith, ground (arith, keeps.at c.request w.db), ground arith),
    (ground arith, ground arith, ground (arith, keeps.at c.request w.db), ground arith),
    (ground arith, ground arith, ground (arith, keeps.at c.request w.db), ground arith),
    (ground arith, ground arith, ground (arith, keeps.at c.request w.db), ground arith),
    handle_admin_wipe_files_refuses srv c a w id has_auth keeps known plain,
  )
