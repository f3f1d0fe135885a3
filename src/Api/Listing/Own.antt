-- ===== src/Api/Listing/Own.antt =====
-- The page of an owner's files that the listing endpoint answers with.
use orbit_depot_prototype.Base.{
  ℕ, ◌≤◌, ◌≡◌, ◌≢◌, refl, sym, ap, subst, ◌∙◌, Bool, true, false, not, ◌&&◌, ◌||◌, ◌++◌, some, List,
  [], ◌∷◌, map, arith, if◌then◌else◌, length, keep, all, leb, some-injective,
}
use orbit_depot_prototype.Base.Rows.{keep_of_all}
use orbit_depot_prototype.Base.Text.{Text, ◌==◌, ==_iff}
use orbit_depot_prototype.Base.Exec.{ok, ◌>>=◌, pure, result-injective}
use orbit_depot_prototype.Store.{Upload, ListUploadsQuery}
use orbit_depot_prototype.Store.Sqlite.{Db, is_owned_by}
use orbit_depot_prototype.Store.Sqlite.Engine.{Engine, IsOrderBy}
use orbit_depot_prototype.Store.Sqlite.Listing.{searches, upload_filter, scan_upload, list_uploads}
use orbit_depot_prototype.Store.Sqlite.Listing.Pages.{list_uploads_lem}
use orbit_depot_prototype.Auth.{Authenticator, Identity}
use orbit_depot_prototype.Auth.Downgrade.{KeepsUploads}
use orbit_depot_prototype.Fs.{Driver}
use orbit_depot_prototype.Api.{
  World, Server, Call, Handler, on_db, on_result, wired, require, authenticate,
}
use orbit_depot_prototype.Api.Frames.{
  or_status-ok, stepped, on_result-Keeps, require-Keeps, wired-Keeps, authenticate-Keeps,
  authenticate-ok, on_result-ok, require-ok, wired-ok,
}
use orbit_depot_prototype.Api.Listing.{
  FileItem, file_item, bad_request, could_not_list, could_not_resolve, items_of, list_query,
  handle_list_files,
}
use orbit_depot_prototype.Api.Listing.Query.{list_query_lem}
use orbit_depot_prototype.Api.Listing.Scope.{Shows, items_of-Shows}

-- The caller's own row.
abbrev pub is_own : Identity → Upload → Bool
is_own id u = u.uploader_account == id.subject && u.uploader_issuer == id.issuer

-- The name holds the searched text, by LIKE; an empty search selects every name.
abbrev pub is_selected : Engine → Text → Upload → Bool
is_selected e search u = search == [] || e.like (b'%' ∷ (search ++ (b'%' ∷ []))) u.original_filename

-- What a page of the own files shows: at most 200 items, each of a row of the table, none more often
-- than it stands there, that the owner owns and the search selects, under the URL of its key; and
-- the total counts the owner's rows that the search selects.
pub record OwnPage (e : Engine) (driver : Driver) (id : Identity) (search : Text)
    (uploads : List Upload) (items : List FileItem) (total : ℕ) : Type 0 where
  pub rows : List Upload
  pub owned : all (is_own id) rows ≡ true
  pub from_table :
      (p : Upload → Bool)
      → length (keep p rows)
        ≤ length (keep p (keep (λ u. is_own id u && is_selected e search u) uploads))
  pub shown : Shows file_item driver (map scan_upload rows) items
  pub bounded : length items ≤ 200
  pub counted : total ≡ length (keep (λ u. is_own id u && is_selected e search u) uploads)

own_filter :
    (e : Engine) (id : Identity) (q : ListUploadsQuery) (u : Upload)
    → id.subject ≢ []
    → id.issuer ≢ []
    → q.content_type ≡ []
    → upload_filter e (record q { account = id.subject; issuer = id.issuer }) u
      ≡ (is_owned_by id.subject id.issuer u && searches e q.search u.original_filename)
unfolding upload_filter
own_filter e id q u hs hi hc =
    ground (arith, ==_iff id.subject [], ==_iff id.issuer [], ==_iff q.content_type [])

left_of : (p r : Bool) → (p && r) ≡ true → p ≡ true
left_of p r h = ground arith

all_weaker :
    (p r : Upload → Bool) (us : List Upload)
    → ((u : Upload) → p u ≡ true → r u ≡ true)
    → all p us ≡ true
    → all r us ≡ true
all_weaker p r [] h k = refl
all_weaker p r (u ∷ us) h k = ground (arith, h u, all_weaker p r us h)

at_most :
    (n limit rest : ℕ) {m : ℕ}
    → m ≡ n
    → n ≡ (if leb limit rest then limit else rest)
    → limit ≤ 200
    → m ≤ 200
at_most n limit rest h k l = ground arith

not-true : {b : Bool} → not b ≡ true → b ≡ false
not-true h = ground arith

rewritten :
    {A B C : Type 0} (P : A → B → C → Type 0) {a a' : A} {b b' : B} {c c' : C}
    → a ≡ a'
    → b ≡ b'
    → c ≡ c'
    → P a b c
    → P a' b' c'
rewritten P {a} {a'} {b} {b'} {c} {c'} h k l p =
    subst (λ x. P x b' c') h (subst (λ x. P a x c') k (subst (λ x. P a b x) l p))

own_page :
    (e : Engine) (sql : IsOrderBy e) (driver : Driver) (id : Identity) (q : ListUploadsQuery)
    (db : Db) (us : List Upload) (total : ℕ) (items : List FileItem)
    → id.subject ≢ []
    → id.issuer ≢ []
    → q.limit ≤ 200
    → q.content_type ≡ []
    → (list_uploads e (record q { account = id.subject; issuer = id.issuer }) db).0 ≡ ok (us, total)
    → items_of file_item driver us ≡ ok items
    → OwnPage e driver id q.search db.uploads items total
own_page e sql driver id q db us total items hs hi limit untyped listed made =
    let own = record q { account = id.subject; issuer = id.issuer } in
    let (counted, long, (rows, same, matched, sorted, drawn)) =
      list_uploads_lem e sql own db us total listed in
    let (shown, as_many) = items_of-Shows file_item driver us items made in
    record {
      rows = rows;
      owned =
          all_weaker (upload_filter e own) (is_owned_by id.subject id.issuer) rows
            (λ u h. left_of _ _ (sym (own_filter e id q u hs hi untyped) ∙ h)) matched;
      from_table = λ p.
          subst (λ us. length (keep p rows) ≤ length (keep p us))
            (keep_of_all (upload_filter e own) _ db.uploads
              (λ u. own_filter e id q u hs hi untyped))
            (drawn p);
      shown = subst (λ x. Shows file_item driver x items) same shown;
      bounded = at_most _ _ _ as_many long limit;
      counted =
          counted
          ∙ ap length (
              keep_of_all (upload_filter e own) _ db.uploads
                (λ u. own_filter e id q u hs hi untyped));
    }

module _ {H : Type 0} (e : Engine) (sql : IsOrderBy e) (srv : Server H) (c : Call)
    (a : Authenticator) (d : Driver) (w : World H) where
  abbrev chain : Identity → Driver → ListUploadsQuery → Handler H (List FileItem × ℕ)
  chain id driver q = do
    found ←
        on_db could_not_list
          (list_uploads e (record q { account = id.subject; issuer = id.issuer }))
    items ← on_result could_not_resolve (items_of file_item driver found.0)
    pure (items, found.1)

  own_listing :
      (id : Identity) (q : ListUploadsQuery) (driver : Driver) (v : World H) (items : List FileItem)
      (total : ℕ)
      → id.subject ≢ []
      → id.issuer ≢ []
      → q.limit ≤ 200
      → q.content_type ≡ []
      → (chain id driver q v).0 ≡ ok (items, total)
      → OwnPage e driver id q.search v.db.uploads items total
  own_listing id q driver v items total hs hi limit untyped h =
      let f : World H → Unit {0} = λ x. tt in
      let b : List FileItem × ℕ = (items, total) in
      let own = record q { account = id.subject; issuer = id.issuer } in
      let listing : Handler H (List Upload × ℕ) = on_db could_not_list (list_uploads e own) in
      let s1 = stepped f listing _ v b (record { at = λ x. refl }) h in
      let made : Handler H (List FileItem) =
        on_result could_not_resolve (items_of file_item driver s1.value.0) in
      let s2 = stepped f made _ s1.behind b (record { at = λ x. refl }) s1.rest in
      let both = result-injective s2.rest in
      subst (λ x. OwnPage e driver id q.search v.db.uploads x.0 x.1) both
        (own_page e sql driver id q v.db s1.value.0 s1.value.1 s2.value hs hi limit untyped
          (or_status-ok could_not_list (list_uploads e own v.db).0 s1.value s1.gives)
          (on_result-ok could_not_resolve (items_of file_item driver s1.value.0) s1.behind s2.value
            s2.gives))

  -- An authenticated caller, whose subject and issuer are not empty, who lists files is not anonymous
  -- and sees only the own files: whatever the query asks for, every item shows a row of the table of
  -- uploads, none more often than it stands there, whose account is the caller's subject and whose
  -- issuer is the caller's issuer, and whose name the search selects, under the URL that the driver
  -- resolves for its key; there are at most 200 of them, and the total counts the own rows that the
  -- search selects. The database sorts as ORDER BY does, and the authenticator does not
  -- write the table of uploads.
  pub handle_list_files_lem :
      (id : Identity) (q : ListUploadsQuery) (items : List FileItem) (total : ℕ)
      → srv.auth ≡ some a
      → srv.driver ≡ some d
      → KeepsUploads a
      → (a c.request w.db).0 ≡ ok id
      → id.subject ≢ []
      → id.issuer ≢ []
      → list_query c.request.query ≡ ok q
      → (handle_list_files e srv c w).0 ≡ ok (items, total)
      → (id.anonymous ≡ false) × OwnPage e d id q.search w.db.uploads items total
  unfolding handle_list_files
  handle_list_files_lem id q items total has_auth has_driver keeps known hs hi asked h =
      let f : World H → World H = λ v. v in
      let g : World H → List Upload = λ v. v.db.uploads in
      let b : List FileItem × ℕ = (items, total) in
      let s1 = stepped f (wired srv.auth) _ w b (wired-Keeps f srv.auth) h in
      let s2 =
        stepped f (require srv.has_store 501) _ s1.behind b (require-Keeps f srv.has_store 501)
          s1.rest in
      let s3 = stepped f (wired srv.driver) _ s2.behind b (wired-Keeps f srv.driver) s2.rest in
      let same_auth : s1.value ≡ a =
        some-injective (sym (wired-ok srv.auth w s1.value s1.gives) ∙ has_auth) in
      let same_driver : s3.value ≡ d =
        some-injective (sym (wired-ok srv.driver s2.behind s3.value s3.gives) ∙ has_driver) in
      let still : s3.behind ≡ w = s3.kept ∙ s2.kept ∙ s1.kept in
      let keeps' : KeepsUploads s1.value = subst (λ x. KeepsUploads x) (sym same_auth) keeps in
      let s4 =
        stepped g (authenticate s1.value c.request) _ s3.behind b
          (authenticate-Keeps s1.value c.request keeps') s3.rest in
      let caller : s4.value ≡ id = result-injective (
        sym (authenticate-ok s1.value c.request s3.behind s4.value s4.gives)
        ∙ ap (λ v. (s1.value c.request v.db).0) still
        ∙ ap (λ x. (x c.request w.db).0) same_auth
        ∙ known) in
      let s5 =
        stepped g (require (not s4.value.anonymous) 403) _ s4.behind b
          (require-Keeps g (not s4.value.anonymous) 403) s4.rest in
      let s6 =
        stepped g (on_result bad_request (list_query c.request.query)) _ s5.behind b
          (on_result-Keeps g bad_request (list_query c.request.query)) s5.rest in
      let asked' : s6.value ≡ q = result-injective (
        sym (on_result-ok bad_request (list_query c.request.query) s5.behind s6.value s6.gives)
        ∙ asked) in
      let kept : g s6.behind ≡ g w = s6.kept ∙ s5.kept ∙ s4.kept ∙ ap g still in
      let named : id.anonymous ≡ false =
        ap (λ i. i.anonymous) (sym caller)
        ∙ not-true (require-ok (not s4.value.anonymous) 403 s4.behind s5.value s5.gives) in
      let (low, limit, sorted, ordered, account, issuer, untyped) =
        list_query_lem c.request.query q asked in
      let rest =
        rewritten (λ i x y. (chain i x y s6.behind).0 ≡ ok b) caller same_driver asked' s6.rest in
      (
        named,
        subst (λ us. OwnPage e d id q.search us items total) kept
            (own_listing id q d s6.behind items total hs hi limit untyped rest),
      )
