-- ===== src/Store/Sqlite/Listing/Aggregates.antt =====
-- `ListUploaders`, `ContentTypes`, `Stats` and `ListKeys`.
use orbit_depot_prototype.Base.{
  ◌≤◌, ◌≡◌, refl, sym, ap, subst, ◌∙◌, Bool, true, false, not, ◌&&◌, ◌||◌, Option, none, some, List,
  [], ◌∷◌, map, arith, if◌then◌else◌, length, keep, length-keep, any, all, eqb, ltb, inl, inr,
  Bool-cases,
}
use orbit_depot_prototype.Base.Int.{ℤ, pos, eqb_ℤ}
use orbit_depot_prototype.Base.Text.{Text, ◌==◌, ==_iff, ==-refl}
use orbit_depot_prototype.Base.Exec.{ok, result-injective, Exec, ◌>>=◌}
use orbit_depot_prototype.Store.{
  StoreError, Upload, ListUploadsQuery, UploaderUsage, UploadStats, ApiKey,
}
use orbit_depot_prototype.Store.Sqlite.{Db, is_owned_by, sum_sizes, or_database_error, scan_key}
use orbit_depot_prototype.Store.Sqlite.Engine.{
  Engine, IsOrderBy, Ordered, length-order, all-order-keep, statement-ok,
}
use orbit_depot_prototype.Store.Sqlite.Listing.{
  upload_filter, is_image, stats, distinct, content_types, text_before, owns_key, created_before,
  list_keys,
}
use orbit_depot_prototype.Store.Sqlite.Listing.Pages.{matching, length-map}

abbrev sum_is : Option ℤ → ℤ → Bool
sum_is none bytes = false
sum_is (some total) bytes = eqb_ℤ total bytes

-- The entry counts the rows of its owner, and its bytes are the sum that the usage query takes.
abbrev pub agrees : List Upload → UploaderUsage → Bool
agrees rows g =
    eqb g.files (length (keep (is_owned_by g.account g.issuer) rows))
    && sum_is (sum_sizes (pos 0) (keep (is_owned_by g.account g.issuer) rows)) g.bytes

module _ (t : Text) where
  abbrev is_it : Text → Bool
  is_it s = s == t

  count_any : (ts : List Text) → any is_it ts ≡ ltb 0 (length (keep is_it ts))
  count_any [] = refl
  count_any (s ∷ ts) = ground (arith, count_any ts)

  count_distinct :
      (ts : List Text) → length (keep is_it (distinct ts)) ≡ (if any is_it ts then 1 else 0)
  unfolding distinct
  count_distinct [] = refl
  count_distinct (s ∷ ts) = elim (Bool-cases (s == t)) [
    | inl same ↦
        subst
          (λ x.
            length (
              keep is_it (if any (λ r. r == x) (distinct ts) then distinct ts else x ∷ distinct ts))
            ≡ (if is_it x || any is_it ts then 1 else 0))
          (sym ((==_iff s t).0 same))
          (ground (arith, count_any (distinct ts), count_distinct ts, ==-refl t))
    | inr other ↦ rw other (ground (arith, count_distinct ts))
  ]

  any_types :
      (rows : List Upload)
      → any is_it (keep (λ s. not (s == [])) (map (λ u. u.content_type) rows))
        ≡ (not (t == []) && any (λ u. u.content_type == t) rows)
  any_types [] = ground arith
  any_types (u ∷ rows) = ground (arith, any_types rows, ==_iff u.content_type t)

text_total : (s t : Text) → (text_before s t || text_before t s) ≡ true
unfolding text_before
text_total [] t = refl
text_total (a ∷ s) [] = refl
text_total (a ∷ s) (b ∷ t) = ground (arith, text_total s t)

text_trans :
    (s t r : Text) → text_before s t ≡ true → text_before t r ≡ true → text_before s r ≡ true
unfolding text_before
text_trans [] t r h k = refl
text_trans (a ∷ s) [] r h k = cc h
text_trans (a ∷ s) (b ∷ t) [] h k = cc k
text_trans (a ∷ s) (b ∷ t) (c ∷ r) h k = ground (arith, text_trans s t r)

-- Of a listing of content types that succeeds, every type that is not empty and that some row has
-- stands in it once, no other text stands in it, and it is in the order of the texts.
pub content_types_lem :
    (e : Engine) (sql : IsOrderBy e) (db : Db) (types : List Text)
    → (content_types e db).0 ≡ ok types
    → ((t : Text)
        → length (keep (λ s. s == t) types)
          ≡ (if not (t == []) && any (λ u. u.content_type == t) db.uploads then 1 else 0))
      × Ordered text_before types
unfolding content_types
content_types_lem e sql db types h =
    let kept = keep (λ s. not (s == [])) (map (λ u. u.content_type) db.uploads) in
    let found = result-injective (statement-ok _ db types h) in
    subst
      (λ x.
        ((t : Text)
          → length (keep (λ s. s == t) x)
            ≡ (if not (t == []) && any (λ u. u.content_type == t) db.uploads then 1 else 0))
        × Ordered text_before x)
      found
      (
        λ t.
            sql.same_rows text_before (λ s. s == t) (distinct kept)
            ∙ count_distinct t kept
            ∙ ap (λ b. if b then 1 else 0) (any_types t db.uploads),
        sql.in_order text_before (distinct kept) text_total text_trans,
      )

-- A listing of keys that succeeds holds the keys of the account and issuer, all of them and none of
-- anyone else, with the oldest first.
pub list_keys_lem :
    (e : Engine) (sql : IsOrderBy e) (account issuer : Text) (db : Db) (keys : List ApiKey)
    → (list_keys e account issuer db).0 ≡ ok keys
    → (length keys ≡ length (keep (owns_key account issuer) db.keys))
      × ((rows : List ApiKey) × (keys ≡ map scan_key rows)
          × (all (owns_key account issuer) rows ≡ true)
          × Ordered created_before rows)
unfolding list_keys
list_keys_lem e sql account issuer db keys h =
    let own = keep (owns_key account issuer) db.keys in
    let rows = e.order created_before own in
    let found : map scan_key rows ≡ keys = result-injective (statement-ok _ db keys h) in
    (
      sym (ap length found) ∙ length-map scan_key rows ∙ length-order e sql created_before own,
      (
        rows,
        sym found,
        all-order-keep e sql created_before (owns_key account issuer) db.keys,
        sql.in_order created_before own (λ r s. ground arith) (λ r s t h k. ground arith),
      ),
    )

-- The statistics of a query that succeed count the rows that the listing of the query counts, with
-- the sum of their sizes, and no more images than files.
pub stats_lem :
    (e : Engine) (q : ListUploadsQuery) (db : Db) (s : UploadStats)
    → (stats e q db).0 ≡ ok s
    → (s.total_files ≡ matching e q db)
      × (sum_sizes (pos 0) (keep (upload_filter e q) db.uploads) ≡ some s.total_size)
      × (s.total_images ≤ s.total_files)
unfolding stats
stats_lem e q db s h =
    let rows = keep (upload_filter e q) db.uploads in
    let (size, summed, h1) = summed-ok (sum_sizes (pos 0) rows) _ _ s (statement-ok _ db s h) in
    subst
      (λ x.
        (x.total_files ≡ matching e q db)
        × (sum_sizes (pos 0) rows ≡ some x.total_size)
        × (x.total_images ≤ x.total_files))
      (result-injective h1) (refl, summed, length-keep (is_image e) rows)
  where
    summed-ok :
        {B : Type 0} (o : Option ℤ) (f : ℤ → Exec StoreError Db B) (db : Db) (b : B)
        → ((or_database_error o >>= f) db).0 ≡ ok b
        → (n : ℤ) × (o ≡ some n) × ((f n db).0 ≡ ok b)
    summed-ok none f db b h = cc h
    summed-ok (some n) f db b h = (n, refl, h)
