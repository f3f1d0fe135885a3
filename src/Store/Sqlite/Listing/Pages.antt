-- ===== src/Store/Sqlite/Listing/Pages.antt =====
-- `ListUploads`: the pages of the matching rows, and their total.
use orbit_depot_prototype.Base.{
  ℕ, ◌≤◌, zero, suc, ◌+◌, ◌-◌, ◌≡◌, refl, sym, ap, ◌∙◌, Bool, true, ◌||◌, List, [], ◌∷◌, ◌++◌, map,
  arith, if◌then◌else◌, length, keep, take, drop, all, leb,
}
use orbit_depot_prototype.Base.Exec.{ok, result-injective}
use orbit_depot_prototype.Store.{Upload, ListUploadsQuery}
use orbit_depot_prototype.Store.Sqlite.{Db, statement}
use orbit_depot_prototype.Store.Sqlite.Engine.{
  Engine, IsOrderBy, Ordered, length-order, all-order-keep, statement-ok,
}
use orbit_depot_prototype.Store.Sqlite.Listing.{
  upload_filter, scan_upload, upload_before, page, list_uploads,
}

succ : (a b : ℕ) → suc a + b ≡ suc (a + b)
succ a b = omega arith

module _ {A : Type 0} where
  length-take :
      (n : ℕ) (xs : List A) → length (take n xs) ≡ (if leb n (length xs) then n else length xs)
  length-take zero xs = ground arith
  length-take (suc n) [] = ground arith
  length-take (suc n) (x ∷ xs) = ground (arith, length-take n xs)

  length-drop_lem : (n : ℕ) (xs : List A) → length (drop n xs) ≡ length xs - n
  length-drop_lem zero xs = omega arith
  length-drop_lem (suc n) [] = omega arith
  length-drop_lem (suc n) (x ∷ xs) = omega (arith, length-drop_lem n xs)

  pub length-page :
      (limit offset : ℕ) (xs : List A)
      → length (page limit offset xs)
        ≡ (if leb limit (length xs - offset) then limit else length xs - offset)
  length-page limit offset xs =
      length-take limit (drop offset xs)
      ∙ ap (λ n. if leb limit n then limit else n) (length-drop_lem offset xs)

  all-take : (p : A → Bool) (n : ℕ) (xs : List A) → all p xs ≡ true → all p (take n xs) ≡ true
  all-take p zero xs h = refl
  all-take p (suc n) [] h = refl
  all-take p (suc n) (x ∷ xs) h = ground (arith, all-take p n xs)

  all-drop : (p : A → Bool) (n : ℕ) (xs : List A) → all p xs ≡ true → all p (drop n xs) ≡ true
  all-drop p zero xs h = h
  all-drop p (suc n) [] h = refl
  all-drop p (suc n) (x ∷ xs) h = ground (arith, all-drop p n xs)

  pub all-page :
      (p : A → Bool) (limit offset : ℕ) (xs : List A)
      → all p xs ≡ true
      → all p (page limit offset xs) ≡ true
  all-page p limit offset xs h = all-take p limit (drop offset xs) (all-drop p offset xs h)

  Ordered-take : (le : A → A → Bool) (n : ℕ) (xs : List A) → Ordered le xs → Ordered le (take n xs)
  Ordered-take le zero xs h = tt
  Ordered-take le (suc n) [] h = tt
  Ordered-take le (suc n) (x ∷ xs) (h, hs) = (all-take (le x) n xs h, Ordered-take le n xs hs)

  Ordered-drop : (le : A → A → Bool) (n : ℕ) (xs : List A) → Ordered le xs → Ordered le (drop n xs)
  Ordered-drop le zero xs h = h
  Ordered-drop le (suc n) [] h = tt
  Ordered-drop le (suc n) (x ∷ xs) (h, hs) = Ordered-drop le n xs hs

  Ordered-page :
      (le : A → A → Bool) (limit offset : ℕ) (xs : List A)
      → Ordered le xs
      → Ordered le (page limit offset xs)
  Ordered-page le limit offset xs h =
      Ordered-take le limit (drop offset xs) (Ordered-drop le offset xs h)

  take-plus : (a b : ℕ) (xs : List A) → take (a + b) xs ≡ take a xs ++ take b (drop a xs)
  take-plus zero b xs = ap (λ n. take n xs) (omega arith)
  take-plus (suc a) b [] = ap (λ n. take n []) (succ a b) ∙ sym (take-nil b)
    where
      take-nil : (n : ℕ) → take {A = A} n [] ≡ []
      take-nil zero = refl
      take-nil (suc n) = refl
  take-plus (suc a) b (x ∷ xs) =
      ap (λ n. take n (x ∷ xs)) (succ a b) ∙ ap (λ ys. x ∷ ys) (take-plus a b xs)

  drop-drop : (a o : ℕ) (xs : List A) → drop a (drop o xs) ≡ drop (o + a) xs
  drop-drop a zero xs = ap (λ n. drop n xs) (omega arith)
  drop-drop a (suc o) [] = drop-nil a ∙ ap (λ n. drop n []) (sym (succ o a))
    where
      drop-nil : (n : ℕ) → drop {A = A} n [] ≡ []
      drop-nil zero = refl
      drop-nil (suc n) = refl
  drop-drop a (suc o) (x ∷ xs) = drop-drop a o xs ∙ ap (λ n. drop n (x ∷ xs)) (sym (succ o a))

  length-keep-take :
      (p : A → Bool) (n : ℕ) (xs : List A) → length (keep p (take n xs)) ≤ length (keep p xs)
  length-keep-take p zero xs = omega arith
  length-keep-take p (suc n) [] = omega arith
  length-keep-take p (suc n) (x ∷ xs) = ground (arith, length-keep-take p n xs)

  length-keep-drop :
      (p : A → Bool) (n : ℕ) (xs : List A) → length (keep p (drop n xs)) ≤ length (keep p xs)
  length-keep-drop p zero xs = omega arith
  length-keep-drop p (suc n) [] = omega arith
  length-keep-drop p (suc n) (x ∷ xs) = ground (arith, length-keep-drop p n xs)

  -- A page holds no row more often than the list does.
  length-keep-page :
      (p : A → Bool) (limit offset : ℕ) (xs : List A)
      → length (keep p (page limit offset xs)) ≤ length (keep p xs)
  length-keep-page p limit offset xs =
      omega (arith, length-keep-take p limit (drop offset xs), length-keep-drop p offset xs)

  -- Two pages next to each other are one longer page.
  page-plus :
      (a b offset : ℕ) (xs : List A)
      → page (a + b) offset xs ≡ page a offset xs ++ page b (offset + a) xs
  page-plus a b offset xs =
      take-plus a b (drop offset xs)
      ∙ ap (λ ys. page a offset xs ++ take b ys) (drop-drop a offset xs)

map-append : {A B : Type 0} (f : A → B) (xs ys : List A) → map f (xs ++ ys) ≡ map f xs ++ map f ys
map-append f [] ys = refl
map-append f (x ∷ xs) ys = ap (λ zs. f x ∷ zs) (map-append f xs ys)

before_total :
    (q : ListUploadsQuery) (u v : Upload) → (upload_before q u v || upload_before q v u) ≡ true
before_total q u v = ground arith

before_trans :
    (q : ListUploadsQuery) (u v w : Upload)
    → upload_before q u v ≡ true
    → upload_before q v w ≡ true
    → upload_before q u w ≡ true
before_trans q u v w h k = ground arith

pub length-map : {A B : Type 0} (f : A → B) (xs : List A) → length (map f xs) ≡ length xs
length-map f [] = refl
length-map f (x ∷ xs) = omega (arith, length-map f xs)

module _ (e : Engine) (q : ListUploadsQuery) where
  -- The matching rows in the order of the query.
  abbrev pub sorted_rows : List Upload → List Upload
  sorted_rows rows = e.order (upload_before q) (keep (upload_filter e q) rows)

  abbrev pub matching : Db → ℕ
  matching db = length (keep (upload_filter e q) db.uploads)

  listed_page :
      (db : Db) (found : List Upload × ℕ)
      → (list_uploads e q db).0 ≡ ok found
      → (map scan_upload (page q.limit q.offset (sorted_rows db.uploads)), matching db) ≡ found
  unfolding list_uploads
  listed_page db found h = result-injective (statement-ok _ _ found (statement-ok _ db found h))

  pub lists :
      (db : Db)
      → db.faults ≡ []
      → (list_uploads e q db).0
        ≡ ok (map scan_upload (page q.limit q.offset (sorted_rows db.uploads)), matching db)
  unfolding list_uploads statement
  lists db go = rw go

module _ (e : Engine) (sql : IsOrderBy e) (q : ListUploadsQuery) where
  -- Of a listing that succeeds, the total counts the matching rows; the page has as many rows as the
  -- limit and the rows behind the offset allow; and it is a part of the matching rows, none more often
  -- than it stands in the table, in the order of the query, each with its time in full. The query's ORDER BY sorts and keeps the rows.
  pub list_uploads_lem :
      (db : Db) (us : List Upload) (total : ℕ)
      → (list_uploads e q db).0 ≡ ok (us, total)
      → (total ≡ matching e q db)
        × (length us ≡ (if leb q.limit (total - q.offset) then q.limit else total - q.offset))
        × ((rows : List Upload) × (us ≡ map scan_upload rows)
            × (all (upload_filter e q) rows ≡ true)
            × Ordered (upload_before q) rows
            × ((p : Upload → Bool)
                → length (keep p rows) ≤ length (keep p (keep (upload_filter e q) db.uploads))))
  list_uploads_lem db us total h =
      let found = listed_page e q db (us, total) h in
      let rows = sorted_rows e q db.uploads in
      let counted = sym (ap (λ f. f.1) found) in
      (
        counted,
        sym (ap (λ f. length f.0) found)
            ∙ length-map scan_upload (page q.limit q.offset rows)
            ∙ length-page q.limit q.offset rows
            ∙ ap (λ n. if leb q.limit (n - q.offset) then q.limit else n - q.offset)
                (length-order e sql (upload_before q) (keep (upload_filter e q) db.uploads)
                  ∙ sym counted),
        (
          page q.limit q.offset rows,
          sym (ap (λ f. f.0) found),
          all-page (upload_filter e q) q.limit q.offset rows
              (all-order-keep e sql (upload_before q) (upload_filter e q) db.uploads),
          Ordered-page (upload_before q) q.limit q.offset rows
              (sql.in_order (upload_before q) _ (before_total q) (before_trans q)),
          λ p. ground (
            arith,
            length-keep-page p q.limit q.offset rows,
            sql.same_rows (upload_before q) p (keep (upload_filter e q) db.uploads),
          ),
        ),
      )

module _ (e : Engine) (q : ListUploadsQuery) where
  -- Listing page after page misses no row and repeats none: where no statement fails, two pages next
  -- to each other of one table are what one listing of their joint length gives. The engine orders the
  -- same rows in the same way each time.
  pub list_uploads_pages :
      (a b : ℕ) (db : Db)
      → db.faults ≡ []
      → (us vs : List Upload) (n m : ℕ)
      → (list_uploads e (record q { limit = a }) db).0 ≡ ok (us, n)
      → (list_uploads e (record q { limit = b; offset = q.offset + a }) db).0 ≡ ok (vs, m)
      → (list_uploads e (record q { limit = a + b }) db).0 ≡ ok (us ++ vs, n)
  unfolding upload_filter
  list_uploads_pages a b db go us vs n m h k =
      let first = listed_page e (record q { limit = a }) db (us, n) h in
      let second = listed_page e (record q { limit = b; offset = q.offset + a }) db (vs, m) k in
      let rows = sorted_rows e q db.uploads in
      let joined : map scan_upload (page (a + b) q.offset rows) ≡ us ++ vs =
        ap (map scan_upload) (page-plus a b q.offset rows)
        ∙ map-append scan_upload (page a q.offset rows) (page b (q.offset + a) rows)
        ∙ ap (λ ws. ws ++ map scan_upload (page b (q.offset + a) rows)) (ap (λ f. f.0) first)
        ∙ ap (λ ws. us ++ ws) (ap (λ f. f.0) second) in
      lists e (record q { limit = a + b }) db go
      ∙ ap (λ ws. ok (ws, matching e q db)) joined
      ∙ ap (λ f. ok (us ++ vs, f.1)) first
