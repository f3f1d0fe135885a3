-- ===== src/Store/Sqlite/Deletion.antt =====
-- `DeleteUpload` and `DeleteUploadAny`.
use orbit_depot_prototype.Base.{
  ℕ, ◌≡◌, refl, ap, subst, ◌∙◌, Bool, true, false, not, ◌&&◌, Option, none, some, List, [], ◌∷◌,
  if◌then◌else◌, arith, any, keep, length,
}
use mathlib.Core.Path.{fun_ext}
use orbit_depot_prototype.Base.Rows.{keep-keep-not, keep-not_of_none, find, find-none, Apart}
use orbit_depot_prototype.Base.Text.{Text, ◌==◌, ==_iff}
use orbit_depot_prototype.Base.Exec.{Result, ok, err}
use orbit_depot_prototype.Store.{StoreError, not_found, Upload}
use orbit_depot_prototype.Store.Sqlite.{
  Db, statement, next_fault, has_key, is_owned_by, delete_where, delete_upload, delete_upload_any,
  not_found_if_zero,
}
use orbit_depot_prototype.Store.Sqlite.Ownership.{same_object, IsConsistent}

-- The row that is stored under an object key.
abbrev pub upload_at : Text → Db → Option Upload
upload_at k db = find (has_key k) db.uploads

-- What a caller may remove of the row under a key, and what is answered.
abbrev pub remaining : (Upload → Bool) → Option Upload → Option Upload
remaining may none = none
remaining may (some u) = if may u then none else some u

abbrev pub answered : (Upload → Bool) → Option Upload → Result StoreError Unit
answered may none = err not_found
answered may (some u) = if may u then ok tt else err not_found

abbrev counted : (Upload → Bool) → Option Upload → ℕ
counted may none = 0
counted may (some u) = if may u then 1 else 0

module _ (k : Text) (may : Upload → Bool) where
  abbrev selected : Upload → Bool
  selected u = has_key k u && may u

  no_other :
      (x : Upload) (xs : List Upload)
      → any (same_object x) xs ≡ false
      → x.object_key ≡ k
      → any (has_key k) xs ≡ false
  no_other x xs h e = rw e at h

  none_selected : (xs : List Upload) → any (has_key k) xs ≡ false → length (keep selected xs) ≡ 0
  none_selected [] h = refl
  none_selected (x ∷ xs) h = ground (arith, none_selected xs)

  count_selected :
      (xs : List Upload)
      → Apart same_object xs
      → length (keep selected xs) ≡ counted may (find (has_key k) xs)
  count_selected [] h = refl
  count_selected (x ∷ xs) (h, hs) =
      ground (arith, count_selected xs hs, ==_iff x.object_key k, no_other x xs h, none_selected xs)

  find_removed :
      (j : Text) (xs : List Upload)
      → Apart same_object xs
      → find (has_key j) (keep (λ u. not (selected u)) xs)
        ≡ (if k == j then remaining may (find (has_key j) xs) else find (has_key j) xs)
  find_removed j [] h = ground arith
  find_removed j (x ∷ xs) (h, hs) = ground (
    arith,
    find_removed j xs hs,
    ==_iff x.object_key k,
    ==_iff x.object_key j,
    ==_iff k j,
    no_other x xs h,
    find-none (has_key k) xs,
    keep-not_of_none selected xs,
    none_selected xs,
  )

  deletes :
      (db : Db)
      → IsConsistent db
      → next_fault db.faults ≡ false
      → ((delete_where selected db).0 ≡ answered may (upload_at k db))
        × ((j : Text)
            → upload_at j (delete_where selected db).1
              ≡ (if k == j then remaining may (upload_at j db) else upload_at j db))
  unfolding delete_where statement
  deletes db h go = (
    ground (
      arith,
      count_selected db.uploads h.objects_apart,
      Option-shape (find (has_key k) db.uploads),
    ),
    λ j. ground (arith, find_removed j db.uploads h.objects_apart),
  )
    where
      Option-shape :
          (o : Option Upload) → not_found_if_zero (some (counted may o)) db ≡ (answered may o, db)
      Option-shape none = refl
      Option-shape (some u) = ground arith

-- With unique keys, and where the driver lets the statement through: an owner's deletion answers
-- success exactly if a row with the object key exists and belongs to the account and issuer, and
-- `ErrNotFound` otherwise; then that row alone is gone, and what is stored under every other key is
-- unchanged. A missing row and a foreign row get the same answer.
pub delete_upload_lem :
    (k account issuer : Text) (db : Db)
    → IsConsistent db
    → next_fault db.faults ≡ false
    → ((delete_upload k account issuer db).0
        ≡ answered (is_owned_by account issuer) (upload_at k db))
      × ((j : Text)
          → upload_at j (delete_upload k account issuer db).1 ≡ (
              if k == j
              then remaining (is_owned_by account issuer) (upload_at j db)
              else upload_at j db))
unfolding delete_upload
delete_upload_lem k account issuer = deletes k (is_owned_by account issuer)

-- The rows of everyone but the owner, in order.
abbrev pub others : Text → Text → Db → List Upload
others account issuer db = keep (λ u. not (is_owned_by account issuer u)) db.uploads

-- Whatever the object key, the state of the table and the faults of the driver, an owner's deletion
-- leaves every row of every other owner as it was, and touches no API key.
pub others-delete_upload :
    (k account issuer : Text) (db : Db)
    → (others account issuer (delete_upload k account issuer db).1 ≡ others account issuer db)
      × ((delete_upload k account issuer db).1.keys ≡ db.keys)
unfolding delete_upload delete_where statement
others-delete_upload k account issuer db = (
  ground (
    arith,
    keep-keep-not (λ u. not (is_owned_by account issuer u))
        (λ u. has_key k u && is_owned_by account issuer u) db.uploads (λ u. ground arith),
  ),
  ground arith,
)

remaining_all : (o : Option Upload) → remaining (λ u. true) o ≡ none
remaining_all none = refl
remaining_all (some u) = refl

abbrev DeletesAny : Text → Db → (Upload → Bool) → Type 0
DeletesAny k db selects =
    ((delete_where selects db).0 ≡ answered (λ u. true) (upload_at k db))
    × ((j : Text)
        → upload_at j (delete_where selects db).1 ≡ (if k == j then none else upload_at j db))

-- With unique keys, and where the driver lets the statement through: the moderation delete removes
-- the row under the object key whoever owns it, answers `ErrNotFound` exactly if there is none, and
-- leaves what is stored under every other key unchanged.
pub delete_upload_any_lem :
    (k : Text) (db : Db)
    → IsConsistent db
    → next_fault db.faults ≡ false
    → ((delete_upload_any k db).0 ≡ answered (λ u. true) (upload_at k db))
      × ((j : Text)
          → upload_at j (delete_upload_any k db).1 ≡ (if k == j then none else upload_at j db))
unfolding delete_upload_any
delete_upload_any_lem k db h go =
    let (answer, rest) = deletes k (λ u. true) db h go in
    subst (DeletesAny k db) (fun_ext (λ u. and_true (has_key k u))) (
      answer,
      λ j. rest j ∙ ap (λ o. if k == j then o else upload_at j db) (remaining_all (upload_at j db)),
    )
  where
    and_true : (b : Bool) → (b && true) ≡ b
    and_true b = ground arith
