-- ===== src/Store/Sqlite/Engine.antt =====
-- What the listings ask of SQLite beyond its tables: the LIKE operator and ORDER BY.
pub mod Sorting
use orbit_depot_prototype.Base.{
  ℕ, ◌≡◌, refl, ◌∙◌, Bool, true, false, not, ◌&&◌, ◌||◌, List, [], ◌∷◌, arith, if◌then◌else◌,
  length, keep, all, inl, inr, Bool-cases,
}
use orbit_depot_prototype.Base.Exec.{Result, ok, err, Exec, ◌>>◌}
use orbit_depot_prototype.Store.{StoreError}
use orbit_depot_prototype.Store.Sqlite.{Db, statement, next_fault, later_faults}
use orbit_depot_prototype.Base.Text.{Text}

-- `like pattern value` is SQLite's LIKE without case, and `order le rows` are the rows of a query
-- under an ORDER BY that puts `x` before `y` where `le x y`; it is open how it breaks ties.
pub record Engine : Type 1 where
  pub like : Text → Text → Bool
  pub order : {A : Type 0} → (A → A → Bool) → List A → List A

-- Every row comes before the later ones.
abbrev pub Ordered : {A : Type 0} → (A → A → Bool) → List A → Type 0
Ordered le [] = Unit
Ordered le (x ∷ xs) = (all (le x) xs ≡ true) × Ordered le xs

-- An ORDER BY keeps the rows, each as often as it was, and puts them in order where the comparison
-- is total and transitive.
pub record IsOrderBy (e : Engine) : Type 1 where
  pub same_rows :
      {A : Type 0} (le : A → A → Bool) (p : A → Bool) (rows : List A)
      → length (keep p (e.order le rows)) ≡ length (keep p rows)
  pub in_order :
      {A : Type 0} (le : A → A → Bool) (rows : List A)
      → ((x y : A) → (le x y || le y x) ≡ true)
      → ((x y z : A) → le x y ≡ true → le y z ≡ true → le x z ≡ true)
      → Ordered le (e.order le rows)

length-keep-true : {A : Type 0} (xs : List A) → length (keep (λ x. true) xs) ≡ length xs
length-keep-true [] = refl
length-keep-true (x ∷ xs) = omega (arith, length-keep-true xs)

keep-not-keep :
    {A : Type 0} (p : A → Bool) (rows : List A) → length (keep (λ x. not (p x)) (keep p rows)) ≡ 0
keep-not-keep p [] = refl
keep-not-keep p (x ∷ xs) = ground (arith, keep-not-keep p xs)

all_of_none :
    {A : Type 0} (p : A → Bool) (xs : List A)
    → length (keep (λ x. not (p x)) xs) ≡ 0
    → all p xs ≡ true
all_of_none p [] h = refl
all_of_none p (x ∷ xs) h = ground (arith, all_of_none p xs)

none_of_all :
    {A : Type 0} (p : A → Bool) (xs : List A)
    → all p xs ≡ true
    → length (keep (λ x. not (p x)) xs) ≡ 0
none_of_all p [] h = refl
none_of_all p (x ∷ xs) h = ground (arith, none_of_all p xs)

module _ (e : Engine) (sql : IsOrderBy e) {A : Type 0} (le : A → A → Bool) where
  pub length-order : (rows : List A) → length (e.order le rows) ≡ length rows
  length-order rows = ground (
    arith,
    sql.same_rows le (λ x. true) rows,
    length-keep-true (e.order le rows),
    length-keep-true rows,
  )

  -- What a WHERE clause selects still holds of every row after the ORDER BY.
  pub all-order-keep : (p : A → Bool) (rows : List A) → all p (e.order le (keep p rows)) ≡ true
  all-order-keep p rows =
      all_of_none p (e.order le (keep p rows))
        (ground (arith, sql.same_rows le (λ x. not (p x)) (keep p rows), keep-not-keep p rows))

  pub all-order :
      (p : A → Bool) (rows : List A) → all p rows ≡ true → all p (e.order le rows) ≡ true
  all-order p rows h =
      all_of_none p (e.order le rows)
        (sql.same_rows le (λ x. not (p x)) rows ∙ none_of_all p rows h)

-- A statement that goes through leaves the tables as they are.
pub statement-ok :
    {A : Type 0} (m : Exec StoreError Db A) (db : Db) (a : A)
    → ((statement >> m) db).0 ≡ ok a
    → (m (record db { faults = later_faults db.faults })).0 ≡ ok a
unfolding statement
statement-ok m db a h = elim (Bool-cases (next_fault db.faults)) [
  | inl fails ↦ cc (rw fails at h)
  | inr goes ↦ rw goes at h
]
