-- ===== src/Store/Sqlite/Engine/Sorting.antt =====
-- An engine that runs: ORDER BY as an insertion sort, and LIKE as equality.
use orbit_depot_prototype.Base.{
  ◌≡◌, refl, ◌∙◌, Bool, true, ◌||◌, List, [], ◌∷◌, arith, if◌then◌else◌, length, keep, all,
}
use orbit_depot_prototype.Base.Text.{◌==◌}
use orbit_depot_prototype.Store.Sqlite.Engine.{Engine, Ordered, IsOrderBy}

module _ {A : Type 0} (le : A → A → Bool) where
  abbrev insert : A → List A → List A
  insert x [] = x ∷ []
  insert x (y ∷ ys) = let rest = insert x ys in if le x y then x ∷ (y ∷ ys) else y ∷ rest

  abbrev sort : List A → List A
  sort [] = []
  sort (x ∷ xs) = insert x (sort xs)

  keep-insert :
      (p : A → Bool) (x : A) (ys : List A)
      → length (keep p (insert x ys)) ≡ length (keep p (x ∷ ys))
  keep-insert p x [] = refl
  keep-insert p x (y ∷ ys) = ground (arith, keep-insert p x ys)

  keep-sort : (p : A → Bool) (xs : List A) → length (keep p (sort xs)) ≡ length (keep p xs)
  keep-sort p [] = refl
  keep-sort p (x ∷ xs) = keep-insert p x (sort xs) ∙ ground (arith, keep-sort p xs)

  all-insert :
      (p : A → Bool) (x : A) (ys : List A)
      → p x ≡ true
      → all p ys ≡ true
      → all p (insert x ys) ≡ true
  all-insert p x [] h k = ground arith
  all-insert p x (y ∷ ys) h k = ground (arith, all-insert p x ys)

  module _ (total : (x y : A) → (le x y || le y x) ≡ true)
      (trans : (x y z : A) → le x y ≡ true → le y z ≡ true → le x z ≡ true) where
    all_below :
        (x y : A) (ys : List A) → le x y ≡ true → all (le y) ys ≡ true → all (le x) ys ≡ true
    all_below x y [] h k = refl
    all_below x y (z ∷ ys) h k = ground (arith, trans x y z h, all_below x y ys h)

    Ordered-insert : (x : A) (ys : List A) → Ordered le ys → Ordered le (insert x ys)
    Ordered-insert x [] o = (refl, tt)
    Ordered-insert x (y ∷ ys) (below, o) =
        ground (arith, total x y, all_below x y ys, all-insert (le y) x ys, Ordered-insert x ys o)

    Ordered-sort : (xs : List A) → Ordered le (sort xs)
    Ordered-sort [] = tt
    Ordered-sort (x ∷ xs) = Ordered-insert x (sort xs) (Ordered-sort xs)

abbrev pub sorting : Engine
sorting = record { like = λ pattern' value. pattern' == value; order = λ le rows. sort le rows }

pub sorting-IsOrderBy : IsOrderBy sorting
sorting-IsOrderBy = record {
  same_rows = λ le p rows. keep-sort le p rows;
  in_order = λ le rows total trans. Ordered-sort le total trans rows;
}
