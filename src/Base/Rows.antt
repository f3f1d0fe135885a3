-- ===== src/Base/Rows.antt =====
-- Lists of rows: selection by a Boolean condition, and rows that are pairwise apart.
use orbit_depot_prototype.Base.Tests.{if◌then◌else◌}
use orbit_depot_prototype.Base.Lists.{length, any, keep}
use mathlib.Core.Path.{◌≡◌, refl}
use mathlib.Core.Bool.{Bool, false, not, ◌&&◌}
use mathlib.Core.Logic.{◌⊎◌}
use mathlib.Core.Option.{Option, none, some}
use mathlib.Core.List.{List, [], ◌∷◌, ◌++◌, map}
use native.Mathlib.Omega.{arith}

-- A value stands in a list.
abbrev pub Listed : {A : Type 0} → A → List A → Type 0
Listed x [] = ⊥
Listed x (y ∷ ys) = (y ≡ x) ⊎ Listed x ys

module _ {ℓ} {A : Type ℓ} where
  -- Selecting by one condition and then by another.
  pub keep-keep : (p q : A → Bool) (xs : List A) → keep p (keep q xs) ≡ keep (λ x. q x && p x) xs
  keep-keep p q [] = refl
  keep-keep p q (x ∷ xs) = ground (arith, keep-keep p q xs)

  pub keep_of_all : (p q : A → Bool) (xs : List A) → ((x : A) → p x ≡ q x) → keep p xs ≡ keep q xs
  keep_of_all p q [] h = refl
  keep_of_all p q (x ∷ xs) h = ground (arith, h x, keep_of_all p q xs h)

  pub keep_none : (p : A → Bool) (xs : List A) → ((x : A) → p x ≡ false) → keep p xs ≡ []
  keep_none p [] h = refl
  keep_none p (x ∷ xs) h = ground (arith, h x, keep_none p xs h)

  -- Removing what a condition selects leaves alone what excludes it.
  pub keep-keep-not :
      (p q : A → Bool) (xs : List A)
      → ((x : A) → (p x && q x) ≡ false)
      → keep p (keep (λ x. not (q x)) xs) ≡ keep p xs
  keep-keep-not p q [] h = refl
  keep-keep-not p q (x ∷ xs) h = ground (arith, h x, keep-keep-not p q xs h)

  -- Where no row is selected, nothing is removed.
  pub keep-not_of_none :
      (p : A → Bool) (xs : List A) → length (keep p xs) ≡ 0 → keep (λ x. not (p x)) xs ≡ xs
  keep-not_of_none p [] h = refl
  keep-not_of_none p (x ∷ xs) h = ground (arith, keep-not_of_none p xs)

  pub keep-append : (p : A → Bool) (xs ys : List A) → keep p (xs ++ ys) ≡ keep p xs ++ keep p ys
  keep-append p [] ys = refl
  keep-append p (x ∷ xs) ys = ground (arith, keep-append p xs ys)

  pub any-keep : (p q : A → Bool) (xs : List A) → any p xs ≡ false → any p (keep q xs) ≡ false
  any-keep p q [] h = refl
  any-keep p q (x ∷ xs) h = ground (arith, any-keep p q xs)

  -- The first row that a condition selects.
  abbrev pub find : (A → Bool) → List A → Option A
  find p [] = none
  find p (x ∷ xs) = let rest = find p xs in if p x then some x else rest

  pub find-none : (p : A → Bool) (xs : List A) → any p xs ≡ false → find p xs ≡ none
  find-none p [] h = refl
  find-none p (x ∷ xs) h = ground (arith, find-none p xs)

module _ {ℓ} {A : Type ℓ} (same : A → A → Bool) where
  -- No row clashes with a later one, as under a primary key.
  abbrev pub Apart : List A → Type 0
  Apart [] = Unit
  Apart (x ∷ xs) = (any (same x) xs ≡ false) × Apart xs

  pub Apart-keep : (p : A → Bool) (xs : List A) → Apart xs → Apart (keep p xs)
  Apart-keep p [] h = tt
  Apart-keep p (x ∷ xs) (h, hs) = ground (arith, any-keep (same x) p xs h, Apart-keep p xs hs)

  pub Apart-append :
      ((x y : A) → same x y ≡ same y x)
      → (xs : List A) (y : A) → Apart xs
      → any (same y) xs ≡ false
      → Apart (xs ++ (y ∷ []))
  Apart-append comm [] y h k = (refl, tt)
  Apart-append comm (x ∷ xs) y (h, hs) k = (last xs h, Apart-append comm xs y hs (ground arith))
    where
      last : (zs : List A) → any (same x) zs ≡ false → any (same x) (zs ++ (y ∷ [])) ≡ false
      last [] e = ground (arith, comm x y)
      last (z ∷ zs) e = ground (arith, last zs)

  pub Apart-map :
      (f : A → A)
      → ((x y : A) → same (f x) (f y) ≡ same x y)
      → (xs : List A) → Apart xs
      → Apart (map f xs)
  Apart-map f h [] k = tt
  Apart-map f h (x ∷ xs) (k, ks) = (spread xs k, Apart-map f h xs ks)
    where
      spread : (zs : List A) → any (same x) zs ≡ false → any (same (f x)) (map f zs) ≡ false
      spread [] e = refl
      spread (z ∷ zs) e = ground (arith, h x z, spread zs)
