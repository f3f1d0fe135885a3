-- ===== src/Place/Policy.antt =====
-- `build` and `Validate` of internal/place/place.go.
pub mod Routing
use orbit_depot_prototype.Base.{
  ℕ, ◌≤◌, ◌<◌, ◌≡◌, ◌≢◌, refl, sym, ap, subst, ◌∙◌, ◌↔◌, ◌⊎◌, inl, inr, Bool, true, false, not,
  ◌&&◌, ◌||◌, Option, none, some, List, [], ◌∷◌, if◌then◌else◌, arith, Bool-cases, Option-cases,
}
use orbit_depot_prototype.Base.Int.{ℤ, pos, ◌≤ℤ◌, ◌<ℤ◌, eqb_ℤ}
use orbit_depot_prototype.Base.Text.{Text, ◌==◌, ==_iff, ==-refl, lookup, contains}
use orbit_depot_prototype.Base.Exec.{Result, ok, err, result-injective}
use orbit_depot_prototype.Place.{
  PlaceError, no_place_specified, unknown_place, Definition, Place, UploadRequest, Registry,
  or_else, strategy_dump, strategy_account, build, build_all, add_place, is_found, found_place, new,
  resolve, validate,
}
use orbit_depot_prototype.Place.Key.{Surroundings, unique_segment, derive_key}

-- A place that the registry may hold.
pub record IsBuilt (p : Place) : Type 0 where
  pub known_strategy : (p.strategy ≡ strategy_dump) ⊎ (p.strategy ≡ strategy_account)
  pub account_needs_identity : p.strategy ≡ strategy_account → p.require_identity ≡ true

build-known :
    (s : Text)
    → (not (s == strategy_dump) && not (s == strategy_account)) ≡ false
    → (s ≡ strategy_dump) ⊎ (s ≡ strategy_account)
build-known s h = ground (arith, ==_iff s strategy_dump, ==_iff s strategy_account)

pub build-IsBuilt :
    (name : Text) (d : Definition) (g : ℤ) {p : Place} → build name d g ≡ ok p → IsBuilt p
unfolding build
build-IsBuilt name d g {p} h =
    let s = or_else d.strategy strategy_dump in
    elim (Bool-cases (not (s == strategy_dump) && not (s == strategy_account))) [
      | inl bad ↦ cc (rw bad at h)
      | inr good ↦ subst IsBuilt (result-injective (rw good at h)) (record {
        known_strategy = build-known s good;
        account_needs_identity = λ e. ground (arith, ==_iff s strategy_account);
      })
    ]

-- The element of the text among a list of texts, said without the code's own search.
abbrev pub OneOf : Text → List Text → Type 0
OneOf t [] = ⊥
OneOf t (x ∷ xs) = (x ≡ t) ⊎ OneOf t xs

contains_iff : (ts : List Text) (t : Text) → (contains ts t ≡ true) ↔ OneOf t ts
unfolding contains
contains_iff [] t = (λ h. cc, λ h. elim h [ ])
contains_iff (x ∷ xs) t = (
  λ h. ground (arith, ==_iff x t, contains_iff xs t),
  λ h. ground (arith, ==_iff x t, contains_iff xs t),
)

-- What a place promises about the requests that it accepts.
pub record Admits (p : Place) (req : UploadRequest) (anonymous : Bool) : Type 0 where
  pub identity : anonymous ≡ true → p.require_identity ≡ false
  pub size_positive : pos 0 <ℤ req.size
  pub size_bounded : pos 0 <ℤ p.max_size → req.size ≤ℤ p.max_size
  pub mime_listed : (p.allowed_mime ≡ []) ⊎ OneOf req.content_type p.allowed_mime

-- A request is accepted exactly when the caller has the identity that the place wants, the size is
-- positive and within the place's cap (if it has one), and the content type is on the list (if
-- there is one).
pub validate_iff :
    (p : Place) (req : UploadRequest) (anonymous : Bool)
    → (validate p req anonymous ≡ ok tt) ↔ Admits p req anonymous
unfolding validate
validate_iff p req anonymous = (
  λ h. record {
    identity = ground arith;
    size_positive = ground arith;
    size_bounded = ground arith;
    mime_listed = ground (arith, contains_iff p.allowed_mime req.content_type);
  },
  λ h. ground (arith, contains_iff p.allowed_mime req.content_type),
)
