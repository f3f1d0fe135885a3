-- ===== src/Place.antt =====
-- internal/place: the routing layer. A place is a named destination with a policy and a key
-- strategy; the registry resolves a name to a place, and a place validates a request.
pub mod Filename
pub mod Key
pub mod Policy
mod Examples
use orbit_depot_prototype.Base.{
  ℕ, ◌≡◌, Bool, true, false, not, ◌&&◌, ◌||◌, Option, none, some, List, [], ◌∷◌, if◌then◌else◌,
}
use orbit_depot_prototype.Base.Int.{ℤ, pos, ltb_ℤ, leb_ℤ, eqb_ℤ}
use orbit_depot_prototype.Base.Text.{Text, codes, ◌==◌, lookup, contains}
use orbit_depot_prototype.Base.Exec.{Result, ok, err}

-- The error values of the package, and the messages that it builds by `fmt.Errorf`.
pub data PlaceError : Type 0 where
  unknown_place no_place_specified identity_required too_large mime_not_allowed : PlaceError
  invalid_request no_entropy : PlaceError
  unknown_strategy default_not_configured : Text → PlaceError

abbrev pub strategy_dump : Text
strategy_dump = codes "dump"

abbrev pub strategy_account : Text
strategy_account = codes "account"

-- `AllowedMIME` is a list of content types; sizes are `int64`.
pub record Definition : Type 0 where
  pub prefix : Text
  pub strategy : Text
  pub max_size : ℤ
  pub allowed_mime : List Text
  pub require_identity : Bool

pub record Place : Type 0 where
  pub name : Text
  pub prefix : Text
  pub strategy : Text
  pub max_size : ℤ
  pub allowed_mime : List Text
  pub require_identity : Bool

pub record UploadRequest : Type 0 where
  pub filename : Text
  pub size : ℤ
  pub content_type : Text

pub record Registry : Type 0 where
  pub places : List (Text × Place)
  pub default_name : Text

-- `if v == "" { v = other }`
abbrev pub or_else : Text → Text → Text
or_else [] other = other
or_else (c ∷ s) other = c ∷ s

unfoldable pub build : Text → Definition → ℤ → Result PlaceError Place
build name d global_max_size =
    let strategy = or_else d.strategy strategy_dump in
    if not (strategy == strategy_dump) && not (strategy == strategy_account)
    then err (unknown_strategy strategy)
    else ok (record {
      name = name;
      prefix = or_else d.prefix name;
      strategy = strategy;
      max_size = if eqb_ℤ d.max_size (pos 0) then global_max_size else d.max_size;
      allowed_mime = d.allowed_mime;
      require_identity = d.require_identity || strategy == strategy_account;
    })

-- The loop of `New` over the definitions, in the order in which the map is walked.
abbrev pub add_place :
    Text
    → Result PlaceError Place
    → Result PlaceError (List (Text × Place))
    → Result PlaceError (List (Text × Place))
add_place name (err e) rest = err e
add_place name (ok p) (err e) = err e
add_place name (ok p) (ok places) = ok ((name, p) ∷ places)

unfoldable pub build_all : List (Text × Definition) → ℤ → Result PlaceError (List (Text × Place))
build_all [] global_max_size = ok []
build_all ((name, d) ∷ defs) global_max_size =
    let rest = build_all defs global_max_size in add_place name (build name d global_max_size) rest

abbrev pub is_found {ℓ} : {A : Type ℓ} → Option A → Bool
is_found none = false
is_found (some a) = true

abbrev pub with_default :
    Text → Result PlaceError (List (Text × Place)) → Result PlaceError Registry
with_default default_name (err e) = err e
with_default default_name (ok places) =
    if default_name == [] || is_found (lookup default_name places)
    then ok (record { places = places; default_name = default_name })
    else err (default_not_configured default_name)

unfoldable pub new : List (Text × Definition) → Text → ℤ → Result PlaceError Registry
new defs default_name global_max_size = with_default default_name (build_all defs global_max_size)

abbrev found_place : Option Place → Result PlaceError Place
found_place none = err unknown_place
found_place (some p) = ok p

unfoldable pub resolve : Registry → Text → Result PlaceError Place
resolve r name =
    if name == [] && r.default_name == []
    then err no_place_specified
    else found_place (lookup (if name == [] then r.default_name else name) r.places)

abbrev is_nil : List Text → Bool
is_nil [] = true
is_nil (t ∷ ts) = false

unfoldable pub validate : Place → UploadRequest → Bool → Result PlaceError Unit
validate p req anonymous =
    if anonymous && p.require_identity
    then err identity_required
    else if leb_ℤ req.size (pos 0)
    then err invalid_request
    else if ltb_ℤ (pos 0) p.max_size && ltb_ℤ p.max_size req.size
    then err too_large
    else if not (is_nil p.allowed_mime) && not (contains p.allowed_mime req.content_type)
    then err mime_not_allowed
    else ok tt
