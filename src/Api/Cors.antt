-- ===== src/Api/Cors.antt =====
-- internal/api/cors.go: the headers of a cross-origin answer, and the preflight.
use orbit_depot_prototype.Base.{
  ◌≡◌, ◌≢◌, ◌↔◌, refl, ◌⊎◌, Bool, true, false, not, ◌&&◌, ◌||◌, none, some, List, [], ◌∷◌,
  if◌then◌else◌, any, arith,
}
use orbit_depot_prototype.Base.Rows.{Listed}
use orbit_depot_prototype.Base.Text.{Text, codes, ◌==◌, ==_iff, lookup}

-- The headers that are set before the answer, and whether the answer is the preflight's 204; if not,
-- the handler behind it answers.
pub record CorsReply : Type 0 where
  pub headers : List (Text × Text)
  pub is_preflight : Bool

abbrev pub allow_origin : Text
allow_origin = codes "Access-Control-Allow-Origin"

abbrev shared_headers : List (Text × Text)
shared_headers =
    (codes "Access-Control-Allow-Methods", codes "GET, POST, PUT, DELETE, OPTIONS")
    ∷ (codes "Access-Control-Allow-Headers", codes "Authorization, Content-Type")
    ∷ (codes "Access-Control-Max-Age", codes "600")
    ∷ []

abbrev pub allows_all : List Text → Bool
allows_all = any (λ o. o == codes "*")

abbrev pub allows : List Text → Text → Bool
allows origins origin = any (λ o. o == origin) origins

Listed_iff :
    (origin : Text) (origins : List Text)
    → (any (λ o. o == origin) origins ≡ true) ↔ Listed origin origins
Listed_iff origin [] = (λ h. cc h, λ h. absurd h)
Listed_iff origin (o ∷ origins) = ground (arith, ==_iff o origin, Listed_iff origin origins)

abbrev origin_headers : Bool → Text → List (Text × Text)
origin_headers true origin = (allow_origin, codes "*") ∷ shared_headers
origin_headers false origin =
    (allow_origin, origin) ∷ (codes "Vary", codes "Origin") ∷ shared_headers

-- `withCORS`, for the configured origins, a method and the header "Origin" of a request.
unfoldable pub with_cors : List Text → Text → Text → CorsReply
with_cors [] method origin = record { headers = []; is_preflight = false }
with_cors (o ∷ origins) method origin =
    let all_allowed = allows_all (o ∷ origins) in
    record {
      headers =
          if not (origin == []) && (all_allowed || allows (o ∷ origins) origin)
          then origin_headers all_allowed origin
          else [];
      is_preflight = method == codes "OPTIONS" && not (origin == []);
    }

header_of :
    (all_allowed : Bool) (origin : Text)
    → lookup allow_origin (origin_headers all_allowed origin)
      ≡ some (if all_allowed then codes "*" else origin)
unfolding lookup ◌==◌
header_of true origin = refl
header_of false origin = refl

-- A browser is told to let an origin in exactly if the request names an origin, and `*` or, byte for
-- byte, that origin stands in the configuration; it is told `*` if that stands there, and the origin
-- itself if not. A preflight is
-- answered exactly if an origin is configured, the method is OPTIONS and the request names an origin.
pub with_cors_lem :
    (origins : List Text) (method origin granted : Text)
    → ((lookup allow_origin (with_cors origins method origin).headers ≡ some granted) ↔ (
        (origin ≢ [])
        × ((Listed (codes "*") origins × (granted ≡ codes "*"))
            ⊎ (¬ (Listed (codes "*") origins) × Listed origin origins × (granted ≡ origin)))))
      × (((with_cors origins method origin).is_preflight ≡ true)
          ↔ ((origins ≢ []) × (method ≡ codes "OPTIONS") × (origin ≢ [])))
unfolding with_cors
with_cors_lem [] method origin granted =
    ((unfold lookup in ground arith, ground arith), (ground arith, λ h. absurd (h.0 refl)))
with_cors_lem (o ∷ origins) method origin granted = (
  ground (
    arith,
    granted_iff (allows_all (o ∷ origins)) (allows (o ∷ origins) origin),
    Listed_iff (codes "*") (o ∷ origins),
    Listed_iff origin (o ∷ origins),
  ),
  ground (arith, ==_iff method (codes "OPTIONS"), ==_iff origin []),
)
  where
    nothing : lookup {V = Text} allow_origin [] ≡ none
    nothing = unfold lookup in refl

    granted_iff :
        (every named : Bool)
        → (lookup allow_origin
              (if not (origin == []) && (every || named) then origin_headers every origin else [])
            ≡ some granted)
          ↔ ((origin ≢ [])
              × (((every ≡ true) × (granted ≡ codes "*"))
                  ⊎ ((every ≡ false) × (named ≡ true) × (granted ≡ origin))))
    granted_iff every named = ground (arith, ==_iff origin [], header_of every origin, nothing)
