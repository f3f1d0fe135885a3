-- ===== src/Main/Start/Places.antt =====
-- `buildPlaces` of cmd/depot/main.go: the places of a configuration.
use orbit_depot_prototype.Base.{
  ◌≡◌, ◌≢◌, refl, sym, ap, subst, ◌∙◌, inl, inr, not, ◌&&◌, ◌||◌, none, some, List, [], ◌∷◌,
  if◌then◌else◌, arith, Bool-cases, some-injective,
}
use orbit_depot_prototype.Base.Int.{ℤ, pos, eqb_ℤ}
use orbit_depot_prototype.Base.Text.{Text, codes, ◌==◌, ==_iff, lookup}
use orbit_depot_prototype.Base.Exec.{Result, ok, err, result-injective}
use orbit_depot_prototype.Config.{Depot, PlaceConfig}
use orbit_depot_prototype.Place.{
  PlaceError, no_place_specified, unknown_place, Definition, Place, Registry, build, build_all,
  add_place, new, resolve, strategy_dump, strategy_account, or_else,
}
use orbit_depot_prototype.Place.Policy.Routing.{expected, built, resolve-new, with_default-cases}
use orbit_depot_prototype.Main.Start.{definition, definitions, build_places}

-- The place that a configured definition describes, under its name and the limit of the depot.
pub record IsConfigured (name : Text) (limit : ℤ) (c : PlaceConfig) (p : Place) : Type 0 where
  pub named : p.name ≡ name
  pub prefix : p.prefix ≡ (if c.prefix == [] then name else c.prefix)
  pub strategy : p.strategy ≡ (if c.key == [] then codes "dump" else c.key)
  pub max_size : p.max_size ≡ (if eqb_ℤ c.max_size (pos 0) then limit else c.max_size)
  pub allowed_mime : p.allowed_mime ≡ c.allowed_mime
  pub require_identity : p.require_identity ≡ (c.require_identity || p.strategy == codes "account")

-- What a registry answers for the names of a configuration.
pub record Serves (d : Depot) (places : Registry) : Type 0 where
  pub configured :
      (name : Text) (c : PlaceConfig)
      → name ≢ []
      → lookup name d.places ≡ some c
      → (p : Place) × (resolve places name ≡ ok p) × IsConfigured name d.limits.max_file_size c p
  pub unknown :
      (name : Text)
      → name ≢ []
      → lookup name d.places ≡ none
      → resolve places name ≡ err unknown_place
  pub default_place :
      resolve places []
      ≡ (if d.default_place == [] then err no_place_specified else resolve places d.default_place)

or_else_lem : (v other : Text) → or_else v other ≡ (if v == [] then other else v)
unfolding ◌==◌
or_else_lem [] other = refl
or_else_lem (c ∷ v) other = refl

build-IsConfigured :
    (name : Text) (c : PlaceConfig) (limit : ℤ) (p : Place)
    → build name (definition c) limit ≡ ok p
    → IsConfigured name limit c p
unfolding build
build-IsConfigured name c limit p h =
    let s = or_else c.key strategy_dump in
    elim (Bool-cases (not (s == strategy_dump) && not (s == strategy_account))) [
      | inl bad ↦ cc (rw bad at h)
      | inr good ↦ subst (IsConfigured name limit c) (result-injective (rw good at h)) (record {
        named = refl;
        prefix = or_else_lem c.prefix name;
        strategy = or_else_lem c.key strategy_dump;
        max_size = refl;
        allowed_mime = refl;
        require_identity = refl;
      })
    ]

added :
    (n : Text) (b : Result PlaceError Place) (rest : Result PlaceError (List (Text × Place)))
    (places : List (Text × Place))
    → add_place n b rest ≡ ok places
    → ((p : Place) × (b ≡ ok p)) × ((tail : List (Text × Place)) × (rest ≡ ok tail))
added n (err e) rest places h = cc h
added n (ok p) (err e) places h = cc h
added n (ok p) (ok tail) places h = ((p, refl), (tail, refl))

-- Where all places build, so does each.
build_all-build :
    (limit : ℤ) (cs : List (Text × PlaceConfig)) (places : List (Text × Place)) (name : Text)
    (c : PlaceConfig)
    → build_all (definitions cs) limit ≡ ok places
    → lookup name cs ≡ some c
    → (p : Place) × (build name (definition c) limit ≡ ok p)
unfolding build_all lookup
build_all-build limit [] places name c h found = cc found
build_all-build limit ((n, e) ∷ cs) places name c h found =
    let (first, more) =
      added n (build n (definition e) limit) (build_all (definitions cs) limit) places h in
    elim (Bool-cases (n == name)) [
      | inl same ↦
          let (p, builds) = first in
          (
            p,
            subst (λ x. build name (definition x) limit ≡ ok p) (some-injective (rw same at found))
                (subst (λ x. build x (definition e) limit ≡ ok p) ((==_iff n name).0 same) builds),
          )
      | inr other ↦
          let (tail, rest) = more in build_all-build limit cs tail name c rest (rw other at found)
    ]

lookup-definitions :
    (name : Text) (cs : List (Text × PlaceConfig))
    → ((c : PlaceConfig)
        → lookup name cs ≡ some c
        → lookup name (definitions cs) ≡ some (definition c))
      × (lookup name cs ≡ none → lookup name (definitions cs) ≡ none)
unfolding lookup
lookup-definitions name [] = (λ c h. cc h, λ h. refl)
lookup-definitions name ((n, e) ∷ cs) =
    let (found, missing) = lookup-definitions name cs in
    elim (Bool-cases (n == name)) [
      | inl same ↦ (
        λ c h. rw same (ap (λ x. some (definition x)) (some-injective (rw same at h))),
        λ h. cc (rw same at h),
      )
      | inr other ↦
          (λ c h. rw other (found c (rw other at h)), λ h. rw other (missing (rw other at h)))
    ]

expected_at :
    (defs : List (Text × Definition)) (dflt name : Text) (g : ℤ)
    → name ≢ []
    → expected defs dflt g name ≡ built name g (lookup name defs)
expected_at defs dflt name g set = ground (arith, ==_iff name [])

expected_default :
    (defs : List (Text × Definition)) (dflt : Text) (g : ℤ)
    → expected defs dflt g []
      ≡ (if dflt == [] then err no_place_specified else expected defs dflt g dflt)
expected_default defs dflt g = ground (arith, ==_iff [] [], ==_iff dflt [])

-- The registry of a configuration serves its places.
pub build_places-Serves :
    (d : Depot) (places : Registry) → build_places d ≡ ok places → Serves d places
unfolding build_places new
build_places-Serves d places h =
    let g = d.limits.max_file_size in
    let defs = definitions d.places in
    let says = resolve-new defs d.default_place g places h in
    let (all, _, _) = with_default-cases d.default_place (build_all defs g) places h in
    record {
      configured = λ name c set found.
          let (p, builds) = build_all-build g d.places places.places name c all found in
          (
            p,
            says name
                ∙ expected_at defs d.default_place name g set
                ∙ ap (built name g) ((lookup-definitions name d.places).0 c found)
                ∙ builds,
            build-IsConfigured name c g p builds,
          );
      unknown = λ name set missing.
          says name
          ∙ expected_at defs d.default_place name g set
          ∙ ap (built name g) ((lookup-definitions name d.places).1 missing);
      default_place =
          says []
          ∙ expected_default defs d.default_place g
          ∙ ap (λ r. if d.default_place == [] then err no_place_specified else r)
              (sym (says d.default_place));
    }
