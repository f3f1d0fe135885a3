-- ===== src/Place/Policy/Routing.antt =====
-- `New` and `Resolve` of internal/place/place.go, against the configuration.
use orbit_depot_prototype.Base.{
  ◌≡◌, ◌≢◌, refl, sym, subst, ◌∙◌, ◌⊎◌, inl, inr, Bool, true, Option, none, some, List, [], ◌∷◌,
  ◌++◌, if◌then◌else◌, arith, Bool-cases,
}
use orbit_depot_prototype.Base.Int.{ℤ}
use orbit_depot_prototype.Base.Text.{Text, ◌==◌, ==_iff, ==-refl, lookup, hex_encode}
use orbit_depot_prototype.Base.Exec.{Result, ok, err, result-injective}
use orbit_depot_prototype.Place.{
  PlaceError, no_place_specified, unknown_place, Definition, Place, UploadRequest, Registry, build,
  build_all, is_found, found_place, with_default, new, resolve, validate, add_place, strategy_dump,
  strategy_account,
}
use orbit_depot_prototype.Place.Policy.{IsBuilt, build-IsBuilt, validate_iff}
use orbit_depot_prototype.Place.Key.{
  Surroundings, anonymous_owner, account_hash, unique_segment, derive_key,
}
use orbit_depot_prototype.Place.Filename.{sanitize_filename}
use orbit_depot_prototype.Base.Paths.{join_path}

-- The answer for a configured definition, and for a name, read off the configuration alone.
abbrev pub built : Text → ℤ → Option Definition → Result PlaceError Place
built name g none = err unknown_place
built name g (some d) = build name d g

abbrev pub expected : List (Text × Definition) → Text → ℤ → Text → Result PlaceError Place
expected defs default_name g name =
    let target = if name == [] then default_name else name in
    if target == [] then err no_place_specified else built target g (lookup target defs)

lookup-add_place :
    (t name : Text) (d : Definition) (g : ℤ) (defs : List (Text × Definition))
    (b : Result PlaceError Place) (rest : Result PlaceError (List (Text × Place)))
    (places : List (Text × Place))
    → build name d g ≡ b
    → add_place name b rest ≡ ok places
    → ((tail : List (Text × Place))
        → rest ≡ ok tail
        → found_place (lookup t tail) ≡ built t g (lookup t defs))
    → found_place (lookup t places) ≡ built t g (lookup t ((name, d) ∷ defs))
lookup-add_place t name d g defs (err e) rest places eb h ih = cc
lookup-add_place t name d g defs (ok p) (err e) places eb h ih = cc
lookup-add_place t name d g defs (ok p) (ok tail) places eb h ih =
    subst (λ l. found_place (lookup t l) ≡ built t g (lookup t ((name, d) ∷ defs)))
      (result-injective h)
      (elim (Bool-cases (name == t)) [
        | inl same ↦ unfold lookup in rw same (rw (← (==_iff name t).0 same) (sym eb))
        | inr other ↦ unfold lookup in rw other (ih tail refl)
      ])

lookup-build_all :
    (t : Text) (g : ℤ) (defs : List (Text × Definition)) (places : List (Text × Place))
    → build_all defs g ≡ ok places
    → found_place (lookup t places) ≡ built t g (lookup t defs)
unfolding build_all
lookup-build_all t g [] places h =
    subst (λ l. found_place (lookup t l) ≡ built t g (lookup t [])) (result-injective h)
      (unfold lookup in refl)
lookup-build_all t g ((name, d) ∷ defs) places h =
    lookup-add_place t name d g defs (build name d g) (build_all defs g) places refl h
      (λ tail e. lookup-build_all t g defs tail e)

pub with_default-cases :
    (dflt : Text) (built_places : Result PlaceError (List (Text × Place))) (r : Registry)
    → with_default dflt built_places ≡ ok r
    → (built_places ≡ ok r.places)
      × (r.default_name ≡ dflt)
      × ((dflt ≡ []) ⊎ (is_found (lookup dflt r.places) ≡ true))
with_default-cases dflt (err e) r h = cc
with_default-cases dflt (ok places) r h = ground (arith, ==_iff dflt [])

built-IsBuilt :
    (name : Text) (g : ℤ) (d : Option Definition) {p : Place} → built name g d ≡ ok p → IsBuilt p
built-IsBuilt name g none h = cc
built-IsBuilt name g (some d) h = build-IsBuilt name d g h

expected-IsBuilt :
    (defs : List (Text × Definition)) (dflt : Text) (g : ℤ) (name : Text) {p : Place}
    → expected defs dflt g name ≡ ok p
    → IsBuilt p
expected-IsBuilt defs dflt g name h =
    let target = if name == [] then dflt else name in
    elim (Bool-cases (target == [])) [
      | inl empty ↦ cc (rw empty at h)
      | inr set ↦ built-IsBuilt target g (lookup target defs) (rw set at h)
    ]

is_found-some : (o : Option Place) → is_found o ≡ true → (p : Place) × (found_place o ≡ ok p)
is_found-some none h = cc
is_found-some (some p) h = (p, refl)

module _ (defs : List (Text × Definition)) (dflt : Text) (g : ℤ) (r : Registry)
    (made : new defs dflt g ≡ ok r) where
  -- The registry that `New` returns resolves every name, the empty one included, as the
  -- configuration says: to the place that `build` makes of the definition that is configured under
  -- the name, or under the default name if the name is empty; to `ErrNoPlaceSpecified` if both are
  -- empty; and to `ErrUnknownPlace` if no definition has the name.
  pub resolve-new : (name : Text) → resolve r name ≡ expected defs dflt g name
  unfolding resolve new
  resolve-new name =
      let (all, same, _) = with_default-cases dflt (build_all defs g) r made in
      ground (
        arith,
        lookup-build_all name g defs r.places all,
        lookup-build_all dflt g defs r.places all,
      )

  -- Every place that a name resolves to was built from a definition.
  pub resolve-IsBuilt : (name : Text) {p : Place} → resolve r name ≡ ok p → IsBuilt p
  resolve-IsBuilt name h = expected-IsBuilt defs dflt g name (sym (resolve-new name) ∙ h)

  default_found : dflt ≢ [] → (p : Place) × (resolve r [] ≡ ok p)
  unfolding resolve new
  default_found ne =
      let (all, same, known) = with_default-cases dflt (build_all defs g) r made in
      let (p, found) =
        is_found-some (lookup dflt r.places) (elim known [ inl e ↦ absurd (ne e) | inr k ↦ k ]) in
      (p, ground (arith, ==_iff r.default_name [], ==_iff dflt [], ==-refl []))

  -- A default name that is set is never unknown: a request with no place gets a place.
  pub default_resolves : dflt ≢ [] → (p : Place) × (resolve r [] ≡ ok p) × IsBuilt p
  default_resolves ne = let (p, e) = default_found ne in (p, e, resolve-IsBuilt [] e)

-- Once a built place accepts a request, the key derivation cannot refuse it: with random bytes at
-- hand it returns a key.
pub derive_key_total :
    (env : Surroundings) (p : Place) (subject issuer : Text) (anonymous : Bool)
    (req : UploadRequest) (bytes : Text)
    → IsBuilt p
    → validate p req anonymous ≡ ok tt
    → env.random ≡ some bytes
    → (key : Text) × (derive_key env p subject issuer anonymous req ≡ ok key)
unfolding derive_key unique_segment
derive_key_total env p subject issuer anonymous req bytes b v e =
    let owner = if anonymous then anonymous_owner else account_hash env.sha256 issuer subject in
    let filename = sanitize_filename req.filename in
    let admits = (validate_iff p req anonymous).0 v in
    elim b.known_strategy [
      | inl dump ↦ (
        join_path (p.prefix ∷ owner ∷ (env.stamp ++ (b'-' ∷ hex_encode bytes)) ∷ filename ∷ []),
        ground (arith, ==_iff p.strategy strategy_dump, ==_iff p.strategy strategy_account),
      )
      | inr account ↦ (
        join_path (p.prefix ∷ owner ∷ filename ∷ []),
        ground (
          arith,
          ==_iff p.strategy strategy_dump,
          ==_iff p.strategy strategy_account,
          admits.identity,
        ),
      )
    ]
