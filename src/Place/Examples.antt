-- ===== src/Place/Examples.antt =====
-- Runs of the place policy and the key derivation on a small configuration.
use orbit_depot_prototype.Base.{◌≡◌, ◌↔◌, refl, false, some, List, [], ◌∷◌, ◌++◌, All}
use orbit_depot_prototype.Base.Int.{pos}
use orbit_depot_prototype.Base.Text.{
  Text, codes, ◌==◌, hex_encode, lookup, has_prefix, trim_left, trim_right,
}
use orbit_depot_prototype.Base.Paths.{split_slash, clean, join_path}
use orbit_depot_prototype.Base.Paths.Segments.{IsPlain, split_slash-NoSlash}
use orbit_depot_prototype.Base.Paths.Joining.{IsPlainPath}
use orbit_depot_prototype.Base.Exec.{ok}
use orbit_depot_prototype.Fs.{validate_key}
use orbit_depot_prototype.Fs.Paths.{validate_key_iff}
use orbit_depot_prototype.Place.{
  Definition, Place, UploadRequest, Registry, strategy_dump, build, build_all, new, resolve,
  validate,
}
use orbit_depot_prototype.Place.Filename.{sanitize_filename}
use orbit_depot_prototype.Place.Key.{Surroundings, account_hash, unique_segment, derive_key}
use orbit_depot_prototype.Place.Key.Layout.{IsSound, owner_of, derive_key_layout}
use orbit_depot_prototype.Place.Key.Namespaces.{derive_key_namespace}
use orbit_depot_prototype.Place.Policy.{Admits, build-IsBuilt, validate_iff}
use orbit_depot_prototype.Place.Policy.Routing.{expected, resolve-new, derive_key_total}

abbrev docs_definition : Definition
docs_definition = record {
  prefix = codes "d";
  strategy = strategy_dump;
  max_size = pos 100;
  allowed_mime = [];
  require_identity = false;
}

abbrev docs : Place
docs = record {
  name = codes "docs";
  prefix = codes "d";
  strategy = strategy_dump;
  max_size = pos 100;
  allowed_mime = [];
  require_identity = false;
}

abbrev registry : Registry
registry = record { places = (codes "docs", docs) ∷ []; default_name = codes "docs" }

abbrev note : UploadRequest
note = record { filename = codes "a"; size = pos 7; content_type = codes "text/plain" }

abbrev zeros : Text
zeros = codes "00000000000000000000000000000000"

abbrev surroundings : Surroundings
surroundings = record { sha256 = λ s. zeros; stamp = codes "t"; random = some (codes "r") }

surroundings-IsSound : IsSound surroundings
unfolding split_slash
surroundings-IsSound = record {
  sha256_length = λ s. refl;
  stamp_plain = (split_slash-NoSlash (codes "t")).0;
}

docs_built : build (codes "docs") docs_definition (pos 5) ≡ ok docs
unfolding build ◌==◌
docs_built = refl

registry-new : new ((codes "docs", docs_definition) ∷ []) (codes "docs") (pos 5) ≡ ok registry
unfolding new build_all build lookup ◌==◌
registry-new = refl

abbrev docs_key : Text
docs_key = codes "d/3030303030303030/t-72/a"

docs-derives : derive_key surroundings docs (codes "s") (codes "i") false note ≡ ok docs_key
unfolding derive_key account_hash unique_segment sanitize_filename hex_encode join_path clean ◌==◌
    trim_left trim_right split_slash
docs-derives = refl

docs_prefix : IsPlainPath docs.prefix
unfolding validate_key ◌==◌ has_prefix split_slash
docs_prefix = (validate_key_iff docs.prefix).0 refl

docs-admits : validate docs note false ≡ ok tt
unfolding validate
docs-admits = refl

derive_key_layout_example :
    (below : List Text) × All IsPlain below
    × (split_slash docs_key
        ≡ split_slash docs.prefix ++ (owner_of surroundings (codes "s") (codes "i") false ∷ below))
derive_key_layout_example =
    derive_key_layout surroundings surroundings-IsSound docs (codes "s") (codes "i") false note
      docs_key docs_prefix docs-derives

derive_key_namespace_example :
    (false ≡ false)
    × (owner_of surroundings (codes "s") (codes "i") false
        ≡ owner_of surroundings (codes "s") (codes "i") false)
derive_key_namespace_example =
    derive_key_namespace docs docs_prefix surroundings surroundings (codes "s") (codes "i")
      (codes "s") (codes "i") false false note note docs_key surroundings-IsSound
      surroundings-IsSound docs-derives docs-derives

validate_iff_example : (validate docs note false ≡ ok tt) ↔ Admits docs note false
validate_iff_example = validate_iff docs note false

resolve-new_example :
    resolve registry (codes "docs")
    ≡ expected ((codes "docs", docs_definition) ∷ []) (codes "docs") (pos 5) (codes "docs")
resolve-new_example =
    resolve-new ((codes "docs", docs_definition) ∷ []) (codes "docs") (pos 5) registry registry-new
      (codes "docs")

derive_key_total_example :
    (key : Text) × (derive_key surroundings docs (codes "s") (codes "i") false note ≡ ok key)
derive_key_total_example =
    derive_key_total surroundings docs (codes "s") (codes "i") false note (codes "r")
      (build-IsBuilt (codes "docs") docs_definition (pos 5) docs_built) docs-admits refl
