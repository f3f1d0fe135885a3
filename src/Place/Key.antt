-- ===== src/Place/Key.antt =====
-- `DeriveKey` of internal/place/derive.go: the owner segment comes from the verified identity.
pub mod Layout
pub mod Namespaces
use orbit_depot_prototype.Base.{
  ℕ, ◌≡◌, Bool, true, false, ◌&&◌, Option, none, some, List, [], ◌∷◌, ◌++◌, if◌then◌else◌, take,
}
use orbit_depot_prototype.Base.Text.{Text, codes, ◌==◌, hex_encode}
use orbit_depot_prototype.Base.Paths.{join_path}
use orbit_depot_prototype.Base.Exec.{Result, ok, err}
use orbit_depot_prototype.Place.{
  Place, UploadRequest, PlaceError, identity_required, no_entropy, unknown_strategy, strategy_dump,
  strategy_account,
}
use orbit_depot_prototype.Place.Filename.{sanitize_filename}

abbrev pub anonymous_owner : Text
anonymous_owner = codes "_anonymous"

-- What the derivation reads of its surroundings: the hash function of crypto/sha256, the clock as
-- `now.UTC().Format("20060102T150405.000")` prints it, and the six bytes that `rand.Read` gives,
-- `none` where it fails.
pub record Surroundings : Type 0 where
  pub sha256 : Text → Text
  pub stamp : Text
  pub random : Option Text

unfoldable pub account_hash : (Text → Text) → Text → Text → Text
unfolding hex_encode
account_hash sha256 issuer subject = hex_encode (take 8 (sha256 (issuer ++ (0 ∷ subject))))

unfoldable pub unique_segment : Text → Option Text → Result PlaceError Text
unfolding hex_encode
unique_segment stamp none = err no_entropy
unique_segment stamp (some bytes) = ok (stamp ++ (b'-' ∷ hex_encode bytes))

abbrev pub dump_key : Text → Text → Text → Result PlaceError Text → Result PlaceError Text
dump_key prefix owner filename (err e) = err e
dump_key prefix owner filename (ok unique) =
    ok (join_path (prefix ∷ owner ∷ unique ∷ filename ∷ []))

abbrev pub key_of : Surroundings → Place → Text → Text → Result PlaceError Text
key_of env p owner filename =
    if p.strategy == strategy_dump
    then dump_key p.prefix owner filename (unique_segment env.stamp env.random)
    else if p.strategy == strategy_account
    then ok (join_path (p.prefix ∷ owner ∷ filename ∷ []))
    else err (unknown_strategy p.strategy)

unfoldable pub derive_key :
    Surroundings → Place → Text → Text → Bool → UploadRequest → Result PlaceError Text
derive_key env p subject issuer anonymous req =
    if anonymous && p.strategy == strategy_account
    then err identity_required
    else key_of env p
        (if anonymous then anonymous_owner else account_hash env.sha256 issuer subject)
        (sanitize_filename req.filename)
