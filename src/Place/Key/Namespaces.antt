-- ===== src/Place/Key/Namespaces.antt =====
-- Derived keys of different owners.
use orbit_depot_prototype.Base.{◌≡◌, refl, sym, ◌∙◌, Bool, true, false, List, [], ◌∷◌, ◌++◌}
use orbit_depot_prototype.Base.Text.{Text}
use orbit_depot_prototype.Base.Paths.{split_slash}
use orbit_depot_prototype.Base.Paths.Joining.{IsPlainPath}
use orbit_depot_prototype.Base.Exec.{ok}
use orbit_depot_prototype.Place.{Place, UploadRequest}
use orbit_depot_prototype.Place.Key.{Surroundings, derive_key}
use orbit_depot_prototype.Place.Key.Layout.{
  IsSound, owner_of, anonymous_owner-ne, derive_key_layout,
}

same_head :
    (pre : List Text) (o o' : Text) (below below' : List Text)
    → pre ++ (o ∷ below) ≡ pre ++ (o' ∷ below')
    → o ≡ o'
same_head [] o o' below below' e = cc
same_head (p ∷ pre) o o' below below' e = same_head pre o o' below below' (cc)

abbrev anonymous_eq :
    (env env' : Surroundings)
    → IsSound env
    → IsSound env'
    → (s i s' i' : Text) (a b : Bool) → owner_of env s i a ≡ owner_of env' s' i' b
    → a ≡ b
unfolding owner_of
anonymous_eq env env' h h' s i s' i' true true e = refl
anonymous_eq env env' h h' s i s' i' false false e = refl
anonymous_eq env env' h h' s i s' i' true false e =
    absurd (anonymous_owner-ne env' h' s' i' (sym e))
anonymous_eq env env' h h' s i s' i' false true e = absurd (anonymous_owner-ne env h s i e)

module _ (p : Place) (prefix : IsPlainPath p.prefix) where
  -- If two uploads to one place, at whatever times, get the same object key, then both callers are
  -- anonymous or both are identified, and their owner segments agree: an identified caller's
  -- account hash is the other's. So nobody writes under another owner's segment. The prefix of the
  -- place is a plain path, SHA-256 gives 32 bytes and the printed time holds no slash.
  pub derive_key_namespace :
      (env env' : Surroundings) (s i s' i' : Text) (a b : Bool) (req req' : UploadRequest)
      (key : Text)
      → IsSound env
      → IsSound env'
      → derive_key env p s i a req ≡ ok key
      → derive_key env' p s' i' b req' ≡ ok key
      → (a ≡ b) × (owner_of env s i a ≡ owner_of env' s' i' b)
  derive_key_namespace env env' s i s' i' a b req req' key h h' e e' =
      let (below, _, parts) = derive_key_layout env h p s i a req key prefix e in
      let (below', _, parts') = derive_key_layout env' h' p s' i' b req' key prefix e' in
      let owners = same_head (split_slash p.prefix) _ _ below below' (sym parts ∙ parts') in
      (anonymous_eq env env' h h' s i s' i' a b owners, owners)
