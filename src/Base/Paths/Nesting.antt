-- ===== src/Base/Paths/Nesting.antt =====
-- `path.Join` of two rooted paths: the second lies below the first.
use mathlib.Core.List.{append_assoc, List, [], ◌∷◌, ◌++◌, reverse}
use mathlib.Core.Path.{◌≡◌, refl, ap, ◌∙◌}
use mathlib.Core.Logic.{◌≢◌}
use mathlib.Core.Bool.{true}
use native.Mathlib.Omega.{arith}
use orbit_depot_prototype.Base.Lists.{All}
use orbit_depot_prototype.Base.Text.{Text, ◌==◌}
use orbit_depot_prototype.Base.Paths.{
  slash, split_slash, join_slash, rooted_segments, resolve_segment, resolve_segments, join_path,
}
use orbit_depot_prototype.Base.Paths.Segments.{NoSlash, IsPlain, split_slash-append, split-join}
use orbit_depot_prototype.Base.Paths.Cleaning.{
  resolve_segments_of_IsPlain, clean_rooted, IsPlain-NoSlash,
}

split_under :
    (names : List Text) (s : Text)
    → names ≢ []
    → All NoSlash names
    → split_slash (join_slash names ++ (slash ∷ s)) ≡ names ++ split_slash s
unfolding join_slash
split_under [] s h k = absurd (h refl)
split_under (p ∷ []) s h (k, _) = split_slash-append p s k
split_under (p ∷ q ∷ names) s h (k, ks) =
    ap split_slash (append_assoc p (slash ∷ join_slash (q ∷ names)) (slash ∷ s))
    ∙ (split_slash-append p _ k ∙ ap (λ l. p ∷ l) (split_under (q ∷ names) s (cc) ks))

resolve_append :
    (stack segs more : List Text)
    → resolve_segments true stack (segs ++ more)
      ≡ resolve_segments true (resolve_segments true stack segs) more
unfolding resolve_segments
resolve_append stack [] more = refl
resolve_append stack (seg ∷ segs) more = resolve_append (resolve_segment true stack seg) segs more

-- An empty element changes nothing.
resolve_empty :
    (stack segs : List Text)
    → resolve_segments true stack ([] ∷ segs) ≡ resolve_segments true stack segs
unfolding resolve_segments resolve_segment ◌==◌
resolve_empty stack segs = refl

split_leading : (s : Text) → split_slash (slash ∷ s) ≡ [] ∷ split_slash s
unfolding split_slash
split_leading s = ground arith

module _ (names : List Text) (h : names ≢ []) (k : All IsPlain names) where
  -- The elements of a second rooted path come behind those of the first.
  rooted_segments_under :
      (segs : List Text)
      → split_slash (join_slash segs) ≡ segs
      → All IsPlain segs
      → rooted_segments (join_slash names ++ (slash ∷ slash ∷ join_slash segs)) ≡ names ++ segs
  unfolding rooted_segments
  rooted_segments_under segs e ks =
      ap (λ l. reverse (resolve_segments true [] l))
        (split_under names (slash ∷ join_slash segs) h (IsPlain-NoSlash names k)
          ∙ ap (λ l. names ++ l) (split_leading (join_slash segs) ∙ ap (λ l. [] ∷ l) e))
      ∙ (ap reverse (resolve_append [] names ([] ∷ segs) ∙ resolve_empty _ segs)
          ∙ (resolve_segments_of_IsPlain true (resolve_segments true [] names) segs ks
              ∙ ap (λ l. l ++ segs) (resolve_segments_of_IsPlain true [] names k)))

  pub join_path_rooted :
      (segs : List Text)
      → segs ≢ []
      → All IsPlain segs
      → join_path ((slash ∷ join_slash names) ∷ (slash ∷ join_slash segs) ∷ [])
        ≡ slash ∷ join_slash (names ++ segs)
  unfolding join_path join_slash
  join_path_rooted segs hs ks =
      clean_rooted (join_slash names ++ (slash ∷ slash ∷ join_slash segs))
      ∙ ap (λ l. slash ∷ join_slash l)
          (rooted_segments_under segs (split-join segs hs (IsPlain-NoSlash segs ks)) ks)
