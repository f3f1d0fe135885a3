-- ===== src/Base/Paths/Joining.antt =====
-- `path.Join` of a plain path and plain segments: nothing is cleaned away.
use mathlib.Core.List.{append-nil, append_assoc}
use orbit_depot_prototype.Base.Lists.{All, All-append, keep}
use orbit_depot_prototype.Base.Text.{Text}
use orbit_depot_prototype.Base.Paths.{slash, split_slash, join_slash, not_empty, clean, join_path}
use orbit_depot_prototype.Base.Paths.Segments.{IsPlain, split_slash-ne-nil, split-join, join-split}
use orbit_depot_prototype.Base.Paths.Cleaning.{IsPlain-NoSlash, join_slash-ne-nil, clean-join}
use mathlib.Core.Path.{◌≡◌, refl, sym, ap, ◌∙◌}
use mathlib.Core.Logic.{◌≢◌}
use mathlib.Core.List.{List, [], ◌∷◌, ◌++◌}

-- Joining a joined path to more segments joins them all.
join_slash_flat :
    (pre segs : List Text)
    → pre ≢ []
    → join_slash (join_slash pre ∷ segs) ≡ join_slash (pre ++ segs)
unfolding join_slash
join_slash_flat [] segs h = absurd (h refl)
join_slash_flat (p ∷ []) [] h = refl
join_slash_flat (p ∷ []) (q ∷ segs) h = refl
join_slash_flat (p ∷ r ∷ pre) [] h = cc (append-nil pre)
join_slash_flat (p ∷ r ∷ pre) (q ∷ segs) h = cc (
  join_slash_flat (r ∷ pre) (q ∷ segs) (cc),
  append_assoc p (slash ∷ join_slash (r ∷ pre)) (slash ∷ join_slash (q ∷ segs)),
)

keep_of_IsPlain : (segs : List Text) → All IsPlain segs → keep not_empty segs ≡ segs
keep_of_IsPlain [] h = refl
keep_of_IsPlain ([] ∷ segs) (h, _) = absurd (h.0 refl)
keep_of_IsPlain ((c ∷ s) ∷ segs) (_, h) = ap (λ l. (c ∷ s) ∷ l) (keep_of_IsPlain segs h)

append-ne-nil : (pre segs : List Text) → pre ≢ [] → pre ++ segs ≢ []
append-ne-nil [] segs h = absurd (h refl)
append-ne-nil (p ∷ pre) segs h = cc

-- A prefix whose segments are all plain.
abbrev pub IsPlainPath : Text → Type 0
IsPlainPath s = All IsPlain (split_slash s)

module _ (prefix : Text) (segs : List Text) (k : IsPlainPath prefix) (ks : All IsPlain segs) where
  joined_segments : All IsPlain (split_slash prefix ++ segs)
  joined_segments = All-append IsPlain (split_slash prefix) segs k ks

  keep_prefix : keep not_empty (prefix ∷ segs) ≡ prefix ∷ segs
  keep_prefix =
      go prefix
        (rw join-split at (join_slash-ne-nil (split_slash prefix) (split_slash-ne-nil prefix) k))
    where
      go : (p : Text) → p ≢ [] → keep not_empty (p ∷ segs) ≡ p ∷ segs
      go [] h = absurd (h refl)
      go (c ∷ s) h = ap (λ l. (c ∷ s) ∷ l) (keep_of_IsPlain segs ks)

  -- `path.Join` of a plain prefix and plain segments only puts slashes between them.
  pub join_path-plain : join_path (prefix ∷ segs) ≡ join_slash (split_slash prefix ++ segs)
  unfolding join_path
  join_path-plain = rw keep_prefix (
      ap (λ (p : Text). clean (join_slash (p ∷ segs))) (sym (join-split prefix))
      ∙ (ap clean (join_slash_flat (split_slash prefix) segs (split_slash-ne-nil prefix))
          ∙ clean-join (split_slash prefix ++ segs)
              (append-ne-nil (split_slash prefix) segs (split_slash-ne-nil prefix))
              joined_segments))

  -- The joined path splits back into the segments of the prefix and those behind it.
  pub split-join_path : split_slash (join_path (prefix ∷ segs)) ≡ split_slash prefix ++ segs
  split-join_path =
      ap split_slash join_path-plain
      ∙ split-join (split_slash prefix ++ segs)
          (append-ne-nil (split_slash prefix) segs (split_slash-ne-nil prefix))
          (IsPlain-NoSlash _ joined_segments)

  pub join_path-IsPlainPath : IsPlainPath (join_path (prefix ∷ segs))
  join_path-IsPlainPath = rw split-join_path joined_segments
