-- ===== src/Base/Paths/Segments.antt =====
-- What `split_slash`, `join_slash` and `clean` do to paths with plain segments.
use orbit_depot_prototype.Base.Tests.{eqb, if◌then◌else◌}
use orbit_depot_prototype.Base.Lists.{All}
use orbit_depot_prototype.Base.Text.{Text, codes}
use orbit_depot_prototype.Base.Paths.{slash, push_head, split_slash, join_slash}
use mathlib.Core.Path.{◌≡◌, refl, ap, ◌∙◌}
use mathlib.Core.Logic.{◌≢◌}
use mathlib.Core.List.{List, [], ◌∷◌, ◌++◌}
use native.Mathlib.Omega.{arith}

abbrev pub NoSlash : Text → Type 0
NoSlash = All (λ c. c ≢ slash)

-- A segment that names a file below the directory that it is joined to.
abbrev pub IsPlain : Text → Type 0
IsPlain p = (p ≢ []) × (p ≢ codes ".") × (p ≢ codes "..") × NoSlash p

-- The parts of a split hold no slash.
pub split_slash-NoSlash : (s : Text) → All NoSlash (split_slash s)
unfolding split_slash
split_slash-NoSlash [] = (tt, tt)
split_slash-NoSlash (c ∷ s) = push (split_slash s) (split_slash-NoSlash s)
  where
    push :
        (ps : List Text)
        → All NoSlash ps
        → All NoSlash (if eqb c slash then [] ∷ ps else push_head c ps)
    push [] h = ground arith
    push (p ∷ ps) h = ground arith

pub split_slash-ne-nil : (s : Text) → split_slash s ≢ []
unfolding split_slash
split_slash-ne-nil [] = cc
split_slash-ne-nil (c ∷ s) = nonempty (split_slash s)
  where
    nonempty : (ps : List Text) → (if eqb c slash then [] ∷ ps else push_head c ps) ≢ []
    nonempty [] = ground arith
    nonempty (p ∷ ps) = ground arith

pub split_slash-plain : (p : Text) → NoSlash p → split_slash p ≡ p ∷ []
unfolding split_slash
split_slash-plain [] h = refl
split_slash-plain (c ∷ p) (hc, hp) = rw (split_slash-plain p hp) (ground arith)

pub split_slash-append :
    (p s : Text) → NoSlash p → split_slash (p ++ (slash ∷ s)) ≡ p ∷ split_slash s
unfolding split_slash
split_slash-append [] s h = ground arith
split_slash-append (c ∷ p) s (hc, hp) = rw (split_slash-append p s hp) (ground arith)

-- A path is split into the segments that it was joined from.
pub split-join : (ps : List Text) → ps ≢ [] → All NoSlash ps → split_slash (join_slash ps) ≡ ps
unfolding join_slash
split-join [] h _ = absurd (h refl)
split-join (p ∷ []) _ (hp, _) = split_slash-plain p hp
split-join (p ∷ q ∷ ps) _ (hp, hps) =
    split_slash-append p (join_slash (q ∷ ps)) hp ∙ ap (λ l. p ∷ l) (split-join (q ∷ ps) (cc) hps)

-- A path is the join of its parts.
pub join-split : (s : Text) → join_slash (split_slash s) ≡ s
unfolding split_slash join_slash
join-split [] = refl
join-split (c ∷ s) = glue (split_slash s) (split_slash-ne-nil s) (join-split s)
  where
    glue :
        (ps : List Text)
        → ps ≢ []
        → join_slash ps ≡ s
        → join_slash (if eqb c slash then [] ∷ ps else push_head c ps) ≡ c ∷ s
    glue [] h e = absurd (h refl)
    glue (p ∷ []) h e = ground arith
    glue (p ∷ q ∷ ps) h e = ground arith
