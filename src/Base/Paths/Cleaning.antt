-- ===== src/Base/Paths/Cleaning.antt =====
-- What `path.Clean` does: the elements of a rooted path are plain, and a plain path is kept.
use mathlib.Core.List.{append_assoc, append-nil, reverse-cons}
use Prim.Native.Nat.{ℕ}
use mathlib.Core.Path.{◌≡◌, refl, sym, ap, ◌∙◌}
use mathlib.Core.Logic.{◌≢◌}
use mathlib.Core.Bool.{Bool, true, false}
use mathlib.Core.List.{List, [], ◌∷◌, ◌++◌, reverse}
use native.Mathlib.Omega.{arith}
use orbit_depot_prototype.Base.Lists.{All, All-reverse_aux}
use orbit_depot_prototype.Base.Text.{Text, codes, ==_iff}
use orbit_depot_prototype.Base.Paths.{
  slash, split_slash, join_slash, resolve_segment, resolve_segments, rooted_segments,
  relative_segments, clean,
}
use orbit_depot_prototype.Base.Paths.Segments.{NoSlash, IsPlain, split_slash-NoSlash, split-join}

resolve_segment-IsPlain :
    (stack : List Text) (seg : Text)
    → All IsPlain stack
    → NoSlash seg
    → All IsPlain (resolve_segment true stack seg)
unfolding resolve_segment
resolve_segment-IsPlain [] seg h k =
    ground (arith, ==_iff seg [], ==_iff seg (codes "."), ==_iff seg (codes ".."))
resolve_segment-IsPlain (top ∷ stack) seg h k =
    ground (arith, ==_iff seg [], ==_iff seg (codes "."), ==_iff seg (codes ".."))

resolve_segments-IsPlain :
    (stack segs : List Text)
    → All IsPlain stack
    → All NoSlash segs
    → All IsPlain (resolve_segments true stack segs)
unfolding resolve_segments
resolve_segments-IsPlain stack [] h k = h
resolve_segments-IsPlain stack (seg ∷ segs) h (k, ks) =
    resolve_segments-IsPlain (resolve_segment true stack seg) segs
      (resolve_segment-IsPlain stack seg h k) ks

-- Whatever the path, the elements that are left hold no "", ".", ".." and no slash.
pub rooted_segments-IsPlain : (s : Text) → All IsPlain (rooted_segments s)
unfolding rooted_segments
rooted_segments-IsPlain s =
    All-reverse_aux IsPlain (resolve_segments true [] (split_slash s)) []
      (resolve_segments-IsPlain [] (split_slash s) tt (split_slash-NoSlash s)) tt

resolve_segment_of_IsPlain :
    (rooted : Bool) (stack : List Text) (seg : Text)
    → IsPlain seg
    → resolve_segment rooted stack seg ≡ seg ∷ stack
unfolding resolve_segment
resolve_segment_of_IsPlain rooted stack seg h =
    ground (arith, ==_iff seg [], ==_iff seg (codes "."), ==_iff seg (codes ".."))

pub resolve_segments_of_IsPlain :
    (rooted : Bool) (stack segs : List Text)
    → All IsPlain segs
    → reverse (resolve_segments rooted stack segs) ≡ reverse stack ++ segs
unfolding resolve_segments
resolve_segments_of_IsPlain rooted stack [] h = sym (append-nil _)
resolve_segments_of_IsPlain rooted stack (seg ∷ segs) (k, ks) =
    rw (resolve_segment_of_IsPlain rooted stack seg k) (
      resolve_segments_of_IsPlain rooted (seg ∷ stack) segs ks
      ∙ cc (reverse-cons seg stack, append_assoc (reverse stack) (seg ∷ []) segs))

pub IsPlain-NoSlash : (segs : List Text) → All IsPlain segs → All NoSlash segs
IsPlain-NoSlash [] h = tt
IsPlain-NoSlash (seg ∷ segs) ((_, _, _, k), h) = (k, IsPlain-NoSlash segs h)

pub rooted_segments-join :
    (segs : List Text) → segs ≢ [] → All IsPlain segs → rooted_segments (join_slash segs) ≡ segs
unfolding rooted_segments
rooted_segments-join segs h k =
    rw (split-join segs h (IsPlain-NoSlash segs k)) (resolve_segments_of_IsPlain true [] segs k)

relative_segments-join :
    (segs : List Text) → segs ≢ [] → All IsPlain segs → relative_segments (join_slash segs) ≡ segs
unfolding relative_segments
relative_segments-join segs h k =
    rw (split-join segs h (IsPlain-NoSlash segs k)) (resolve_segments_of_IsPlain false [] segs k)

pub join_slash-ne-nil : (segs : List Text) → segs ≢ [] → All IsPlain segs → join_slash segs ≢ []
unfolding join_slash
join_slash-ne-nil [] h k = absurd (h refl)
join_slash-ne-nil (p ∷ []) h k = k.0.0
join_slash-ne-nil ([] ∷ q ∷ ps) h k = cc
join_slash-ne-nil ((c ∷ p) ∷ q ∷ ps) h k = cc

-- A relative path of plain segments starts with no slash, and is clean already.
pub join_slash_head :
    (c : ℕ) (s : Text) (segs : List Text) → All IsPlain segs → join_slash segs ≡ c ∷ s → c ≢ slash
unfolding join_slash
join_slash_head c s [] k e = cc
join_slash_head c s ([] ∷ []) k e = cc
join_slash_head c s ([] ∷ q ∷ ps) k e = absurd (k.0.0 refl)
join_slash_head c s ((d ∷ p) ∷ []) k e = ground arith
join_slash_head c s ((d ∷ p) ∷ q ∷ ps) k e = ground arith

clean_relative :
    (s : Text) (segs : List Text) → segs ≢ [] → All IsPlain segs → join_slash segs ≡ s → clean s ≡ s
unfolding clean
clean_relative [] segs h k e = absurd (join_slash-ne-nil segs h k e)
clean_relative (c ∷ s) segs h k e = ground (
  arith,
  join_slash_head c s segs k e,
  ap join_slash (relative_segments-join segs h k),
  ap (λ t. join_slash (relative_segments t)) e,
)

pub clean-join :
    (segs : List Text) → segs ≢ [] → All IsPlain segs → clean (join_slash segs) ≡ join_slash segs
clean-join segs h k = clean_relative (join_slash segs) segs h k refl

-- The clean form of a rooted path joins the elements that are left below "/".
pub clean_rooted : (s : Text) → clean (slash ∷ s) ≡ slash ∷ join_slash (rooted_segments s)
unfolding clean
clean_rooted s = ground arith
