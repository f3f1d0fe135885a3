-- ===== src/Base/Paths.antt =====
-- Slash-separated paths: `strings.Split(s, "/")`, and `path.Clean` and `path.Join` of Go.
pub mod Segments
pub mod Cleaning
pub mod Joining
pub mod Nesting
use Prim.Native.Nat.{ℕ}
use mathlib.Core.Path.{◌≡◌, refl}
use mathlib.Core.Logic.{◌≢◌}
use mathlib.Core.Bool.{Bool, true, false, ◌&&◌, ◌||◌}
use mathlib.Core.List.{List, [], ◌∷◌, ◌++◌, reverse}
use native.Mathlib.Omega.{arith}
use orbit_depot_prototype.Base.Tests.{eqb, if◌then◌else◌}
use orbit_depot_prototype.Base.Lists.{All, keep}
use orbit_depot_prototype.Base.Text.{Text, codes, ◌==◌, ==_iff, has_prefix}

abbrev pub slash : ℕ
slash = b'/'

abbrev push_head : ℕ → List Text → List Text
push_head c [] = (c ∷ []) ∷ []
push_head c (p ∷ ps) = (c ∷ p) ∷ ps

-- `strings.Split(s, "/")`
unfoldable pub split_slash : Text → List Text
split_slash [] = [] ∷ []
split_slash (c ∷ s) =
    let rest = split_slash s in if eqb c slash then [] ∷ rest else push_head c rest

unfoldable pub join_slash : List Text → Text
join_slash [] = []
join_slash (p ∷ []) = p
join_slash (p ∷ q ∷ ps) = p ++ (slash ∷ join_slash (q ∷ ps))

-- One element of `path.Clean`; the stack has the last element at its head.
abbrev back_up : Bool → List Text → List Text
back_up true [] = []
back_up false [] = codes ".." ∷ []
back_up true (top ∷ stack) = stack
back_up false (top ∷ stack) = if top == codes ".." then codes ".." ∷ top ∷ stack else stack

pub resolve_segment : Bool → List Text → Text → List Text
resolve_segment rooted stack seg =
    if seg == [] || seg == codes "."
    then stack
    else if seg == codes ".."
    then back_up rooted stack
    else seg ∷ stack

pub resolve_segments : Bool → List Text → List Text → List Text
unfolding resolve_segment
resolve_segments rooted stack [] = stack
resolve_segments rooted stack (seg ∷ segs) =
    resolve_segments rooted (resolve_segment rooted stack seg) segs

-- The elements of `path.Clean` of a rooted path.
unfoldable pub rooted_segments : Text → List Text
unfolding resolve_segments split_slash
rooted_segments s = reverse (resolve_segments true [] (split_slash s))

-- The elements of `path.Clean` of a path that is not rooted.
unfoldable pub relative_segments : Text → List Text
unfolding resolve_segments split_slash
relative_segments s = reverse (resolve_segments false [] (split_slash s))

abbrev or_dot : Text → Text
or_dot [] = codes "."
or_dot (c ∷ s) = c ∷ s

-- `path.Clean`
unfoldable pub clean : Text → Text
unfolding rooted_segments relative_segments join_slash
clean [] = codes "."
clean (c ∷ s) =
    if eqb c slash
    then slash ∷ join_slash (rooted_segments s)
    else or_dot (join_slash (relative_segments (c ∷ s)))

abbrev not_empty : Text → Bool
not_empty [] = false
not_empty (c ∷ s) = true

-- `path.Join`: the elements that are not empty, joined and cleaned; "" where there is none.
abbrev join_kept : List Text → Text
join_kept [] = []
join_kept (p ∷ ps) = clean (join_slash (p ∷ ps))

unfoldable pub join_path : List Text → Text
unfolding clean join_slash
join_path elems = join_kept (keep not_empty elems)
