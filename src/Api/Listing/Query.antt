-- ===== src/Api/Listing/Query.antt =====
-- `boundedInt`, `listQuery` and `uploadersQuery`.
use orbit_depot_prototype.Base.{
  ◌≤◌, ◌≡◌, ◌≢◌, refl, sym, ap, subst, ◌∙◌, Bool, true, false, ◌&&◌, ◌||◌, Option, none, some, [],
  arith, if◌then◌else◌, inl, inr, Bool-cases,
}
use orbit_depot_prototype.Base.Int.{ℤ, pos, negsuc, IsInt64, leb_ℤ}
use orbit_depot_prototype.Base.Decimal.{format_int, parse_int, parse_int-format_int}
use orbit_depot_prototype.Base.Text.{Text, codes, ◌==◌, ==_iff}
use orbit_depot_prototype.Base.Exec.{ok, err, and_then-ok, result-injective}
use orbit_depot_prototype.Store.{ListUploadsQuery, valid_sort, valid_order}
use orbit_depot_prototype.Api.Listing.{
  bad_query, within, bounded_int, default_list_limit, max_list_limit, natural, conforms, list_query,
}

format_int-ne-nil : (n : ℤ) → IsInt64 n → (format_int n == []) ≡ false
unfolding parse_int
format_int-ne-nil n h = elim (Bool-cases (format_int n == [])) [
  | inl empty ↦ absurd (
      none_some
        (ap parse_int (sym ((==_iff (format_int n) []).0 empty)) ∙ parse_int-format_int n h))
  | inr filled ↦ filled
]
  where
    none_some : ◌≢◌ {A = Option ℤ} none (some n)
    none_some e = cc

-- A parameter that prints an `int64` is taken exactly if it is at least the minimum and, where there
-- is a positive maximum, at most that; any other is refused, never adjusted.
pub bounded_int-format_int :
    (n def min max : ℤ)
    → IsInt64 n
    → bounded_int (format_int n) def min max
      ≡ (if leb_ℤ min n && (leb_ℤ max (pos 0) || leb_ℤ n max) then ok n else err bad_query)
unfolding bounded_int
bounded_int-format_int n def min max h =
    rw (format_int-ne-nil n h) (rw (parse_int-format_int n h) (ground arith))

bounded_limit :
    (t : Text) (n : ℤ)
    → bounded_int t default_list_limit (pos 1) max_list_limit ≡ ok n
    → (1 ≤ natural n) × (natural n ≤ 200)
unfolding bounded_int
bounded_limit t n h = elim (Bool-cases (t == [])) [
  | inl empty ↦
      subst (λ m. (1 ≤ natural m) × (natural m ≤ 200)) (result-injective (rw empty at h))
        (omega arith, omega arith)
  | inr filled ↦ bounded (parse_int t) (rw filled at h)
]
  where
    bounded :
        (o : Option ℤ)
        → within (pos 1) max_list_limit o ≡ ok n
        → (1 ≤ natural n) × (natural n ≤ 200)
    bounded none e = cc e
    bounded (some (pos m)) e = ground arith
    bounded (some (negsuc m)) e = ground arith

conforms-ok : (b : Bool) (u : Unit {0}) → conforms b ≡ ok u → b ≡ true
conforms-ok true u h = refl
conforms-ok false u h = cc h

-- A query that is accepted asks for at least one row and for at most 200, sorts by an allowed column
-- in an allowed direction or by the default, and leaves the owner and the content type open.
pub list_query_lem :
    (v : Text → Text) (q : ListUploadsQuery)
    → list_query v ≡ ok q
    → (1 ≤ q.limit)
      × (q.limit ≤ 200)
      × ((q.sort == [] || valid_sort q.sort) ≡ true)
      × ((q.order == [] || valid_order q.order) ≡ true)
      × (q.account ≡ [])
      × (q.issuer ≡ [])
      × (q.content_type ≡ [])
unfolding list_query
list_query_lem v q h =
    let (limit, hl, r1) =
      and_then-ok (bounded_int (v (codes "limit")) default_list_limit (pos 1) max_list_limit) _ q
        h in
    let (offset, ho, r2) =
      and_then-ok (bounded_int (v (codes "offset")) (pos 0) (pos 0) (pos 0)) _ q r1 in
    let (u, hs, r3) =
      and_then-ok (conforms (v (codes "sort") == [] || valid_sort (v (codes "sort")))) _ q r2 in
    let (w, hd, r4) =
      and_then-ok (conforms (v (codes "order") == [] || valid_order (v (codes "order")))) _ q r3 in
    let (low, high) = bounded_limit (v (codes "limit")) limit hl in
    subst
      (λ q.
        (1 ≤ q.limit)
        × (q.limit ≤ 200)
        × ((q.sort == [] || valid_sort q.sort) ≡ true)
        × ((q.order == [] || valid_order q.order) ≡ true)
        × (q.account ≡ [])
        × (q.issuer ≡ [])
        × (q.content_type ≡ []))
      (result-injective r4) (low, high, conforms-ok _ u hs, conforms-ok _ w hd, refl, refl, refl)
