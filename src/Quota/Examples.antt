-- ===== src/Quota/Examples.antt =====
-- Runs of the quota check against a store that reports a fixed usage.
use orbit_depot_prototype.Base.{◌≡◌, refl, arith, [], if◌then◌else◌, ◌+◌}
use orbit_depot_prototype.Base.Int.{ℤ, pos, leb_ℤ, max_int64}
use orbit_depot_prototype.Base.Text.{Text, codes}
use orbit_depot_prototype.Base.Exec.{ok, err, Exec}
use orbit_depot_prototype.Store.{StoreError}
use orbit_depot_prototype.Quota.{Enforcer, enforcer, exceeded, limit_of, check}
use orbit_depot_prototype.Quota.Enforcement.{check_exact, check_overflow}

abbrev seven : Text → Text → Exec StoreError Unit ℤ
seven account issuer s = (ok (pos 7), s)

abbrev most : Text → Text → Exec StoreError Unit ℤ
most account issuer s = (ok (pos max_int64), s)

abbrev ten : Enforcer
ten = enforcer (pos 10) []

check_exact_example : (check seven ten (codes "ann") (codes "i") (pos 4) tt).0 ≡ (
    if leb_ℤ (limit_of ten (codes "ann")) (pos 0)
    then ok tt
    else if leb_ℤ (pos (7 + 4)) (limit_of ten (codes "ann"))
    then ok tt
    else err exceeded)
check_exact_example = check_exact seven ten (codes "ann") (codes "i") 7 4 tt refl (omega arith)

check_overflow_example : (check most ten (codes "ann") (codes "i") (pos 1) tt).0 ≡ ok tt
check_overflow_example =
    check_overflow most ten (codes "ann") (codes "i") max_int64 1 tt refl (omega arith)
      (omega arith) (omega arith)
