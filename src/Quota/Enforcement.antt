-- ===== src/Quota/Enforcement.antt =====
-- `Check` of internal/quota/enforce.go.
use orbit_depot_prototype.Base.{ℕ, ◌+◌, ◌≤◌, ◌<◌, ◌≡◌, refl, List, if◌then◌else◌, arith}
use orbit_depot_prototype.Base.Int.{ℤ, pos, add64-pos, add64_overflow, max_int64, ◌<ℤ◌, leb_ℤ}
use orbit_depot_prototype.Base.Text.{Text}
use orbit_depot_prototype.Base.Exec.{ok, err, Exec}
use orbit_depot_prototype.Store.{StoreError}
use orbit_depot_prototype.Quota.{
  Enforcer, allow_all, enforcer, exceeded, read_usage, limit_of, check,
}

module _ {S : Type 0} (usage : Text → Text → Exec StoreError S ℤ) where
  -- If the usage read succeeds, and the usage and the upload together fit an `int64`, the check
  -- passes exactly if the account's resolved limit is not positive or the total stays within it;
  -- otherwise the answer is `ErrExceeded`.
  pub check_exact :
      (e : Enforcer) (account issuer : Text) (used add : ℕ) (s : S)
      → (usage account issuer s).0 ≡ ok (pos used)
      → used + add ≤ max_int64
      → (check usage e account issuer (pos add) s).0 ≡ (
          if leb_ℤ (limit_of e account) (pos 0)
          then ok tt
          else if leb_ℤ (pos (used + add)) (limit_of e account)
          then ok tt
          else err exceeded)
  unfolding check
  check_exact allow_all account issuer used add s read fits = refl
  check_exact (enforcer limit overrides) account issuer used add s read fits =
      ground (arith, add64-pos used add)

  -- A usage read that fails is never mistaken for an exceeded quota, and never admits an upload
  -- under a positive limit.
  pub check_read_error :
      (limit : ℤ) (overrides : List (Text × ℤ)) (account issuer : Text) (add : ℤ) (s : S)
      (e : StoreError)
      → (usage account issuer s).0 ≡ err e
      → pos 0 <ℤ limit_of (enforcer limit overrides) account
      → (check usage (enforcer limit overrides) account issuer add s).0 ≡ err (read_usage e)
  unfolding check
  check_read_error limit overrides account issuer add s e read positive = ground arith

  -- The sum of the usage and the upload is taken at type `int64`: where it passes the largest one,
  -- it wraps to a negative number, and the check passes under every limit.
  pub check_overflow :
      (e : Enforcer) (account issuer : Text) (used add : ℕ) (s : S)
      → (usage account issuer s).0 ≡ ok (pos used)
      → used ≤ max_int64
      → add ≤ max_int64
      → max_int64 < used + add
      → (check usage e account issuer (pos add) s).0 ≡ ok tt
  unfolding check
  check_overflow allow_all account issuer used add s read hu ha h = refl
  check_overflow (enforcer limit overrides) account issuer used add s read hu ha h =
      ground (arith, add64_overflow used add)
