-- ===== src/Quota.antt =====
-- internal/quota: the per-user storage limit, and the check before an upload.
pub mod Enforcement
mod Examples
use orbit_depot_prototype.Base.{Bool, Option, none, some, List, if◌then◌else◌}
use orbit_depot_prototype.Base.Int.{ℤ, pos, add64, ltb_ℤ, leb_ℤ}
use orbit_depot_prototype.Base.Text.{Text, lookup}
use orbit_depot_prototype.Base.Exec.{Result, ok, err, Exec}
use orbit_depot_prototype.Store.{StoreError}

-- `ErrExceeded`, and a failed usage read.
pub data QuotaError : Type 0 where
  exceeded : QuotaError
  read_usage : StoreError → QuotaError

-- `Allow`, and the enforcer with its default limit and the overrides by account.
pub data Enforcer : Type 0 where
  allow_all : Enforcer
  enforcer : ℤ → List (Text × ℤ) → Enforcer

abbrev or_default : Option ℤ → ℤ → ℤ
or_default none limit = limit
or_default (some o) limit = o

unfoldable pub limit_of : Enforcer → Text → ℤ
limit_of allow_all account = pos 0
limit_of (enforcer limit overrides) account = or_default (lookup account overrides) limit

-- The store's `Usage` is what the enforcer asks for of the store.
module _ {S : Type 0} (usage : Text → Text → Exec StoreError S ℤ) where
  -- used+addBytes > limit, at type int64
  abbrev compare_usage : ℤ → ℤ → Result StoreError ℤ → Result QuotaError Unit
  compare_usage limit add_bytes (err e) = err (read_usage e)
  compare_usage limit add_bytes (ok used) =
      if ltb_ℤ limit (add64 used add_bytes) then err exceeded else ok tt

  abbrev measured : ℤ → ℤ → Result StoreError ℤ × S → Result QuotaError Unit × S
  measured limit add_bytes r = (compare_usage limit add_bytes r.0, r.1)

  unfoldable pub check : Enforcer → Text → Text → ℤ → Exec QuotaError S Unit
  unfolding limit_of
  check allow_all account issuer add_bytes s = (ok tt, s)
  check (enforcer limit overrides) account issuer add_bytes s =
      let l = limit_of (enforcer limit overrides) account in
      if leb_ℤ l (pos 0) then (ok tt, s) else measured l add_bytes (usage account issuer s)
