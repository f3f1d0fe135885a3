-- ===== src/RateLimit.antt =====
-- internal/ratelimit/memory.go: the limiter in the memory of one instance, a token bucket per key.
pub mod Buckets
mod Examples
use orbit_depot_prototype.Base.{
  Bool, true, false, not, ◌&&◌, ◌||◌, Option, none, some, List, [], ◌∷◌, ℕ, ◌*◌, ◌/◌, if◌then◌else◌,
}
use orbit_depot_prototype.Base.Int.{ℤ, pos, pos_part, ◌+ℤ◌, leb_ℤ, ltb_ℤ}
use orbit_depot_prototype.Base.Clock.{Time, minute}
use orbit_depot_prototype.Base.Text.{Text, ◌==◌, lookup}
use orbit_depot_prototype.Config.Units.{Rate}

-- `golang.org/x/time/rate`: `fresh` is `NewLimiter(Every(interval), burst)`, and `take` is `Allow` at
-- a time.
pub record TokenBucket : Type 1 where
  pub B : Type 0
  pub fresh : ℤ → ℤ → B
  pub take : Time → B → Bool × B

abbrev pub idle_ttl : ℤ
idle_ttl = pos (10 * minute)

module _ (tb : TokenBucket) where
  pub record Bucket : Type 0 where
    pub lim : tb.B
    pub last_seen : Time

  -- The map of the buckets by their keys.
  abbrev pub Memory : Type 0
  Memory = List (Text × Bucket)

  abbrev pub put : Text → Bucket → Memory → Memory
  put key b [] = (key, b) ∷ []
  put key b ((k, c) ∷ m) = let rest = put key b m in if k == key then (k, b) ∷ m else (k, c) ∷ rest

  -- The bucket of a key, or a new one that bursts up to the limit.
  abbrev pub or_fresh : ℤ → ℤ → Option Bucket → tb.B
  or_fresh limit window none = tb.fresh (pos (pos_part window / pos_part limit)) limit
  or_fresh limit window (some b) = b.lim

  abbrev pub taken : Time → tb.B → Bool × Bucket
  taken now lim = let r = tb.take now lim in (r.0, record { lim = r.1; last_seen = now })

  -- `Allow`
  unfoldable pub allow : Time → Text → ℤ → ℤ → Memory → Bool × Memory
  allow now key limit window m =
      let r = taken now (or_fresh limit window (lookup key m)) in
      if leb_ℤ limit (pos 0) || leb_ℤ window (pos 0) then (true, m) else (r.0, put key r.1 m)

  abbrev pub is_idle : Time → Bucket → Bool
  is_idle now b = ltb_ℤ (b.last_seen +ℤ idle_ttl) now

  -- One tick of `janitor`.
  unfoldable pub sweep : Time → Memory → Memory
  sweep now [] = []
  sweep now ((k, b) ∷ m) = let rest = sweep now m in if is_idle now b then rest else (k, b) ∷ rest

  -- What happens to the limiter under its lock, one after the other.
  pub data Event : Type 0 where
    call : Time → Text → ℤ → ℤ → Event
    tick : Time → Event

  -- The answers to the calls on a key, in order.
  unfoldable pub answers : Text → List Event → Memory → List Bool
  answers key [] m = []
  answers key (call now k limit window ∷ es) m =
      let r = allow now k limit window m in
      let rest = answers key es r.1 in if k == key then r.0 ∷ rest else rest
  answers key (tick now ∷ es) m = answers key es (sweep now m)
