-- ===== src/RateLimit/Examples.antt =====
-- Runs of the limiter.
use orbit_depot_prototype.Base.{
  arith, ◌*◌, ℕ, zero, suc, ◌≡◌, refl, Bool, true, false, none, [], ◌∷◌,
}
use orbit_depot_prototype.Base.Int.{pos, pos_part}
use orbit_depot_prototype.Base.Clock.{minute, hour}
use orbit_depot_prototype.Base.Text.{codes, ◌==◌, lookup}
use orbit_depot_prototype.RateLimit.{TokenBucket, Memory, sweep, call, tick, answers}
use orbit_depot_prototype.RateLimit.Buckets.{alone, answers-alone, sweep-forgets}

abbrev drawn : ℕ → Bool × ℕ
drawn zero = (false, 0)
drawn (suc n) = (true, n)

-- Tokens that do not come back.
abbrev tokens : TokenBucket
tokens = record { B = ℕ; fresh = λ interval burst. pos_part burst; take = λ now n. drawn n }

answers-alone_example :
    answers tokens
      (codes "a")
      (call (pos 0) (codes "a") (pos 1) (pos hour)
        ∷ call (pos 1) (codes "b") (pos 1) (pos hour)
        ∷ call (pos 2) (codes "a") (pos 1) (pos hour)
        ∷ tick (pos hour)
        ∷ call (pos hour) (codes "a") (pos 1) (pos hour)
        ∷ [])
      []
    ≡ alone tokens
        (codes "a")
        (call (pos 0) (codes "a") (pos 1) (pos hour)
          ∷ call (pos 1) (codes "b") (pos 1) (pos hour)
          ∷ call (pos 2) (codes "a") (pos 1) (pos hour)
          ∷ tick (pos hour)
          ∷ call (pos hour) (codes "a") (pos 1) (pos hour)
          ∷ [])
        none
answers-alone_example = answers-alone tokens (codes "a") (
    call (pos 0) (codes "a") (pos 1) (pos hour)
    ∷ call (pos 1) (codes "b") (pos 1) (pos hour)
    ∷ call (pos 2) (codes "a") (pos 1) (pos hour)
    ∷ tick (pos hour)
    ∷ call (pos hour) (codes "a") (pos 1) (pos hour)
    ∷ [])

-- Five calls in the first second, a tick eleven minutes later, and five more, under five an hour.
abbrev spent : Memory tokens
spent = (codes "a", record { lim = 0; last_seen = pos 0 }) ∷ []

sweep-forgets_example :
    (lookup (codes "a") (sweep tokens (pos (11 * minute)) spent) ≡ none)
    × (answers tokens
          (codes "a")
          (call (pos (12 * minute)) (codes "a") (pos 5) (pos hour) ∷ [])
          (sweep tokens (pos (11 * minute)) spent)
        ≡ answers tokens
            (codes "a")
            (call (pos (12 * minute)) (codes "a") (pos 5) (pos hour) ∷ [])
            [])
unfolding lookup ◌==◌
sweep-forgets_example =
    sweep-forgets tokens (codes "a") (pos (11 * minute))
      (call (pos (12 * minute)) (codes "a") (pos 5) (pos hour) ∷ [])
      (record { lim = 0; last_seen = pos 0 }) spent (refl, tt) refl (omega arith)
