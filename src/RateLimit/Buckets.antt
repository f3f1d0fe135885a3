-- ===== src/RateLimit/Buckets.antt =====
-- The limiter against one bucket per key.
use orbit_depot_prototype.Base.{
  ◌*◌, ◌≡◌, refl, sym, ap, ◌∙◌, Bool, true, not, ◌||◌, Option, none, some, List, [], ◌∷◌, arith,
  Bool-cases, inl, inr, if◌then◌else◌, all,
}
use orbit_depot_prototype.Base.Int.{ℤ, pos, leb_ℤ, ◌+ℤ◌, ◌<ℤ◌}
use orbit_depot_prototype.Base.Clock.{Time, minute}
use orbit_depot_prototype.Base.Text.{Text, ◌==◌, ==_iff, ==-refl, lookup}
use orbit_depot_prototype.RateLimit.{
  TokenBucket, Bucket, Memory, put, or_fresh, taken, allow, is_idle, sweep, Event, call, tick,
  answers,
}

module _ (tb : TokenBucket) where
  -- What one key sees: its own bucket, if it has one, at its own calls and at the ticks of the janitor.
  abbrev pub swept : Time → Option (Bucket tb) → Option (Bucket tb)
  swept now none = none
  swept now (some b) = if is_idle tb now b then none else some b

  abbrev pub own_call : Time → ℤ → ℤ → Option (Bucket tb) → Bool × Option (Bucket tb)
  own_call now limit window b =
      let r = taken tb now (or_fresh tb limit window b) in
      if leb_ℤ limit (pos 0) || leb_ℤ window (pos 0) then (true, b) else (r.0, some r.1)

  unfoldable pub alone : Text → List (Event tb) → Option (Bucket tb) → List Bool
  alone key [] b = []
  alone key (call now k limit window ∷ es) b =
      let r = own_call now limit window b in
      let mine = alone key es r.1 in
      let rest = alone key es b in if k == key then r.0 ∷ mine else rest
  alone key (tick now ∷ es) b = alone key es (swept now b)

  lookup-put :
      (key k : Text) (b : Bucket tb) (m : Memory tb)
      → lookup key (put tb k b m) ≡ (if k == key then some b else lookup key m)
  unfolding lookup
  lookup-put key k b [] = refl
  lookup-put key k b ((j, c) ∷ m) =
      ground (arith, ==_iff j k, ==_iff j key, ==_iff k key, lookup-put key k b m)

  -- Keys are found once.
  abbrev pub Distinct : Memory tb → Type 0
  Distinct [] = Unit {0}
  Distinct ((k, b) ∷ m) = (lookup k m ≡ none) × Distinct m

  lookup-sweep :
      (key : Text) (now : Time) (m : Memory tb)
      → Distinct m
      → lookup key (sweep tb now m) ≡ swept now (lookup key m)
  unfolding lookup sweep
  lookup-sweep key now [] d = refl
  lookup-sweep key now ((k, b) ∷ m) (fresh, d) =
      ground (arith, ==_iff k key, ==-refl k, lookup-sweep key now m d, lookup-sweep k now m d)

  put-Distinct : (k : Text) (b : Bucket tb) (m : Memory tb) → Distinct m → Distinct (put tb k b m)
  unfolding lookup
  put-Distinct k b [] d = (refl, tt)
  put-Distinct k b ((j, c) ∷ m) (fresh, d) =
      ground (arith, ==_iff j k, ==_iff k j, lookup-put j k b m, put-Distinct k b m d)

  sweep-Distinct : (now : Time) (m : Memory tb) → Distinct m → Distinct (sweep tb now m)
  unfolding sweep
  sweep-Distinct now [] d = d
  sweep-Distinct now ((k, b) ∷ m) (fresh, d) =
      ground (arith, lookup-sweep k now m d, sweep-Distinct now m d)

  allow-Distinct :
      (now : Time) (k : Text) (limit window : ℤ) (m : Memory tb)
      → Distinct m
      → Distinct (allow tb now k limit window m).1
  unfolding allow
  allow-Distinct now k limit window m d =
      ground (arith, put-Distinct k (taken tb now (or_fresh tb limit window (lookup k m))).1 m d)

  -- A call answers as the key's own bucket does, and leaves every other key's bucket alone.
  allow-own :
      (now : Time) (key k : Text) (limit window : ℤ) (m : Memory tb)
      → (k ≡ key → (allow tb now k limit window m).0 ≡ (own_call now limit window (lookup key m)).0)
        × (lookup key (allow tb now k limit window m).1
            ≡ (if k == key then (own_call now limit window (lookup key m)).1 else lookup key m))
  unfolding allow
  allow-own now key k limit window m = (
    (λ same. ground arith),
    ground (
      arith,
      ==_iff k key,
      lookup-put key k (taken tb now (or_fresh tb limit window (lookup k m))).1 m,
    ),
  )

  answers_from :
      (key : Text) (es : List (Event tb)) (m : Memory tb)
      → Distinct m
      → answers tb key es m ≡ alone key es (lookup key m)
  unfolding answers alone
  answers_from key [] m d = refl
  answers_from key (tick now ∷ es) m d =
      answers_from key es (sweep tb now m) (sweep-Distinct now m d)
      ∙ ap (alone key es) (lookup-sweep key now m d)
  answers_from key (call now k limit window ∷ es) m d =
      let r = allow tb now k limit window m in
      let (answer, bucket) = allow-own now key k limit window m in
      let rest =
        answers_from key es r.1 (allow-Distinct now k limit window m d)
        ∙ ap (alone key es) bucket in
      elim (Bool-cases (k == key)) [
        | inl own ↦ rw own (
            ap (λ x. x ∷ answers tb key es r.1) (answer ((==_iff k key).0 own))
            ∙ ap (λ t. (own_call now limit window (lookup key m)).0 ∷ t) (rest ∙ rw own))
        | inr other ↦ rw other (rest ∙ rw other)
      ]

  -- The keys do not disturb each other: over any sequence of calls on any keys and of ticks of the
  -- janitor, the answers to the calls on a key are those of a limiter that holds a bucket for that key
  -- only and sees nothing of the calls on others.
  pub answers-alone : (key : Text) (es : List (Event tb)) → answers tb key es [] ≡ alone key es none
  unfolding lookup
  answers-alone key es = answers_from key es [] tt

  -- After a tick every bucket that is left was seen within the last ten minutes.
  pub sweep_lem :
      (now : Time) (m : Memory tb) → all (λ e. not (is_idle tb now e.1)) (sweep tb now m) ≡ true
  unfolding sweep
  sweep_lem now [] = refl
  sweep_lem now ((k, b) ∷ m) = ground (arith, sweep_lem now m)

  is_idle-long :
      (b : Bucket tb) (before : Time)
      → b.last_seen +ℤ pos (10 * minute) <ℤ before
      → is_idle tb before b ≡ true
  is_idle-long b before idle = ground arith

  -- A key that was not called for more than ten minutes before a tick of the janitor is forgotten by
  -- it, whatever the window of its limit and whatever it had used up: its bucket is gone, and over any
  -- sequence of calls and ticks that follows, its calls are answered as those of a limiter that has
  -- never seen a call. The table holds one bucket per key.
  pub sweep-forgets :
      (key : Text) (before : Time) (es : List (Event tb)) (b : Bucket tb) (m : Memory tb)
      → Distinct m
      → lookup key m ≡ some b
      → b.last_seen +ℤ pos (10 * minute) <ℤ before
      → (lookup key (sweep tb before m) ≡ none)
        × (answers tb key es (sweep tb before m) ≡ answers tb key es [])
  unfolding lookup
  sweep-forgets key before es b m d held idle =
      let gone : lookup key (sweep tb before m) ≡ none =
        lookup-sweep key before m d ∙ rw held (rw (is_idle-long b before idle)) in
      (
        gone,
        answers_from key es (sweep tb before m) (sweep-Distinct before m d)
            ∙ ap (alone key es) gone
            ∙ sym (answers-alone key es),
      )
