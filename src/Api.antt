-- ===== src/Api.antt =====
-- internal/api: the server, what a handler reads and writes, and the steps that the handlers share.
-- A handler that answers with an error code is a failure with that code; the texts are left out.
pub mod Frames
pub mod Upholding
pub mod Upload
pub mod Files
pub mod Keys
pub mod Listing
pub mod Cors
pub mod Samples
mod Examples
use orbit_depot_prototype.Base.{
  ℕ, Bool, true, false, not, ◌&&◌, ◌||◌, Option, none, some, List, [], ◌∷◌, ◌++◌, if◌then◌else◌,
  eqb,
}
use orbit_depot_prototype.Base.Int.{ℤ, pos, eqb_ℤ}
use orbit_depot_prototype.Base.Clock.{Time}
use orbit_depot_prototype.Base.Text.{Text, codes, ◌==◌, trim_space}
use orbit_depot_prototype.Base.Exec.{Result, ok, err, Exec, pure, fail}
use orbit_depot_prototype.Config.Units.{Rate, is_zero_rate}
use orbit_depot_prototype.Http.{Request}
use orbit_depot_prototype.Place.{
  Registry, PlaceError, unknown_place, no_place_specified, identity_required, too_large,
  mime_not_allowed,
}
use orbit_depot_prototype.Place.Key.{Surroundings}
use orbit_depot_prototype.Store.Sqlite.{Db}
use orbit_depot_prototype.Quota.{Enforcer}
use orbit_depot_prototype.Auth.{Authenticator, AuthError, Identity}
use orbit_depot_prototype.Fs.{Driver, Disk}

-- What the handlers change: the database, the files, and the state of the rate limiter.
pub record World (H : Type 0) : Type 0 where
  pub db : Db
  pub disk : Disk
  pub hits : H

-- `ratelimit.Limiter`: `none` where the backend fails.
abbrev pub Limiter : Type 0 → Type 0
Limiter H = Text → Rate → H → Option Bool × H

-- The server with its seams, each of which may be missing, and what it reads of the configuration.
pub record Server (H : Type 0) : Type 0 where
  pub driver : Option Driver
  pub auth : Option Authenticator
  pub places : Option Registry
  pub has_store : Bool
  pub limiter : Option (Limiter H)
  pub quota : Enforcer
  pub rate_per_ip : Rate
  pub rate_per_user : Rate
  pub oneshot_rate : Rate
  pub max_file_size : ℤ
  pub trust_forwarded_for : Bool

-- What a handler reads of its call besides the server: the request, the clock, the host part that
-- `net.SplitHostPort` finds in the remote address, and what the key derivation reads.
pub record Call : Type 0 where
  pub request : Request
  pub now : Time
  pub remote_host : Option Text
  pub surroundings : Surroundings

abbrev until_comma : Text → Text
until_comma [] = []
until_comma (c ∷ s) = let rest = until_comma s in if eqb c b',' then [] else c ∷ rest

abbrev host_or : Option Text → Text → Text
host_or none addr = addr
host_or (some host) addr = host

-- `clientIP`
unfoldable pub client_ip : Bool → Call → Text
client_ip trust c =
    let xff = c.request.header (codes "X-Forwarded-For") in
    let xr = c.request.header (codes "X-Real-IP") in
    if trust && not (xff == [])
    then trim_space (until_comma xff)
    else if trust && not (xr == [])
    then trim_space xr
    else host_or c.remote_host c.request.remote_addr

-- `placeErrorStatus`
unfoldable pub place_error_status : PlaceError → ℕ
place_error_status unknown_place = 404
place_error_status no_place_specified = 400
place_error_status identity_required = 403
place_error_status too_large = 413
place_error_status mime_not_allowed = 415
place_error_status e = 400

abbrev pub Handler : Type 0 → Type 0 → Type 0
Handler H A = Exec ℕ (World H) A

abbrev pub or_status : {E A : Type 0} → (E → ℕ) → Result E A → Result ℕ A
or_status status (ok a) = ok a
or_status status (err e) = err (status e)

abbrev pub unauthenticated : AuthError → ℕ
unauthenticated e = 401

module _ {H : Type 0} where
  abbrev pub on_result : {E A : Type 0} → (E → ℕ) → Result E A → Handler H A
  on_result status r w = (or_status status r, w)

  abbrev pub on_db : {E A : Type 0} → (E → ℕ) → Exec E Db A → Handler H A
  on_db status m w = let x = m w.db in (or_status status x.0, record w { db = x.1 })

  abbrev pub on_disk : {E A : Type 0} → (E → ℕ) → Exec E Disk A → Handler H A
  on_disk status m w = let x = m w.disk in (or_status status x.0, record w { disk = x.1 })

  -- A failure that the code logs and goes on from.
  abbrev pub attempt : {E A : Type 0} → Exec E Disk A → Handler H Unit
  attempt m w = (ok tt, record w { disk = (m w.disk).1 })

  abbrev pub wired : {A : Type 0} → Option A → Handler H A
  wired none w = (err 501, w)
  wired (some a) w = (ok a, w)

  abbrev pub given : {A : Type 0} → Option A → Handler H A
  given none w = (err 400, w)
  given (some a) w = (ok a, w)

  abbrev pub require : Bool → ℕ → Handler H Unit
  require true status w = (ok tt, w)
  require false status w = (err status, w)

  abbrev admitted : Option Bool × H → World H → Result ℕ Unit × World H
  admitted (none, hits) w = (ok tt, record w { hits = hits })
  admitted (some true, hits) w = (ok tt, record w { hits = hits })
  admitted (some false, hits) w = (err 429, record w { hits = hits })

  -- `rateLimit`
  unfoldable pub rate_limit : Option (Limiter H) → Text → Rate → Handler H Unit
  rate_limit none scope rate w = (ok tt, w)
  rate_limit (some limiter) scope rate w =
      if is_zero_rate rate then (ok tt, w) else admitted (limiter scope rate w.hits) w

  -- `s.auth.Authenticate(r)` with its 401
  unfoldable pub authenticate : Authenticator → Request → Handler H Identity
  authenticate auth r = on_db unauthenticated (auth r)
