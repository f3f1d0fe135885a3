-- ===== src/Main/Credentials.antt =====
-- The token path of `buildAuth` of cmd/depot, part by part.
use orbit_depot_prototype.Base.{
  ◌≡◌, refl, subst, Bool, true, false, Option, none, some, if◌then◌else◌,
}
use orbit_depot_prototype.Base.Text.{Text}
use orbit_depot_prototype.Base.Exec.{Result, ok, err, result-injective}
use orbit_depot_prototype.Http.{Request}
use orbit_depot_prototype.Store.Sqlite.{Db}
use orbit_depot_prototype.Auth.{Authenticator, service_identity, token_router, with_service_key}
use orbit_depot_prototype.Auth.Evidence.{IsService}
use orbit_depot_prototype.Auth.Invariant.{
  Evidence, Resolves, WiredResolves, with_service_key-WiredResolves, token_router-Resolves,
}
use orbit_depot_prototype.Auth.Downgrade.{
  NeverDowngrades, KeepsUploads, Wired, token_router-NeverDowngrades,
  with_service_key-NeverDowngrades, token_router-KeepsUploads, with_service_key-KeepsUploads,
}
use orbit_depot_prototype.Main.{BuildError, routed}

-- What the parts of the token path guarantee, for the whole of it.
pub record Sound (P : Evidence) (a : Authenticator) : Type 0 where
  pub backed : Resolves P a
  pub keeps : KeepsUploads a
  pub named : NeverDowngrades a

abbrev pub is_some : Option Authenticator → Bool
is_some none = false
is_some (some a) = true

module _ (P : Evidence) where
  abbrev pub WiredSound : Option Authenticator → Type 0
  WiredSound none = Unit
  WiredSound (some a) = Sound P a

  backed_of : (o : Option Authenticator) → WiredSound o → WiredResolves P o
  backed_of none s = tt
  backed_of (some a) s = s.backed

  keeps_of : (o : Option Authenticator) → WiredSound o → Wired KeepsUploads o
  keeps_of none s = tt
  keeps_of (some a) s = s.keeps

  named_of : (o : Option Authenticator) → WiredSound o → Wired NeverDowngrades o
  named_of none s = tt
  named_of (some a) s = s.named

  token_router-Sound :
      (o k : Option Authenticator) → WiredSound o → WiredSound k → Sound P (token_router o k)
  token_router-Sound o k so sk = record {
    backed = token_router-Resolves P o k (backed_of o so) (backed_of k sk);
    keeps = token_router-KeepsUploads o k (keeps_of o so) (keeps_of k sk);
    named = token_router-NeverDowngrades o k (named_of o so) (named_of k sk);
  }

  pub routed-Sound :
      (o k : Option Authenticator) → WiredSound o → WiredSound k → WiredSound (routed o k)
  routed-Sound none none so sk = tt
  routed-Sound none (some k) so sk = token_router-Sound none (some k) so sk
  routed-Sound (some o) k so sk = token_router-Sound (some o) k so sk

  join_sound :
      (o : Option Authenticator)
      → WiredResolves P o
      → Wired KeepsUploads o
      → Wired NeverDowngrades o
      → WiredSound o
  join_sound none g k n = tt
  join_sound (some a) g k n = record { backed = g; keeps = k; named = n }

  pub with_service_key-Sound :
      (key : Text) (o : Option Authenticator)
      → ((r : Request) (db : Db) → IsService key r service_identity → P r db service_identity)
      → WiredSound o
      → WiredSound (with_service_key key o)
  with_service_key-Sound key o own s =
      join_sound (with_service_key key o)
        (with_service_key-WiredResolves P key o own (backed_of o s))
        (with_service_key-KeepsUploads key o (keeps_of o s))
        (with_service_key-NeverDowngrades key o (named_of o s))

  -- An enabled credential that builds is there.
  pub part_built :
      (enabled fits : Bool) (a : Authenticator) (e : BuildError) (o : Option Authenticator)
      → (enabled ≡ true → Sound P a)
      → ◌≡◌ {A = Result BuildError (Option Authenticator)}
          (if enabled then (if fits then ok (some a) else err e) else ok none)
          (ok o)
      → WiredSound o × (is_some o ≡ enabled)
  part_built false fits a e o s h =
      subst (λ v. WiredSound v × (is_some v ≡ false)) (result-injective h) (tt, refl)
  part_built true false a e o s h = cc h
  part_built true true a e o s h =
      subst (λ v. WiredSound v × (is_some v ≡ true)) (result-injective h) (s refl, refl)
