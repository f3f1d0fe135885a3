-- ===== src/Fs/Creation.antt =====
-- `New` of internal/storage/fs/fs.go.
use orbit_depot_prototype.Base.{
  ℕ, Bool, not, ◌||◌, Option, none, some, [], ◌++◌, if◌then◌else◌, eqb,
}
use orbit_depot_prototype.Base.Text.{Text, codes, ◌==◌, trim_right}
use orbit_depot_prototype.Base.Paths.{clean}
use orbit_depot_prototype.Base.Exec.{Result, ok, err, and_then}
use orbit_depot_prototype.Fs.{Driver}

-- A URL as `url.Parse` splits it.
pub record BaseUrl : Type 0 where
  pub scheme : Text
  pub host : Text
  pub path : Text

-- What the driver asks of its host: whether `os.MkdirAll` succeeds, `filepath.Abs`, `url.Parse`, and
-- HMAC-SHA256 under the secret that `rand.Read` fills.
pub record HostSystem : Type 0 where
  pub make_dir : Text → Bool
  pub abs : Text → Option Text
  pub parse_url : Text → Option BaseUrl
  pub hmac : Option (Text → Text)

pub data NewError : Type 0 where
  empty_root no_directory no_absolute_path bad_url relative_url no_random : NewError

abbrev pub or_error : {A : Type 0} → NewError → Option A → Result NewError A
or_error e none = err e
or_error e (some a) = ok a

abbrev pub is_slash : ℕ → Bool
is_slash c = eqb c b'/'

-- `New`
unfoldable pub new_driver : HostSystem → Text → Text → Result NewError Driver
new_driver h root public_url =
    if root == []
    then err empty_root
    else if not (h.make_dir root)
    then err no_directory
    else (and_then (or_error no_absolute_path (h.abs (clean root))) λ abs.
        and_then (or_error bad_url (h.parse_url (trim_right is_slash public_url))) λ base.
          if base.scheme == [] || base.host == []
          then err relative_url
          else (and_then (or_error no_random h.hmac) λ hmac. ok (record {
            root = abs;
            base_host = base.scheme ++ (codes "://" ++ base.host);
            base_path = base.path;
            hmac = hmac;
          })))
