-- ===== src/Fs.antt =====
-- internal/storage/fs: the driver that keeps objects on local disk and proxies the transfers.
pub mod Creation
pub mod Paths
pub mod Canonical
pub mod Capability
pub mod Writing
pub mod Uploading
mod Examples
use orbit_depot_prototype.Base.{
  ◌+◌, ℕ, suc, ◌*◌, ◌/◌, Bool, true, false, not, ◌&&◌, ◌||◌, Option, none, some, List, [], ◌∷◌,
  ◌++◌, if◌then◌else◌, length, take, any, keep, leb,
}
use orbit_depot_prototype.Base.Int.{ℤ, pos, negsuc, ◌+ℤ◌, add64, sub_ℕ, ltb_ℤ, leb_ℤ}
use orbit_depot_prototype.Base.Clock.{Time, after, unix, from_unix, second, minute}
use orbit_depot_prototype.Base.Decimal.{format_int, parse_int}
use orbit_depot_prototype.Base.Text.{Text, codes, ◌==◌, has_prefix, hex_encode, lookup}
use orbit_depot_prototype.Base.Paths.{slash, split_slash, clean, join_path}
use orbit_depot_prototype.Base.Exec.{Result, ok, err, Exec, pure, fail, ◌>>=◌, ◌>>◌}
use orbit_depot_prototype.Http.{Request}

-- The error values of the package, `storage.ErrTooLarge`, and any error of the file system.
pub data FsError : Type 0 where
  bad_capability bad_signature expired invalid_key too_large io_error : FsError

-- The driver; the public base URL is split into what stands before its path and the path.
-- `hmac` is HMAC-SHA256 under the driver's secret.
pub record Driver : Type 0 where
  pub root : Text
  pub base_host : Text
  pub base_path : Text
  pub hmac : Text → Text

-- The files below the root by their path, and whether the next system calls fail.
pub record Disk : Type 0 where
  pub files : List (Text × Text)
  pub faults : List Bool
  pub leftovers : ℕ

pub record Constraints : Type 0 where
  pub content_type : Text
  pub max_size : ℤ
  pub expiry : ℤ

-- A URL of the depot: what stands before the path, the path, and the query.
pub record Url : Type 0 where
  pub host : Text
  pub path : Text
  pub params : List (Text × Text)

pub record UploadTarget : Type 0 where
  pub url : Url
  pub method : Text
  pub object_key : Text
  pub expires_in : ℤ

abbrev is_bad_segment : Text → Bool
is_bad_segment seg = seg == [] || (seg == codes "." || seg == codes "..")

unfoldable pub validate_key : Text → Result FsError Unit
validate_key key =
    if key == [] || has_prefix key (slash ∷ [])
    then err invalid_key
    else if any is_bad_segment (split_slash key)
    then err invalid_key
    else ok tt

abbrev within_root : Text → Text → Result FsError Text
within_root root p =
    if not (p == root) && not (has_prefix p (root ++ (slash ∷ []))) then err invalid_key else ok p

unfoldable pub disk_path : Driver → Text → Result FsError Text
disk_path d key =
    let cleaned = clean (slash ∷ key) in
    if cleaned == slash ∷ []
    then err invalid_key
    else within_root d.root (join_path (d.root ∷ cleaned ∷ []))

pub record UploadCap : Type 0 where
  pub key : Text
  pub max_size : ℤ
  pub content_type : Text
  pub expires : Time

abbrev pub newline : ℕ
newline = 10

-- "%s\n%d\n%s\n%d"
unfoldable pub canonical : UploadCap → Text
canonical c =
    c.key
    ++ (newline
        ∷ (format_int c.max_size
            ++ (newline ∷ (c.content_type ++ (newline ∷ format_int (unix c.expires))))))

unfoldable pub mac : Driver → UploadCap → Text
mac d c = hex_encode (d.hmac (canonical c))

unfoldable pub sign_upload : Driver → UploadCap → List (Text × Text)
sign_upload d c =
    (codes "exp", format_int (unix c.expires))
    ∷ (codes "size", format_int c.max_size)
    ∷ (codes "ct", c.content_type)
    ∷ (codes "sig", mac d c)
    ∷ []

abbrev pub check_cap : Driver → UploadCap → Text → Time → Result FsError UploadCap
check_cap d c sig now =
    if not (mac d c == sig)
    then err bad_signature
    else if after now c.expires
    then err expired
    else ok c

-- The capability of the query. Its expiry is a time on an unbounded clock; Go's `time.Unix` wraps for
-- seconds that are within 62135596800 of the largest int64.
abbrev pub read_cap :
    Driver → Text → Text → Text → Option ℤ → Option ℤ → Time → Result FsError UploadCap
read_cap d key ct sig none size now = err bad_capability
read_cap d key ct sig (some exp) none now = err bad_capability
read_cap d key ct sig (some exp) (some size) now =
    check_cap d (record { key = key; max_size = size; content_type = ct; expires = from_unix exp })
      sig now

unfoldable pub verify_upload : Driver → Text → (Text → Text) → Time → Result FsError UploadCap
verify_upload d key q now =
    read_cap d key (q (codes "ct")) (q (codes "sig")) (parse_int (q (codes "exp")))
      (parse_int (q (codes "size"))) now

abbrev transfer_prefix : Text
transfer_prefix = codes "/transfer/"

abbrev transfer_path : Driver → Text → Text
transfer_path d key = join_path (d.base_path ∷ transfer_prefix ∷ key ∷ [])

-- `int(time.Until(expires).Seconds())`, with the clock read once
abbrev whole_seconds : ℤ → ℤ
whole_seconds (pos n) = pos (n / second)
whole_seconds (negsuc n) = sub_ℕ 0 (suc n / second)

abbrev pub on_valid {ℓ} : {A : Type ℓ} → Result FsError Unit → (FsError → A) → A → A
on_valid (err e) bad good = bad e
on_valid (ok u) bad good = good

unfoldable pub presign_upload : Driver → Text → Constraints → Time → Result FsError UploadTarget
presign_upload d key c now = on_valid (validate_key key) err (
    ok (record {
      url = record {
        host = d.base_host;
        path = transfer_path d key;
        params = sign_upload d (record {
          key = key;
          max_size = c.max_size;
          content_type = c.content_type;
          expires = now +ℤ c.expiry;
        });
      };
      method = codes "PUT";
      object_key = key;
      expires_in = whole_seconds c.expiry;
    }))

unfoldable pub resolve_download : Driver → Text → Result FsError Url
resolve_download d key =
    on_valid (validate_key key) err
      (ok (record { host = d.base_host; path = transfer_path d key; params = [] }))

abbrev answer : Bool → Result FsError Unit
answer true = err io_error
answer false = ok tt

abbrev pub next_call : List Bool → Bool
next_call [] = false
next_call (f ∷ fs) = f

abbrev pub later_calls : List Bool → List Bool
later_calls [] = []
later_calls (f ∷ fs) = fs

-- One system call, as far as it may fail.
unfoldable pub system_call : Exec FsError Disk Unit
system_call disk =
    (answer (next_call disk.faults), record disk { faults = later_calls disk.faults })

abbrev lift : {A : Type 0} → Result FsError A → Exec FsError Disk A
lift r disk = (r, disk)

abbrev set_file : Text → Text → Exec FsError Disk Unit
set_file p content disk =
    (ok tt, record disk { files = (p, content) ∷ keep (λ f. not (f.0 == p)) disk.files })

abbrev remove_file : Text → Exec FsError Disk Unit
remove_file p disk = (ok tt, record disk { files = keep (λ f. not (f.0 == p)) disk.files })

-- A body that yields its bytes and then ends, or breaks off with an error.
pub record Reader : Type 0 where
  pub bytes : Text
  pub broken : Bool

-- `io.LimitReader` with `N` bytes left: nothing where `N` is not positive.
abbrev pub limited : ℤ → Text → Text
limited (pos n) s = take n s
limited (negsuc n) s = []

-- What `io.Copy` moves of the body, and whether it meets the body's error.
abbrev pub copied : ℤ → Reader → Text
copied max_size r =
    if ltb_ℤ (pos 0) max_size then limited (add64 max_size (pos 1)) r.bytes else r.bytes

abbrev pub breaks_off : ℤ → Reader → Bool
breaks_off max_size r =
    r.broken
    && (not (ltb_ℤ (pos 0) max_size) || ltb_ℤ (pos (length r.bytes)) (add64 max_size (pos 1)))

abbrev require : Bool → FsError → Exec FsError Disk Unit
require true e disk = (ok tt, disk)
require false e disk = (err e, disk)

-- A step whose error is looked at later, or never.
abbrev attempted : {A : Type 0} → Exec FsError Disk A → Exec FsError Disk (Result FsError A)
attempted step disk = (ok (step disk).0, (step disk).1)

abbrev removal : Disk → Disk
removal disk = record disk {
  leftovers = if next_call disk.faults then disk.leftovers + 1 else disk.leftovers;
  faults = later_calls disk.faults;
}

-- The deferred `os.Remove` of the temporary file: after a rename there is none, and its error is
-- dropped.
abbrev or_removed : {A : Type 0} → Result FsError A × Disk → Result FsError A × Disk
or_removed (ok a, disk) = (ok a, disk)
or_removed (err e, disk) = (err e, removal disk)

-- From the copy into the temporary file to the rename. The file is closed whether the copy fails or
-- not, and the error of that is dropped.
abbrev fill : Text → ℤ → Reader → Exec FsError Disk ℤ
fill dst max_size r = do
  copying ← attempted system_call
  attempted system_call
  lift copying
  let n = pos (length (copied max_size r))
  require (not (breaks_off max_size r)) io_error
  require (not (ltb_ℤ (pos 0) max_size && ltb_ℤ max_size n)) too_large
  system_call
  set_file dst (copied max_size r)
  pure n

-- `writeObject`
unfoldable pub write_object : Driver → Text → ℤ → Reader → Exec FsError Disk ℤ
write_object d key max_size r = do
  dst ← lift (disk_path d key)
  system_call
  system_call
  λ disk. or_removed (fill dst max_size r disk)

-- `PutObject`
unfoldable pub put_object : Driver → Text → Constraints → Reader → Exec FsError Disk ℤ
put_object d key c r = do lift (validate_key key); write_object d key c.max_size r

-- `DeleteObject`: a file that does not exist is not an error.
unfoldable pub delete_object : Driver → Text → Exec FsError Disk Unit
delete_object d key = do
  lift (validate_key key)
  p ← lift (disk_path d key)
  system_call
  remove_file p

abbrev pub cap_status : FsError → ℕ
cap_status expired = 410
cap_status e = 403

abbrev pub write_status : Result FsError ℤ → ℕ
write_status (ok n) = 201
write_status (err too_large) = 413
write_status (err invalid_key) = 400
write_status (err e) = 500

abbrev pub written : Result FsError ℤ × Disk → ℕ × Disk
written r = (write_status r.0, r.1)

abbrev pub receive : Driver → Text → Text → ℤ → Reader → Result FsError UploadCap → Disk → ℕ × Disk
receive d key content_type content_length body (err e) disk = (cap_status e, disk)
receive d key content_type content_length body (ok c) disk =
    if not (c.content_type == []) && not (content_type == c.content_type)
    then (415, disk)
    else if ltb_ℤ (pos 0) c.max_size && ltb_ℤ c.max_size content_length
    then (413, disk)
    else written (write_object d key c.max_size body disk)

-- `UploadHandler`: the status of the answer, and the disk behind it.
unfoldable pub upload_handler : Driver → Request → Reader → Time → Disk → ℕ × Disk
upload_handler d r body now disk =
    receive d r.path_value (r.header (codes "Content-Type")) r.content_length body
      (verify_upload d r.path_value r.query now) disk

abbrev found : Option Text → Result ℕ Text
found none = err 404
found (some content) = ok content

abbrev served : Disk → Result FsError Text → Result ℕ Text
served disk (err e) = err 400
served disk (ok p) = found (lookup p disk.files)

-- `DownloadHandler`: the bytes that are served, or the status of the refusal.
unfoldable pub download_handler : Driver → Request → Disk → Result ℕ Text
download_handler d r disk = served disk (disk_path d r.path_value)
