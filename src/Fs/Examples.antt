-- ===== src/Fs/Examples.antt =====
-- Runs of the file-system driver on a small disk.
use orbit_depot_prototype.Base.{
  ◌≡◌, ◌≢◌, ◌↔◌, refl, sym, subst, ◌∙◌, false, Option, none, some, List, [], ◌∷◌, ◌++◌, arith,
  if◌then◌else◌,
}
use orbit_depot_prototype.Base.Int.{max_int64, pos, ◌≤ℤ◌, ◌<ℤ◌}
use orbit_depot_prototype.Base.Clock.{unix, from_unix}
use orbit_depot_prototype.Base.Decimal.{format_int, parse_int}
use orbit_depot_prototype.Base.Text.{Text, codes, ◌==◌, lookup, has_prefix, hex_encode}
use orbit_depot_prototype.Base.Paths.{clean, join_path, split_slash, join_slash}
use orbit_depot_prototype.Base.Paths.Segments.{IsPlain}
use orbit_depot_prototype.Base.Paths.Joining.{IsPlainPath}
use orbit_depot_prototype.Base.Exec.{ok, result-injective}
use orbit_depot_prototype.Http.{Request}
use orbit_depot_prototype.Fs.{
  Driver, Disk, Reader, UploadCap, newline, canonical, mac, verify_upload, disk_path, validate_key,
  write_object, upload_handler,
}
use orbit_depot_prototype.Fs.Paths.{IsRooted, IsBelow, validate_key_iff, disk_path-IsBelow}
use orbit_depot_prototype.Fs.Canonical.{IsInRange}
use orbit_depot_prototype.Fs.Capability.{Carries, verify_upload_sound, verify_upload_forged}
use orbit_depot_prototype.Fs.Writing.{Written, write_object_atomic, write_object_wraps}
use orbit_depot_prototype.Fs.Uploading.{IsStored, upload_handler_gated}

abbrev store_driver : Driver
store_driver = record {
  root = codes "/v";
  base_host = codes "h";
  base_path = [];
  hmac = λ s. codes "m";
}

abbrev blank : Disk
blank = record { files = []; faults = []; leftovers = 0 }

abbrev hello : Reader
hello = record { bytes = codes "hi"; broken = false }

v-IsPlain : IsPlain (codes "v")
unfolding validate_key ◌==◌ has_prefix split_slash
v-IsPlain = ((validate_key_iff (codes "v")).0 refl).0

store_driver-IsRooted : IsRooted store_driver
unfolding join_slash
store_driver-IsRooted = record {
  names = codes "v" ∷ [];
  some_name = λ h. cc h;
  all_plain = (v-IsPlain, tt);
  spelled = refl;
}

validate_key_iff_example : (validate_key (codes "a/b") ≡ ok tt) ↔ IsPlainPath (codes "a/b")
validate_key_iff_example = validate_key_iff (codes "a/b")

disk_path-IsBelow_example : IsBelow store_driver store_driver-IsRooted (codes "/v/a")
unfolding disk_path clean join_path ◌==◌ has_prefix split_slash
disk_path-IsBelow_example =
    disk_path-IsBelow store_driver store_driver-IsRooted (codes "../a") (codes "/v/a") refl

write_object_atomic_example :
    Written store_driver
      (codes "a")
      (pos 5)
      hello
      blank
      (write_object store_driver (codes "a") (pos 5) hello blank)
write_object_atomic_example =
    write_object_atomic store_driver (codes "a") (pos 5) hello blank (omega arith)

abbrev cap : UploadCap
cap = record { key = codes "a"; max_size = pos 5; content_type = codes "t"; expires = pos 0 }

cap-IsInRange : IsInRange cap
unfolding unix
cap-IsInRange = record { size_int64 = (omega arith); expiry_int64 = (omega arith) }

abbrev signed_query : Text → Text
signed_query k =
    if k == codes "exp"
    then codes "0"
    else if k == codes "size"
    then codes "5"
    else if k == codes "ct"
    then codes "t"
    else if k == codes "sig"
    then codes "6d"
    else []

abbrev or_nil : Option Text → Text
or_nil none = []
or_nil (some v) = v

abbrev query_of : List (Text × Text) → Text → Text
query_of params k = or_nil (lookup k params)

query_of-Carries : (params : List (Text × Text)) → Carries (query_of params) params
query_of-Carries params k v h = rw h

verifies : verify_upload store_driver (codes "a") signed_query (pos 0) ≡ ok cap
unfolding verify_upload parse_int format_int mac canonical hex_encode ◌==◌ unix from_unix
verifies = refl

verify_upload_sound_example :
    (cap.key ≡ codes "a")
    × (cap.content_type ≡ signed_query (codes "ct"))
    × (mac store_driver cap ≡ signed_query (codes "sig"))
    × (pos 0 ≤ℤ cap.expires)
verify_upload_sound_example =
    verify_upload_sound store_driver (codes "a") signed_query (pos 0) cap verifies

abbrev put : Request
put = record {
  method = codes "PUT";
  header = λ name. codes "t";
  query = signed_query;
  path_value = codes "a";
  remote_addr = [];
  content_length = pos 2;
}

signed_size :
    (c : UploadCap)
    → verify_upload store_driver (codes "a") signed_query (pos 0) ≡ ok c
    → c.max_size <ℤ pos max_int64
signed_size c h =
    subst (λ x. x.max_size <ℤ pos max_int64) (result-injective (sym verifies ∙ h)) (omega arith)

upload_handler_gated_example :
    ((upload_handler store_driver put hello (pos 0) blank).0 ≢ 201
      → (upload_handler store_driver put hello (pos 0) blank).1.files ≡ blank.files)
    × ((upload_handler store_driver put hello (pos 0) blank).0 ≡ 201
        → (c : UploadCap) × (verify_upload store_driver (codes "a") signed_query (pos 0) ≡ ok c)
          × IsStored store_driver
              (codes "a")
              (codes "t")
              hello
              c
              blank
              (upload_handler store_driver put hello (pos 0) blank).1)
upload_handler_gated_example = upload_handler_gated store_driver put hello (pos 0) blank signed_size

abbrev forged_query : Text → Text
forged_query k =
    if k == codes "exp"
    then codes "0"
    else if k == codes "size"
    then codes "9"
    else if k == codes "sig"
    then codes "6d"
    else codes "t"

verify_upload_forged_example :
    verify_upload store_driver
      (codes "a" ++ (newline ∷ (format_int (pos 5) ++ (newline ∷ codes "b"))))
      forged_query
      (pos 0)
    ≡ ok (record {
      key = codes "a" ++ (newline ∷ (format_int (pos 5) ++ (newline ∷ codes "b")));
      max_size = pos 9;
      content_type = codes "t";
      expires = from_unix (pos 0);
    })
unfolding ◌==◌ format_int mac hex_encode from_unix
verify_upload_forged_example =
    verify_upload_forged store_driver (codes "a") (codes "b") (codes "t") (pos 5) (pos 9) (pos 0)
      forged_query (pos 0) (omega arith) (omega arith) refl refl refl refl (omega arith)

write_object_wraps_example :
    ((write_object store_driver
        (codes "a")
        (pos max_int64)
        hello
        (record { files = []; faults = []; leftovers = 0 })).0
      ≡ ok (pos 0))
    × (lookup
          (codes "/v/a")
          (write_object store_driver
            (codes "a")
            (pos max_int64)
            hello
            (record { files = []; faults = []; leftovers = 0 })).1.files
        ≡ some [])
unfolding disk_path clean join_path ◌==◌ has_prefix split_slash
write_object_wraps_example =
    write_object_wraps store_driver (codes "a") (codes "/v/a") hello [] refl
