-- ===== src/Fs/Uploading.antt =====
-- The proxied upload: what the upload endpoint writes, and when.
use orbit_depot_prototype.Base.{
  ◌≡◌, ◌≢◌, refl, subst, Bool, true, false, not, ◌&&◌, some, [], if◌then◌else◌, arith, length,
}
use orbit_depot_prototype.Base.Int.{max_int64, ℤ, pos, ◌≤ℤ◌, ◌<ℤ◌, ltb_ℤ}
use orbit_depot_prototype.Base.Clock.{Time}
use orbit_depot_prototype.Base.Text.{Text, codes, ◌==◌, ==_iff, lookup}
use orbit_depot_prototype.Base.Exec.{Result, ok, err, is_ok}
use orbit_depot_prototype.Http.{Request}
use orbit_depot_prototype.Fs.{
  Driver, Disk, FsError, UploadCap, Reader, cap_status, write_status, written, receive, disk_path,
  verify_upload, write_object, upload_handler,
}
use orbit_depot_prototype.Fs.Writing.{Written, failed_write, write_object_atomic}

-- What a stored body satisfies: the request carries the capability's content type where it has one,
-- the body did not break off, all of it is within a positive limit, and the file of the key holds it
-- and is the only one that changed.
abbrev pub IsStored : Driver → Text → Text → Reader → UploadCap → Disk → Disk → Type 0
IsStored d key content_type body c before after =
    (c.content_type ≢ [] → content_type ≡ c.content_type)
    × (body.broken ≡ false)
    × (pos 0 <ℤ c.max_size → pos (length body.bytes) ≤ℤ c.max_size)
    × ((dst : Text) × (disk_path d key ≡ ok dst)
        × ((p : Text)
            → lookup p after.files ≡ (if dst == p then some body.bytes else lookup p before.files)))

created : (r : Result FsError ℤ) → write_status r ≡ 201 → (n : ℤ) × (r ≡ ok n)
created (ok n) h = (n, refl)
created (err FsError.bad_capability) h = absurd (omega arith)
created (err FsError.bad_signature) h = absurd (omega arith)
created (err FsError.expired) h = absurd (omega arith)
created (err FsError.invalid_key) h = absurd (omega arith)
created (err FsError.too_large) h = absurd (omega arith)
created (err FsError.io_error) h = absurd (omega arith)

module _ (d : Driver) (key content_type : Text) (content_length : ℤ) (body : Reader)
    (disk : Disk) where
  kept :
      (x : Result FsError ℤ × Disk)
      → (is_ok x.0 ≡ false → x.1.files ≡ disk.files)
      → (written x).0 ≢ 201
      → (written x).1.files ≡ disk.files
  kept (ok n, after) w h = absurd (h refl)
  kept (err e, after) w h = w refl

  stored :
      (c : UploadCap) (x : Result FsError ℤ × Disk)
      → (c.content_type ≢ [] → content_type ≡ c.content_type)
      → Written d key c.max_size body disk x
      → (written x).0 ≡ 201
      → IsStored d key content_type body c disk (written x).1
  stored c (ok n, after) typed (dst, path, whole, size, limit, files, left) h =
      (typed, whole, λ p. subst (λ m. m ≤ℤ c.max_size) size (limit p), (dst, path, files))
  stored c (err e, after) typed w h = let (n, bad) = created (err e) h in cc bad

  kept_if :
      (mistyped large : Bool) (x : Result FsError ℤ × Disk)
      → (is_ok x.0 ≡ false → x.1.files ≡ disk.files)
      → (if mistyped then (415, disk) else if large then (413, disk) else written x).0 ≢ 201
      → (if mistyped then (415, disk) else if large then (413, disk) else written x).1.files
        ≡ disk.files
  kept_if true large x w h = refl
  kept_if false true x w h = refl
  kept_if false false x w h = kept x w h

  IsStored-if :
      (c : UploadCap) (mistyped large : Bool) (x : Result FsError ℤ × Disk)
      → (mistyped ≡ false → c.content_type ≢ [] → content_type ≡ c.content_type)
      → Written d key c.max_size body disk x
      → (if mistyped then (415, disk) else if large then (413, disk) else written x).0 ≡ 201
      → IsStored d key content_type body c disk
          (if mistyped then (415, disk) else if large then (413, disk) else written x).1
  IsStored-if c true large x typed w h = absurd (omega arith)
  IsStored-if c false true x typed w h = absurd (omega arith)
  IsStored-if c false false x typed w h = stored c x (typed refl) w h

  refused : (e : FsError) → cap_status e ≢ 201
  refused FsError.bad_capability h = absurd (omega arith)
  refused FsError.bad_signature h = absurd (omega arith)
  refused FsError.expired h = absurd (omega arith)
  refused FsError.invalid_key h = absurd (omega arith)
  refused FsError.too_large h = absurd (omega arith)
  refused FsError.io_error h = absurd (omega arith)

  type_matches :
      (c : UploadCap)
      → (not (c.content_type == []) && not (content_type == c.content_type)) ≡ false
      → c.content_type ≢ []
      → content_type ≡ c.content_type
  type_matches c h n = ground (arith, ==_iff c.content_type [], ==_iff content_type c.content_type)

  receive_keeps :
      (v : Result FsError UploadCap)
      → (receive d key content_type content_length body v disk).0 ≢ 201
      → (receive d key content_type content_length body v disk).1.files ≡ disk.files
  receive_keeps (err e) h = refl
  receive_keeps (ok c) h =
      kept_if (not (c.content_type == []) && not (content_type == c.content_type))
        (ltb_ℤ (pos 0) c.max_size && ltb_ℤ c.max_size content_length)
        (write_object d key c.max_size body disk) (failed_write d key c.max_size body disk) h

  receive_stores :
      (v : Result FsError UploadCap)
      → ((c : UploadCap) → v ≡ ok c → c.max_size <ℤ pos max_int64)
      → (receive d key content_type content_length body v disk).0 ≡ 201
      → (c : UploadCap) × (v ≡ ok c)
        × IsStored d key content_type body c disk
            (receive d key content_type content_length body v disk).1
  receive_stores (err e) small h = absurd (refused e h)
  receive_stores (ok c) small h = (
    c,
    refl,
    IsStored-if c (not (c.content_type == []) && not (content_type == c.content_type))
        (ltb_ℤ (pos 0) c.max_size && ltb_ℤ c.max_size content_length)
        (write_object d key c.max_size body disk) (type_matches c)
        (write_object_atomic d key c.max_size body disk (small c refl)) h,
  )

module _ (d : Driver) (r : Request) (body : Reader) (now : Time) (disk : Disk) where
  -- The upload endpoint answers either with a status other than 201 and every file as it was, or
  -- with 201, and then the query is a capability that verifies now for the key of the path, the
  -- request has the content type that it names, if it names one, the body did not break off, the file
  -- of the key holds all of its bytes, whose number is within the capability's size where that is
  -- positive, and every other object is as it was. The capability's size is below the largest int64.
  pub upload_handler_gated :
      ((c : UploadCap)
        → verify_upload d r.path_value r.query now ≡ ok c
        → c.max_size <ℤ pos max_int64)
      → ((upload_handler d r body now disk).0 ≢ 201
          → (upload_handler d r body now disk).1.files ≡ disk.files)
        × ((upload_handler d r body now disk).0 ≡ 201
            → (c : UploadCap) × (verify_upload d r.path_value r.query now ≡ ok c)
              × IsStored d r.path_value
                  (r.header (codes "Content-Type"))
                  body
                  c
                  disk
                  (upload_handler d r body now disk).1)
  unfolding upload_handler
  upload_handler_gated small = (
    receive_keeps d r.path_value (r.header (codes "Content-Type")) r.content_length body disk
        (verify_upload d r.path_value r.query now),
    receive_stores d r.path_value (r.header (codes "Content-Type")) r.content_length body disk
        (verify_upload d r.path_value r.query now) small,
  )
