-- ===== src/Fs/Writing.antt =====
-- `writeObject` of internal/storage/fs/transfer.go.
use orbit_depot_prototype.Base.{
  ℕ, zero, suc, ◌≤◌, take, ◌≡◌, refl, sym, ap, subst, ◌∙◌, inl, inr, true, false, not, some, List,
  [], ◌∷◌, if◌then◌else◌, arith, Bool-cases, length, keep,
}
use orbit_depot_prototype.Base.Int.{
  add64, add64-pos, negsuc, add64_overflow, max_int64, ℤ, pos, ◌≤ℤ◌, ◌<ℤ◌,
}
use orbit_depot_prototype.Base.Text.{==-refl, Text, ◌==◌, ==_iff, lookup}
use orbit_depot_prototype.Base.Exec.{Result, ok, err, is_ok, result-injective, Result-cases}
use orbit_depot_prototype.Fs.{
  breaks_off, Driver, Disk, FsError, Reader, copied, system_call, disk_path, write_object,
}

-- What a write may have done to the files, by its result: all of the body is stored, or nothing.
abbrev pub Written : Driver → Text → ℤ → Reader → Disk → Result FsError ℤ × Disk → Type 0
Written d key max_size body before (ok n, after) =
    (dst : Text) × (disk_path d key ≡ ok dst)
    × (body.broken ≡ false)
    × (n ≡ pos (length body.bytes))
    × (pos 0 <ℤ max_size → n ≤ℤ max_size)
    × ((p : Text)
        → lookup p after.files ≡ (if dst == p then some body.bytes else lookup p before.files))
    × (after.leftovers ≡ before.leftovers)
Written d key max_size body before (err e, after) = after.files ≡ before.files

-- The same by what is copied, which is cut one byte past the limit.
abbrev Copies : Driver → Text → ℤ → Reader → Disk → Result FsError ℤ × Disk → Type 0
Copies d key max_size body before (ok n, after) =
    (dst : Text) × (disk_path d key ≡ ok dst)
    × (n ≡ pos (length (copied max_size body)))
    × (pos 0 <ℤ max_size → n ≤ℤ max_size)
    × ((p : Text)
        → lookup p after.files
          ≡ (if dst == p then some (copied max_size body) else lookup p before.files))
    × (breaks_off max_size body ≡ false)
    × (after.leftovers ≡ before.leftovers)
Copies d key max_size body before (err e, after) = after.files ≡ before.files

take_short :
    (n : ℕ) (s : Text) → length (take (suc n) s) ≤ n → (take (suc n) s ≡ s) × (length s ≤ n)
take_short n [] h = (refl, omega arith)
take_short zero (b ∷ s) h = absurd (omega (arith, h))
take_short (suc n) (b ∷ s) h =
    let (same, short) = take_short n s (omega (arith, h)) in
    (ap (λ t. b ∷ t) same, omega (arith, short))

-- What was copied without passing the limit or meeting an error is the whole body.
copied_whole :
    (max_size : ℤ) (body : Reader)
    → max_size <ℤ pos max_int64
    → (pos 0 <ℤ max_size → pos (length (copied max_size body)) ≤ℤ max_size)
    → breaks_off max_size body ≡ false
    → (copied max_size body ≡ body.bytes) × (body.broken ≡ false)
copied_whole (negsuc n) body small fits whole = (ground arith, ground arith)
copied_whole (pos zero) body small fits whole = (refl, ground arith)
copied_whole (pos (suc n)) body small fits whole =
    let sum : add64 (pos (suc n)) (pos 1) ≡ pos (suc (suc n)) =
      add64-pos (suc n) 1 (omega arith) ∙ ap pos (omega arith) in
    let cut : copied (pos (suc n)) body ≡ take (suc (suc n)) body.bytes = rw sum (ground arith) in
    let fits' : pos (length (take (suc (suc n)) body.bytes)) ≤ℤ pos (suc n) =
      subst (λ t. pos (length t) ≤ℤ pos (suc n)) cut (fits (omega arith)) in
    let (same, short) = take_short (suc n) body.bytes (omega (arith, fits')) in
    (cut ∙ same, ground (arith, short, sum))

lookup-keep :
    (dst p : Text) (files : List (Text × Text))
    → (dst == p) ≡ false
    → lookup p (keep (λ f. not (f.0 == dst)) files) ≡ lookup p files
unfolding lookup
lookup-keep dst p [] h = refl
lookup-keep dst p ((k, v) ∷ files) h =
    ground (arith, ==_iff k dst, ==_iff k p, ==_iff dst p, lookup-keep dst p files h)

lookup-set :
    (dst p content : Text) (files : List (Text × Text))
    → lookup p ((dst, content) ∷ keep (λ f. not (f.0 == dst)) files)
      ≡ (if dst == p then some content else lookup p files)
lookup-set dst p content files = elim (Bool-cases (dst == p)) [
  | inl same ↦ unfold lookup in rw same
  | inr other ↦ rw other (unfold lookup in rw other (lookup-keep dst p files other))
]

module _ (d : Driver) (key : Text) (max_size : ℤ) (body : Reader) (disk : Disk) where
  -- A write that fails, on whatever step, leaves the objects as they were.
  pub failed_write :
      is_ok (write_object d key max_size body disk).0 ≡ false
      → (write_object d key max_size body disk).1.files ≡ disk.files
  unfolding write_object system_call
  failed_write h = ground arith

  within_limit :
      (write_object d key max_size body disk).0 ≡ ok (pos (length (copied max_size body)))
      → pos 0 <ℤ max_size
      → pos (length (copied max_size body)) ≤ℤ max_size
  unfolding write_object system_call
  within_limit h p = ground arith

  good_write :
      (dst : Text)
      → disk_path d key ≡ ok dst
      → is_ok (write_object d key max_size body disk).0 ≡ true
      → ((write_object d key max_size body disk).0 ≡ ok (pos (length (copied max_size body))))
        × ((write_object d key max_size body disk).1.files
            ≡ (dst, copied max_size body) ∷ keep (λ f. not (f.0 == dst)) disk.files)
        × (breaks_off max_size body ≡ false)
        × ((write_object d key max_size body disk).1.leftovers ≡ disk.leftovers)
  unfolding write_object system_call
  good_write dst h k = ground arith

  no_path :
      (e : FsError)
      → disk_path d key ≡ err e
      → is_ok (write_object d key max_size body disk).0 ≡ false
  unfolding write_object
  no_path e h = ground arith

  assemble :
      (x : Result FsError ℤ × Disk)
      → (is_ok x.0 ≡ false → x.1.files ≡ disk.files)
      → (is_ok x.0 ≡ true
          → (dst : Text) × (disk_path d key ≡ ok dst)
            × (x.0 ≡ ok (pos (length (copied max_size body))))
            × (x.1.files ≡ (dst, copied max_size body) ∷ keep (λ f. not (f.0 == dst)) disk.files)
            × (breaks_off max_size body ≡ false)
            × (x.1.leftovers ≡ disk.leftovers))
      → (x.0 ≡ ok (pos (length (copied max_size body)))
          → pos 0 <ℤ max_size
          → pos (length (copied max_size body)) ≤ℤ max_size)
      → Copies d key max_size body disk x
  assemble (err e, after) same changed limit = same refl
  assemble (ok n, after) same changed limit =
      let (dst, path, size, files, whole, left) = changed refl in
      (
        dst,
        path,
        result-injective size,
        λ p. subst (λ m. m ≤ℤ max_size) (sym (result-injective size)) (limit size p),
        λ p. ap (lookup p) files ∙ lookup-set dst p (copied max_size body) disk.files,
        whole,
        left,
      )

  copies : Copies d key max_size body disk (write_object d key max_size body disk)
  copies =
      assemble (write_object d key max_size body disk) failed_write
        (λ h. elim (Result-cases (disk_path d key)) [
          | inl (e, bad) ↦ cc (no_path e bad)
          | inr (dst, good) ↦
              let (size, files, whole, left) = good_write dst good h in
              (dst, good, size, files, whole, left)
        ])
        within_limit

  whole_body :
      (x : Result FsError ℤ × Disk)
      → max_size <ℤ pos max_int64
      → Copies d key max_size body disk x
      → Written d key max_size body disk x
  whole_body (err e, after) small c = c
  whole_body (ok n, after) small (dst, path, size, limit, files, whole, left) =
      let (same, unbroken) =
        copied_whole max_size body small (λ p. subst (λ m. m ≤ℤ max_size) size (limit p)) whole in
      (
        dst,
        path,
        unbroken,
        size ∙ ap (λ t. pos (length t)) same,
        limit,
        λ p. files p ∙ ap (λ t. if dst == p then some t else lookup p disk.files) same,
        left,
      )

  -- Below the largest int64 as its limit, and whatever system calls fail and wherever the body breaks
  -- off, a write of an object either fails and leaves every object as it was, or succeeds, and then
  -- the body did not break off, the file of the key holds all of its bytes, their number is returned
  -- and is within a positive limit, every other object is as it was, and no more temporary files are left
  -- behind than before.
  pub write_object_atomic :
      max_size <ℤ pos max_int64
      → Written d key max_size body disk (write_object d key max_size body disk)
  write_object_atomic small = whole_body (write_object d key max_size body disk) small copies

copied_max : (body : Reader) → copied (pos max_int64) body ≡ []
copied_max body = rw (add64_overflow max_int64 1 (omega arith) (omega arith) (omega arith))

breaks_off_max : (body : Reader) → breaks_off (pos max_int64) body ≡ false
breaks_off_max body =
    rw (add64_overflow max_int64 1 (omega arith) (omega arith) (omega arith)) (ground arith)

-- The limit plus one is taken at type `int64`: at the largest one it wraps to a negative number, the
-- reader yields nothing, and where every system call goes through, an empty object is stored and
-- reported as a success, whatever the body holds, and even if it breaks off.
pub write_object_wraps :
    (d : Driver) (key dst : Text) (body : Reader) (files : List (Text × Text))
    → disk_path d key ≡ ok dst
    → ((write_object d key
          (pos max_int64)
          body
          (record { files = files; faults = []; leftovers = 0 })).0
        ≡ ok (pos 0))
      × (lookup dst
            (write_object d key
              (pos max_int64)
              body
              (record { files = files; faults = []; leftovers = 0 })).1.files
          ≡ some [])
unfolding write_object system_call lookup
write_object_wraps d key dst body files h = (
  rw h (rw (breaks_off_max body) (rw (copied_max body) refl)),
  rw h (rw (breaks_off_max body) (rw (copied_max body) (rw (==-refl dst) refl))),
)
