-- ===== src/Fs/Capability.antt =====
-- Signing and verifying an upload capability, of internal/storage/fs/sign.go.
use orbit_depot_prototype.Base.{
  ◌≡◌, refl, sym, ap, subst, ◌∙◌, inl, inr, not, Option, none, some, List, ◌∷◌, ◌++◌, if◌then◌else◌,
  arith, Bool-cases,
}
use orbit_depot_prototype.Base.Int.{ℤ, IsInt64, ◌≤ℤ◌}
use orbit_depot_prototype.Base.Clock.{Time, after, unix, from_unix, unix-from_unix}
use orbit_depot_prototype.Base.Decimal.{format_int, parse_int, parse_int-format_int}
use orbit_depot_prototype.Base.Text.{Text, codes, ◌==◌, ==_iff, ==-refl, lookup}
use orbit_depot_prototype.Base.Exec.{ok, err, result-injective}
use orbit_depot_prototype.Fs.{
  Driver, expired, UploadCap, newline, canonical, mac, sign_upload, verify_upload, check_cap,
  read_cap,
}
use orbit_depot_prototype.Fs.Canonical.{IsInRange, mac_ambiguous}

-- The query of a request gives back what was put into the URL.
abbrev pub Carries : (Text → Text) → List (Text × Text) → Type 0
Carries q params = (k v : Text) → lookup k params ≡ some v → q k ≡ v

-- The capability with its expiry cut to the second, as the URL carries it.
abbrev pub to_second : UploadCap → UploadCap
to_second c = record c { expires = from_unix (unix c.expires) }

module _ (d : Driver) (c : UploadCap) (q : Text → Text) (range : IsInRange c) where
  read_exp : Carries q (sign_upload d c) → parse_int (q (codes "exp")) ≡ some (unix c.expires)
  unfolding sign_upload lookup ◌==◌
  read_exp carries =
      ap parse_int (carries (codes "exp") (format_int (unix c.expires)) refl)
      ∙ parse_int-format_int (unix c.expires) range.expiry_int64

  read_size : Carries q (sign_upload d c) → parse_int (q (codes "size")) ≡ some c.max_size
  unfolding sign_upload lookup ◌==◌
  read_size carries =
      ap parse_int (carries (codes "size") (format_int c.max_size) refl)
      ∙ parse_int-format_int c.max_size range.size_int64

  read_ct : Carries q (sign_upload d c) → q (codes "ct") ≡ c.content_type
  unfolding sign_upload lookup ◌==◌
  read_ct carries = carries (codes "ct") c.content_type refl

  read_sig : Carries q (sign_upload d c) → q (codes "sig") ≡ mac d c
  unfolding sign_upload lookup ◌==◌
  read_sig carries = carries (codes "sig") (mac d c) refl

  mac-to_second : mac d (to_second c) ≡ mac d c
  unfolding mac canonical
  mac-to_second = rw unix-from_unix

  -- A signed capability that comes back in the query of a request for its key is verified, as it
  -- was signed but for its expiry being cut to the second, until that second is past; from then on
  -- it is refused as expired. Its numbers are in the range of `int64`.
  pub verify_upload-sign_upload :
      (now : Time)
      → Carries q (sign_upload d c)
      → verify_upload d c.key q now
        ≡ (if after now (from_unix (unix c.expires)) then err expired else ok (to_second c))
  unfolding verify_upload
  verify_upload-sign_upload now carries =
      rw (read_exp carries, read_size carries, read_ct carries, read_sig carries)
        (rw mac-to_second (rw (==-refl (mac d c))))

checked :
    (d : Driver) (c cap : UploadCap) (sig : Text) (now : Time)
    → check_cap d c sig now ≡ ok cap
    → (cap ≡ c) × (mac d c ≡ sig) × (now ≤ℤ c.expires)
checked d c cap sig now h = elim (Bool-cases (not (mac d c == sig))) [
  | inl wrong ↦ cc (rw wrong at h)
  | inr right ↦ elim (Bool-cases (after now c.expires)) [
    | inl late ↦ cc (rw late at (rw right at h))
    | inr timely ↦ (
      sym (result-injective (rw timely at (rw right at h))),
      (==_iff (mac d c) sig).0 (ground arith),
      ground arith,
    )
  ]
]

read_checked :
    (d : Driver) (key ct sig : Text) (exp size : Option ℤ) (now : Time) (cap : UploadCap)
    → read_cap d key ct sig exp size now ≡ ok cap
    → (cap.key ≡ key) × (cap.content_type ≡ ct) × (mac d cap ≡ sig) × (now ≤ℤ cap.expires)
read_checked d key ct sig none size now cap h = cc
read_checked d key ct sig (some exp) none now cap h = cc
read_checked d key ct sig (some exp) (some size) now cap h =
    let c : UploadCap = record {
      key = key;
      max_size = size;
      content_type = ct;
      expires = from_unix exp;
    } in
    let (same, signed, timely) = checked d c cap sig now h in
    subst
      (λ (x : UploadCap).
        (x.key ≡ key) × (x.content_type ≡ ct) × (mac d x ≡ sig) × (now ≤ℤ x.expires))
      (sym same) (refl, refl, signed, timely)

-- A capability that is accepted is for the key of the request and the content type of its query,
-- its MAC under the driver's secret is the signature of the query, and its expiry is not past.
pub verify_upload_sound :
    (d : Driver) (key : Text) (q : Text → Text) (now : Time) (cap : UploadCap)
    → verify_upload d key q now ≡ ok cap
    → (cap.key ≡ key)
      × (cap.content_type ≡ q (codes "ct"))
      × (mac d cap ≡ q (codes "sig"))
      × (now ≤ℤ cap.expires)
unfolding verify_upload
verify_upload_sound d key q now cap h = read_checked d key _ _ _ _ now cap h

-- A client that is given a signature for its key, its size and a content type of its choice that
-- spells "b\nsize'\nct", may present it, until it expires, for the key "key\nsize\nb", the limit
-- `size'` and the content type `ct`: the driver accepts that capability, which nobody signed.
pub verify_upload_forged :
    (d : Driver) (key b ct : Text) (size size' exp : ℤ) (q : Text → Text) (now : Time)
    → IsInt64 size'
    → IsInt64 exp
    → q (codes "exp") ≡ format_int exp
    → q (codes "size") ≡ format_int size'
    → q (codes "ct") ≡ ct
    → q (codes "sig")
      ≡ mac d (record {
        key = key;
        max_size = size;
        content_type = b ++ (newline ∷ (format_int size' ++ (newline ∷ ct)));
        expires = from_unix exp;
      })
    → now ≤ℤ from_unix exp
    → verify_upload d (key ++ (newline ∷ (format_int size ++ (newline ∷ b)))) q now
      ≡ ok (record {
        key = key ++ (newline ∷ (format_int size ++ (newline ∷ b)));
        max_size = size';
        content_type = ct;
        expires = from_unix exp;
      })
unfolding verify_upload
verify_upload_forged d key b ct size size' exp q now h k e1 e2 e3 e4 timely =
    rw (e1, e2, e3, e4, parse_int-format_int exp k, parse_int-format_int size' h)
      (rw (mac_ambiguous d key b ct size size' (from_unix exp)) (
        rw
          (==-refl (
            mac d (record {
              key = key ++ (newline ∷ (format_int size ++ (newline ∷ b)));
              max_size = size';
              content_type = ct;
              expires = from_unix exp;
            })))
          (ground arith)))
