-- ===== src/Place/Key/Layout.antt =====
-- The shape of a derived key: the place's prefix, the owner, and the file below them.
use orbit_depot_prototype.Base.{
  ℕ, zero, suc, ◌≤◌, ◌≡◌, ◌≢◌, refl, ap, subst, Bool, true, false, ◌&&◌, Option, none, some, List,
  [], ◌∷◌, ◌++◌, if◌then◌else◌, arith, All, All-append, length, take, Bool-cases, inl, inr,
}
use orbit_depot_prototype.Base.Text.{Text, codes, ◌==◌, hex_encode}
use orbit_depot_prototype.Base.TextLaws.{IsHex, hex_encode-IsHex, length-hex_encode}
use orbit_depot_prototype.Base.Paths.{slash, split_slash, join_path}
use orbit_depot_prototype.Base.Paths.Segments.{NoSlash, IsPlain}
use orbit_depot_prototype.Base.Paths.Joining.{IsPlainPath, split-join_path}
use orbit_depot_prototype.Base.Exec.{Result, ok, err, result-injective}
use orbit_depot_prototype.Place.{Place, UploadRequest, PlaceError, strategy_dump, strategy_account}
use orbit_depot_prototype.Place.Filename.{sanitize_filename, sanitize_filename-IsPlain}
use orbit_depot_prototype.Place.Key.{
  Surroundings, anonymous_owner, account_hash, unique_segment, dump_key, key_of, derive_key,
}

-- What the derivation relies on: SHA-256 has 32 bytes, and the printed time holds no slash.
pub record IsSound (env : Surroundings) : Type 0 where
  pub sha256_length : (s : Text) → length (env.sha256 s) ≡ 32
  pub stamp_plain : NoSlash env.stamp

-- The owner segment of a caller.
unfoldable pub owner_of : Surroundings → Text → Text → Bool → Text
owner_of env subject issuer anonymous =
    if anonymous then anonymous_owner else account_hash env.sha256 issuer subject

length-take_8 : (s : Text) → length s ≡ 32 → length (take 8 s) ≡ 8
length-take_8 s h = go 8 s (omega arith)
  where
    go : (n : ℕ) (t : Text) → n ≤ length t → length (take n t) ≡ n
    go zero t k = refl
    go (suc n) [] k = absurd (omega arith)
    go (suc n) (c ∷ t) k = ap suc (go n t (omega arith))

pub length-account_hash :
    (env : Surroundings) (issuer subject : Text)
    → IsSound env
    → length (account_hash env.sha256 issuer subject) ≡ 16
unfolding account_hash
length-account_hash env issuer subject h = omega (
  arith,
  length-hex_encode (take 8 (env.sha256 (issuer ++ (0 ∷ subject)))),
  length-take_8 _ (h.sha256_length (issuer ++ (0 ∷ subject))),
)

pub account_hash-IsHex :
    (env : Surroundings) (issuer subject : Text)
    → All IsHex (account_hash env.sha256 issuer subject)
unfolding account_hash
account_hash-IsHex env issuer subject = hex_encode-IsHex _

IsHex-NoSlash : (s : Text) → All IsHex s → NoSlash s
IsHex-NoSlash [] k = tt
IsHex-NoSlash (c ∷ t) (k, ks) = (k.0, IsHex-NoSlash t ks)

IsHex-IsPlain : (s : Text) → All IsHex s → s ≢ [] → IsPlain s
IsHex-IsPlain s h ne = (ne, dot s h, dots s h, IsHex-NoSlash s h)
  where
    dot : (t : Text) → All IsHex t → t ≢ codes "."
    dot [] k = cc
    dot (c ∷ t) k = ground arith

    dots : (t : Text) → All IsHex t → t ≢ codes ".."
    dots [] k = cc
    dots (c ∷ t) k = ground arith

dashed : (s t : Text) → NoSlash s → NoSlash t → IsPlain (s ++ (b'-' ∷ t))
dashed [] t hs ht = (cc, ground arith, ground arith, (ground arith, ht))
dashed (c ∷ []) t hs ht = (cc, cc, ground arith, (hs.0, (ground arith, ht)))
dashed (c ∷ d ∷ s) t hs ht =
    (cc, cc, long s, All-append (λ b. b ≢ slash) (c ∷ d ∷ s) (b'-' ∷ t) hs (ground arith, ht))
  where
    long : (r : Text) → (c ∷ d ∷ (r ++ (b'-' ∷ t))) ≢ codes ".."
    long [] = cc
    long (e ∷ r) = cc

module _ (env : Surroundings) (sound : IsSound env) where
  pub owner_of-IsPlain :
      (subject issuer : Text) (anonymous : Bool) → IsPlain (owner_of env subject issuer anonymous)
  unfolding owner_of
  owner_of-IsPlain subject issuer true = (cc, cc, cc, omega arith)
  owner_of-IsPlain subject issuer false =
      IsHex-IsPlain _ (account_hash-IsHex env issuer subject)
        (λ e. omega (arith, length-account_hash env issuer subject sound, ap length e))

  -- The owner segment of an identified caller is not that of anonymous uploads.
  pub anonymous_owner-ne :
      (subject issuer : Text) → owner_of env subject issuer false ≢ anonymous_owner
  unfolding owner_of
  anonymous_owner-ne subject issuer =
      first (account_hash env.sha256 issuer subject) (account_hash-IsHex env issuer subject)
    where
      first : (s : Text) → All IsHex s → s ≢ anonymous_owner
      first [] k = cc
      first (c ∷ s) k = ground arith

  unique-IsPlain :
      (random : Option Text) (unique : Text)
      → unique_segment env.stamp random ≡ ok unique
      → IsPlain unique
  unfolding unique_segment
  unique-IsPlain none unique h = cc
  unique-IsPlain (some bytes) unique h = subst IsPlain (result-injective h) (
      dashed env.stamp (hex_encode bytes) sound.stamp_plain
        (IsHex-NoSlash _ (hex_encode-IsHex bytes)))

  -- What `derive_key` puts below the prefix, in either strategy: the owner and then plain segments.
  IsLaidOut : Place → Text → Text → Type 0
  IsLaidOut p owner key =
      (below : List Text) × All IsPlain below
      × (split_slash key ≡ split_slash p.prefix ++ (owner ∷ below))

  joined :
      (p : Place) (owner key : Text) (below : List Text)
      → IsPlainPath p.prefix
      → IsPlain owner
      → All IsPlain below
      → join_path (p.prefix ∷ owner ∷ below) ≡ key
      → IsLaidOut p owner key
  unfolding IsLaidOut
  joined p owner key below prefix ho hb e = (
    below,
    hb,
    subst (λ k. split_slash k ≡ split_slash p.prefix ++ (owner ∷ below)) e
        (split-join_path p.prefix (owner ∷ below) prefix (ho, hb)),
  )

  key_of_layout :
      (p : Place) (owner filename key : Text)
      → IsPlainPath p.prefix
      → IsPlain owner
      → IsPlain filename
      → key_of env p owner filename ≡ ok key
      → IsLaidOut p owner key
  key_of_layout p owner filename key prefix ho hf h =
      elim (Bool-cases (p.strategy == strategy_dump)) [
        | inl dump ↦ dumped (unique_segment env.stamp env.random) refl (rw dump at h)
        | inr other ↦ elim (Bool-cases (p.strategy == strategy_account)) [
          | inl account ↦
              joined p owner key (filename ∷ []) prefix ho (hf, tt)
                (result-injective (rw account at (rw other at h)))
          | inr neither ↦ cc (rw neither at (rw other at h))
        ]
      ]
    where
      dumped :
          (u : Result PlaceError Text)
          → unique_segment env.stamp env.random ≡ u
          → dump_key p.prefix owner filename u ≡ ok key
          → IsLaidOut p owner key
      dumped (err e) eq k = cc
      dumped (ok unique) eq k =
          joined p owner key (unique ∷ filename ∷ []) prefix ho
            (unique-IsPlain env.random unique eq, (hf, tt)) (result-injective k)

  -- For a place whose prefix is a plain relative path, where SHA-256 yields 32 bytes and the printed
  -- clock has no slash, the segments of a derived key are those of the prefix, the caller's owner
  -- segment, and plain segments below it.
  pub derive_key_layout :
      (p : Place) (subject issuer : Text) (anonymous : Bool) (req : UploadRequest) (key : Text)
      → IsPlainPath p.prefix
      → derive_key env p subject issuer anonymous req ≡ ok key
      → (below : List Text) × All IsPlain below
        × (split_slash key
            ≡ split_slash p.prefix ++ (owner_of env subject issuer anonymous ∷ below))
  unfolding derive_key IsLaidOut
  derive_key_layout p subject issuer anonymous req key prefix h =
      elim (Bool-cases (anonymous && p.strategy == strategy_account)) [
        | inl refused ↦ cc (rw refused at h)
        | inr allowed ↦
            key_of_layout p (owner_of env subject issuer anonymous) (sanitize_filename req.filename)
              key prefix (owner_of-IsPlain subject issuer anonymous)
              (sanitize_filename-IsPlain req.filename).0 (unfold owner_of in rw allowed at h)
      ]

  -- A derived key is a plain relative path.
  pub derive_key-IsPlainPath :
      (p : Place) (subject issuer : Text) (anonymous : Bool) (req : UploadRequest) (key : Text)
      → IsPlainPath p.prefix
      → derive_key env p subject issuer anonymous req ≡ ok key
      → IsPlainPath key
  derive_key-IsPlainPath p subject issuer anonymous req key prefix h =
      let (below, plain, parts) = derive_key_layout p subject issuer anonymous req key prefix h in
      rw parts (
        All-append IsPlain (split_slash p.prefix) (owner_of env subject issuer anonymous ∷ below)
          prefix (owner_of-IsPlain subject issuer anonymous, plain))
