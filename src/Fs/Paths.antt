-- ===== src/Fs/Paths.antt =====
-- Object keys and the paths on disk that they stand for.
use mathlib.Core.List.{append_assoc}
use orbit_depot_prototype.Base.{
  ◌≡◌, ◌≢◌, refl, sym, ap, subst, ◌∙◌, ◌↔◌, inl, inr, true, false, ◌||◌, List, [], ◌∷◌, ◌++◌,
  if◌then◌else◌, arith, any, All, Bool-cases, eqb,
}
use orbit_depot_prototype.Base.Text.{Text, codes, ◌==◌, ==_iff, ==-refl, has_prefix}
use orbit_depot_prototype.Base.Paths.{slash, split_slash, join_slash, rooted_segments, join_path}
use orbit_depot_prototype.Base.Paths.Segments.{
  NoSlash, IsPlain, split_slash-NoSlash, split_slash-ne-nil, join-split,
}
use orbit_depot_prototype.Base.Paths.Cleaning.{
  rooted_segments-IsPlain, rooted_segments-join, join_slash-ne-nil, clean_rooted,
}
use orbit_depot_prototype.Base.Paths.Joining.{IsPlainPath}
use orbit_depot_prototype.Base.Paths.Nesting.{join_path_rooted}
use orbit_depot_prototype.Base.Exec.{ok, err, result-injective}
use orbit_depot_prototype.Fs.{
  Driver, invalid_key, validate_key, is_bad_segment, disk_path, within_root,
}

bad_segment_iff : (seg : Text) → NoSlash seg → (is_bad_segment seg ≡ false) ↔ IsPlain seg
bad_segment_iff seg h = (
  λ e. ground (arith, ==_iff seg [], ==_iff seg (codes "."), ==_iff seg (codes "..")),
  λ k. ground (arith, ==_iff seg [], ==_iff seg (codes "."), ==_iff seg (codes "..")),
)

bad_segments_iff :
    (segs : List Text) → All NoSlash segs → (any is_bad_segment segs ≡ false) ↔ All IsPlain segs
bad_segments_iff [] h = (λ e. tt, λ k. refl)
bad_segments_iff (seg ∷ segs) (h, hs) = (
  λ e. ((bad_segment_iff seg h).0 (ground arith), (bad_segments_iff segs hs).0 (ground arith)),
  λ k. ground (arith, (bad_segment_iff seg h).1 k.0, (bad_segments_iff segs hs).1 k.1),
)

plain_start : (key : Text) → IsPlainPath key → (key == [] || has_prefix key (slash ∷ [])) ≡ false
unfolding split_slash has_prefix ◌==◌
plain_start [] h = absurd (h.0.0 refl)
plain_start (c ∷ key) h = elim (Bool-cases (eqb c slash)) [
  | inl rooted ↦ absurd ((rw rooted at h).0.0 refl)
  | inr relative ↦ rw relative
]

-- An object key is valid exactly if every part between its slashes is plain: not empty, not ".",
-- not "..".
pub validate_key_iff : (key : Text) → (validate_key key ≡ ok tt) ↔ IsPlainPath key
unfolding validate_key
validate_key_iff key = (
  λ h. (bad_segments_iff (split_slash key) (split_slash-NoSlash key)).0 (ground arith),
  λ k. ground (
    arith,
    plain_start key k,
    (bad_segments_iff (split_slash key) (split_slash-NoSlash key)).1 k,
  ),
)

-- The root is an absolute, clean path, and not "/" itself, as `filepath.Abs` gives it.
pub record IsRooted (d : Driver) : Type 0 where
  pub names : List Text
  pub some_name : names ≢ []
  pub all_plain : All IsPlain names
  pub spelled : d.root ≡ slash ∷ join_slash names

-- A path below the root: the names of the root, and then some plain names.
abbrev pub IsBelow : (d : Driver) → IsRooted d → Text → Type 0
IsBelow d r p =
    (segs : List Text) × (segs ≢ []) × All IsPlain segs × (p ≡ slash ∷ join_slash (r.names ++ segs))

root_prefix : (root s : Text) → has_prefix (root ++ (slash ∷ s)) (root ++ (slash ∷ [])) ≡ true
unfolding has_prefix
root_prefix [] s = refl
root_prefix (c ∷ root) s = ground (arith, root_prefix root s)

join_append :
    (names segs : List Text)
    → names ≢ []
    → segs ≢ []
    → join_slash (names ++ segs) ≡ join_slash names ++ (slash ∷ join_slash segs)
unfolding join_slash
join_append [] segs h k = absurd (h refl)
join_append (p ∷ []) [] h k = absurd (k refl)
join_append (p ∷ []) (q ∷ segs) h k = refl
join_append (p ∷ r ∷ names) segs h k =
    ap (λ t. p ++ (slash ∷ t)) (join_append (r ∷ names) segs (cc) k)
    ∙ sym (append_assoc p (slash ∷ join_slash (r ∷ names)) (slash ∷ join_slash segs))

placed :
    (names segs : List Text)
    → names ≢ []
    → All IsPlain names
    → segs ≢ []
    → All IsPlain segs
    → within_root
        (slash ∷ join_slash names)
        (join_path ((slash ∷ join_slash names) ∷ (slash ∷ join_slash segs) ∷ []))
      ≡ ok (slash ∷ join_slash (names ++ segs))
placed names segs h k hs ks = rw (join_path_rooted names h k segs hs ks) (
    ground (
      arith,
      root_prefix (slash ∷ join_slash names) (join_slash segs),
      join_append names segs h hs,
    ))

pub rooted_segments_some :
    (segs : List Text) → ((slash ∷ join_slash segs) == slash ∷ []) ≡ false → segs ≢ []
unfolding join_slash
rooted_segments_some [] h = cc (==-refl (slash ∷ []))
rooted_segments_some (p ∷ segs) h = cc

-- The path on disk of a key: below the root, by the elements that are left of the key.
pub disk_path_lem :
    (d : Driver) (r : IsRooted d) (key : Text)
    → disk_path d key ≡ (
        if (slash ∷ join_slash (rooted_segments key)) == slash ∷ []
        then err invalid_key
        else ok (slash ∷ join_slash (r.names ++ rooted_segments key)))
unfolding disk_path
disk_path_lem d r key =
    let segs = rooted_segments key in
    rw (clean_rooted key) (elim (Bool-cases ((slash ∷ join_slash segs) == slash ∷ [])) [
      | inl top ↦ rw top
      | inr below ↦ rw below (
          subst
            (λ root.
              within_root root (join_path (root ∷ (slash ∷ join_slash segs) ∷ []))
              ≡ ok (slash ∷ join_slash (r.names ++ segs)))
            (sym r.spelled)
            (placed r.names segs r.some_name r.all_plain (rooted_segments_some segs below)
              (rooted_segments-IsPlain key)))
    ])

-- Whatever the key, traversal segments included, the path on disk lies below the root.
pub disk_path-IsBelow :
    (d : Driver) (r : IsRooted d) (key p : Text) → disk_path d key ≡ ok p → IsBelow d r p
disk_path-IsBelow d r key p h =
    let segs = rooted_segments key in
    elim (Bool-cases ((slash ∷ join_slash segs) == slash ∷ [])) [
      | inl top ↦ cc (rw top at (sym (disk_path_lem d r key) ∙ h))
      | inr below ↦ (
        segs,
        rooted_segments_some segs below,
        rooted_segments-IsPlain key,
        sym (result-injective (rw below at (sym (disk_path_lem d r key) ∙ h))),
      )
    ]

-- A valid key is kept as it is: its path on disk is the root, a slash and the key. So two valid keys
-- never share a file.
pub disk_path_valid :
    (d : Driver) (r : IsRooted d) (key : Text)
    → validate_key key ≡ ok tt
    → disk_path d key ≡ ok (d.root ++ (slash ∷ key))
disk_path_valid d r key h =
    let plain = (validate_key_iff key).0 h in
    let some_part = split_slash-ne-nil key in
    let kept : rooted_segments key ≡ split_slash key =
      ap rooted_segments (sym (join-split key))
      ∙ rooted_segments-join (split_slash key) some_part plain in
    let spelled : slash ∷ join_slash (rooted_segments key) ≡ slash ∷ key =
      ap (λ l. slash ∷ join_slash l) kept ∙ ap (λ s. slash ∷ s) (join-split key) in
    let full : slash ∷ join_slash (r.names ++ rooted_segments key) ≡ d.root ++ (slash ∷ key) =
      ap (λ l. slash ∷ join_slash (r.names ++ l)) kept
      ∙ (ap (λ s. slash ∷ s)
            (join_append r.names (split_slash key) r.some_name some_part
              ∙ ap (λ s. join_slash r.names ++ (slash ∷ s)) (join-split key))
          ∙ ap (λ root. root ++ (slash ∷ key)) (sym r.spelled)) in
    let key_ne : key ≢ [] =
      subst (λ s. s ≢ []) (join-split key) (join_slash-ne-nil (split_slash key) some_part plain) in
    elim (Bool-cases ((slash ∷ join_slash (rooted_segments key)) == slash ∷ [])) [
      | inl top ↦ absurd (
          key_ne (
            tail_eq (
              sym spelled
              ∙ (==_iff (slash ∷ join_slash (rooted_segments key)) (slash ∷ [])).0 top)))
      | inr below ↦ disk_path_lem d r key ∙ rw below (ap ok full)
    ]
  where
    tail_eq : {s t : Text} → ◌≡◌ {A = Text} (slash ∷ s) (slash ∷ t) → s ≡ t
    tail_eq e = cc
