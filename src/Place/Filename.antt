-- ===== src/Place/Filename.antt =====
-- `sanitizeFilename` of internal/place/derive.go.
use orbit_depot_prototype.Base.{
  ℕ, zero, suc, ◌-◌, ◌≤◌, ◌≡◌, ◌≢◌, refl, ap, Bool, true, ◌&&◌, ◌||◌, [], ◌∷◌, reverse, arith,
  length, drop, leb, ltb, eqb, if◌then◌else◌, All, All-drop, length-drop,
}
use orbit_depot_prototype.Base.Text.{Text, codes, trim_left, trim_right}
use orbit_depot_prototype.Base.TextLaws.{trim_right_last, trim_left-All, trim_right-All}
use orbit_depot_prototype.Base.Paths.Segments.{NoSlash, IsPlain}

abbrev pub max_filename_len : ℕ
max_filename_len = 128

abbrev is_separator : ℕ → Bool
is_separator c = eqb c b'/' || eqb c b'\\'

-- `name[strings.LastIndexAny(name, "/\\")+1:]`
unfoldable pub last_component : Text → Text → Text
last_component cur [] = cur
last_component cur (c ∷ s) = last_component (if is_separator c then s else cur) s

unfoldable pub is_safe_byte : ℕ → Bool
is_safe_byte c =
    (leb b'a' c && leb c b'z')
    || (leb b'A' c && leb c b'Z')
    || (leb b'0' c && leb c b'9')
    || eqb c b'.'
    || eqb c b'-'
    || eqb c b'_'

abbrev within : ℕ → ℕ → ℕ → Bool
within lo hi c = leb lo c && leb c hi

abbrev is_continuation : ℕ → Bool
is_continuation = within 0x80 0xbf

-- The second byte that UTF-8 admits behind a first byte of three or of four.
abbrev is_second_of_3 : ℕ → ℕ → Bool
is_second_of_3 b0 b1 =
    if eqb b0 0xe0
    then within 0xa0 0xbf b1
    else if eqb b0 0xed
    then within 0x80 0x9f b1
    else is_continuation b1

abbrev is_second_of_4 : ℕ → ℕ → Bool
is_second_of_4 b0 b1 =
    if eqb b0 0xf0
    then within 0x90 0xbf b1
    else if eqb b0 0xf4
    then within 0x80 0x8f b1
    else is_continuation b1

-- The bytes that one step of `range` over a string consumes: a rune, or one invalid byte.
unfoldable pub rune_width : Text → ℕ
rune_width (b0 ∷ b1 ∷ []) = if within 0xc2 0xdf b0 && is_continuation b1 then 2 else 1
rune_width (b0 ∷ b1 ∷ b2 ∷ []) =
    if within 0xc2 0xdf b0 && is_continuation b1
    then 2
    else if within 0xe0 0xef b0 && is_second_of_3 b0 b1 && is_continuation b2
    then 3
    else 1
rune_width (b0 ∷ b1 ∷ b2 ∷ b3 ∷ s) =
    if within 0xc2 0xdf b0 && is_continuation b1
    then 2
    else if within 0xe0 0xef b0 && is_second_of_3 b0 b1 && is_continuation b2
    then 3
    else if within 0xf0 0xf4 b0 && is_second_of_4 b0 b1 && is_continuation b2 && is_continuation b3
    then 4
    else 1
rune_width s = 1

-- The loop over the runes; the first argument counts the bytes left of the current rune.
unfoldable pub replace_runes : ℕ → Text → Text
unfolding is_safe_byte rune_width
replace_runes k [] = []
replace_runes (suc k) (c ∷ s) = replace_runes k s
replace_runes zero (c ∷ s) =
    (if is_safe_byte c then c else b'_') ∷ replace_runes (rune_width (c ∷ s) - 1) s

abbrev is_dot : ℕ → Bool
is_dot c = eqb c b'.'

abbrev or_file : Text → Text
or_file [] = codes "file"
or_file (c ∷ s) =
    if ltb max_filename_len (length (c ∷ s))
    then drop (length (c ∷ s) - max_filename_len) (c ∷ s)
    else c ∷ s

unfoldable pub sanitize_filename : Text → Text
unfolding last_component replace_runes trim_left trim_right
sanitize_filename name =
    or_file (trim_right is_dot (trim_left is_dot (replace_runes 0 (last_component name name))))

abbrev pub IsSafeByte : ℕ → Type 0
IsSafeByte c = is_safe_byte c ≡ true

replace_runes-IsSafeByte : (k : ℕ) (s : Text) → All IsSafeByte (replace_runes k s)
unfolding replace_runes
replace_runes-IsSafeByte k [] = tt
replace_runes-IsSafeByte (suc k) (c ∷ s) = replace_runes-IsSafeByte k s
replace_runes-IsSafeByte zero (c ∷ s) =
    (unfold is_safe_byte in ground arith, replace_runes-IsSafeByte (rune_width (c ∷ s) - 1) s)

or_file_cases :
    (s : Text)
    → All IsSafeByte s
    → (s ≢ codes ".")
    → (s ≢ codes "..")
    → (or_file s ≢ [])
      × (length (or_file s) ≤ max_filename_len)
      × All IsSafeByte (or_file s)
      × (or_file s ≢ codes ".")
      × (or_file s ≢ codes "..")
or_file_cases [] h k l =
    unfold is_safe_byte in (cc, omega arith, (refl, (refl, (refl, (refl, tt)))), cc, cc)
or_file_cases (c ∷ s) h k l =
    let n = length (c ∷ s) - max_filename_len in
    let cut = drop n (c ∷ s) in
    ground (
      arith,
      length-drop n (c ∷ s),
      All-drop IsSafeByte n (c ∷ s) h,
      λ (e : cut ≡ []). ap length e,
      λ (e : cut ≡ codes "."). ap length e,
      λ (e : cut ≡ codes ".."). ap length e,
    )

not_dots : (s : Text) → (trim_right is_dot s ≢ codes ".") × (trim_right is_dot s ≢ codes "..")
not_dots s = (
  λ e. cc (trim_right_last is_dot s b'.' [] (ap reverse e)),
  λ e. cc (trim_right_last is_dot s b'.' (codes ".") (ap reverse e)),
)

IsSafeByte-NoSlash : (s : Text) → All IsSafeByte s → NoSlash s
IsSafeByte-NoSlash [] h = tt
IsSafeByte-NoSlash (c ∷ s) (h, k) = (unfold is_safe_byte in ground arith, IsSafeByte-NoSlash s k)

-- Whatever the client sends as a file name, the name that is used has from 1 to 128 bytes, all of
-- them letters, digits, dots, dashes and underscores, and it is a plain segment of a path: not
-- "." or "..", with no slash.
pub sanitize_filename-IsPlain :
    (name : Text)
    → IsPlain (sanitize_filename name)
      × (length (sanitize_filename name) ≤ max_filename_len)
      × All IsSafeByte (sanitize_filename name)
unfolding sanitize_filename
sanitize_filename-IsPlain name =
    let replaced = replace_runes 0 (last_component name name) in
    let trimmed = trim_right is_dot (trim_left is_dot replaced) in
    let safe : All IsSafeByte trimmed =
      trim_right-All is_dot IsSafeByte _
        (trim_left-All is_dot IsSafeByte replaced (replace_runes-IsSafeByte 0 _)) in
    let (dot, dots) = not_dots (trim_left is_dot replaced) in
    let (ne, len, bytes, a, b) = or_file_cases trimmed safe dot dots in
    ((ne, a, b, IsSafeByte-NoSlash _ bytes), len, bytes)
