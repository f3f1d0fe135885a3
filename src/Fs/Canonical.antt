-- ===== src/Fs/Canonical.antt =====
-- The canonical form that the signature covers, of internal/storage/fs/sign.go.
use mathlib.Core.List.{append_assoc}
use orbit_depot_prototype.Base.{
  ℕ, zero, suc, ◌/◌, ◌≡◌, ◌≢◌, refl, sym, ap, ◌∙◌, inl, inr, some, [], ◌∷◌, ◌++◌, arith, All,
  All-append, Bool-cases, ltb,
}
use orbit_depot_prototype.Base.Int.{ℤ, pos, negsuc, IsInt64}
use orbit_depot_prototype.Base.Decimal.{format_int, digits, parse_int, parse_int-format_int}
use orbit_depot_prototype.Base.Clock.{Time, unix}
use orbit_depot_prototype.Base.Text.{Text}
use orbit_depot_prototype.Fs.{Driver, UploadCap, newline, canonical, mac}

abbrev pub NoNewline : Text → Type 0
NoNewline = All (λ c. c ≢ newline)

cut_eq :
    (s s' : Text) {t t' : Text}
    → NoNewline s
    → NoNewline s'
    → s ++ (newline ∷ t) ≡ s' ++ (newline ∷ t')
    → (s ≡ s') × (t ≡ t')
cut_eq [] [] h h' e = (refl, ground arith)
cut_eq [] (c ∷ s') h h' e = absurd (ground arith)
cut_eq (c ∷ s) [] h h' e = absurd (ground arith)
cut_eq (c ∷ s) (d ∷ s') {t} {t'} (h, hs) (h', hs') e =
    let (p, q) = cut_eq s s' {t = t} {t' = t'} hs hs' (ground arith) in (ground arith, q)

digits-NoNewline : (fuel n : ℕ) → NoNewline (digits fuel n)
unfolding digits
digits-NoNewline zero n = tt
digits-NoNewline (suc fuel) n = elim (Bool-cases (ltb n 10)) [
  | inl last ↦ rw last (ground arith, tt)
  | inr more ↦
      rw more
        (All-append _ (digits fuel (n / 10)) _ (digits-NoNewline fuel (n / 10)) (ground arith, tt))
]

format_int-NoNewline : (n : ℤ) → NoNewline (format_int n)
unfolding format_int
format_int-NoNewline (pos n) = digits-NoNewline 20 n
format_int-NoNewline (negsuc n) = (ground arith, digits-NoNewline 20 (suc n))

format_int-injective : (m n : ℤ) → IsInt64 m → IsInt64 n → format_int m ≡ format_int n → m ≡ n
format_int-injective m n h k e =
    unwrap (sym (parse_int-format_int m h) ∙ (ap parse_int e ∙ parse_int-format_int n k))
  where
    unwrap : some m ≡ some n → m ≡ n
    unwrap q = cc

-- The capability's numbers are `int64` values.
pub record IsInRange (c : UploadCap) : Type 0 where
  pub size_int64 : IsInt64 c.max_size
  pub expiry_int64 : IsInt64 (unix c.expires)

-- If neither the keys nor the content types hold a newline, two capabilities with one canonical
-- form, so in particular with one signature under a collision-free MAC, have the same key, size
-- limit, content type and expiry second.
pub canonical-injective :
    (c c' : UploadCap)
    → IsInRange c
    → IsInRange c'
    → NoNewline c.key
    → NoNewline c'.key
    → NoNewline c.content_type
    → NoNewline c'.content_type
    → canonical c ≡ canonical c'
    → (c.key ≡ c'.key)
      × (c.max_size ≡ c'.max_size)
      × (c.content_type ≡ c'.content_type)
      × (unix c.expires ≡ unix c'.expires)
unfolding canonical
canonical-injective c c' r r' k k' t t' e =
    let (keys, e1) = cut_eq c.key c'.key k k' e in
    let (sizes, e2) =
      cut_eq (format_int c.max_size) (format_int c'.max_size) (format_int-NoNewline c.max_size)
        (format_int-NoNewline c'.max_size) e1 in
    let (types, e3) = cut_eq c.content_type c'.content_type t t' e2 in
    (
      keys,
      format_int-injective c.max_size c'.max_size r.size_int64 r'.size_int64 sizes,
      types,
      format_int-injective (unix c.expires) (unix c'.expires) r.expiry_int64 r'.expiry_int64 e3,
    )

-- A content type with two newlines moves the bounds between the fields: the capability for `key`,
-- `size` and the content type "b\nsize'\nct" has the signature of the capability for the key
-- "key\nsize\nb", the limit `size'` and the content type `ct`, with the same expiry, whatever the
-- secret. A client that may choose the content type so gets a signature for a key that the depot
-- never derived, and for a size that it never checked.
pub mac_ambiguous :
    (d : Driver) (key b ct : Text) (size size' : ℤ) (expires : Time)
    → mac d (record {
      key = key;
      max_size = size;
      content_type = b ++ (newline ∷ (format_int size' ++ (newline ∷ ct)));
      expires = expires;
    })
      ≡ mac d (record {
        key = key ++ (newline ∷ (format_int size ++ (newline ∷ b)));
        max_size = size';
        content_type = ct;
        expires = expires;
      })
unfolding mac canonical
mac_ambiguous d key b ct size size' expires = simp append_assoc
