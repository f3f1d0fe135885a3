-- ===== src/Base/TextLaws.antt =====
-- Laws of trimming and of hexadecimal text.
use orbit_depot_prototype.Base.{
  ℕ, ◌*◌, ◌≡◌, ◌≢◌, sym, ◌∙◌, Bool, false, [], ◌∷◌, reverse, arith, length, All, All-reverse_aux,
  ap, refl, true, not, all, all-reverse_aux,
}
use mathlib.Core.List.{reverse-reverse}
use orbit_depot_prototype.Base.Decimal.{is_digit}
use orbit_depot_prototype.Base.Text.{Text, is_space, trim_space, trim_left, trim_right, hex_encode}

module _ (cut : ℕ → Bool) where
  pub trim_left_head : (s : Text) (c : ℕ) (t : Text) → trim_left cut s ≡ c ∷ t → cut c ≡ false
  unfolding trim_left
  trim_left_head [] c t h = cc
  trim_left_head (d ∷ s) c t h = ground (arith, trim_left_head s c t)

  pub trim_right_last :
      (s : Text) (c : ℕ) (t : Text) → reverse (trim_right cut s) ≡ c ∷ t → cut c ≡ false
  unfolding trim_right
  trim_right_last s c t h =
      trim_left_head (reverse s) c t (sym (reverse-reverse (trim_left cut (reverse s))) ∙ h)

  pub trim_left-All : (P : ℕ → Type 0) (s : Text) → All P s → All P (trim_left cut s)
  unfolding trim_left
  trim_left-All P [] h = tt
  trim_left-All P (c ∷ s) h = ground (arith, trim_left-All P s h.1)

  pub trim_right-All : (P : ℕ → Type 0) (s : Text) → All P s → All P (trim_right cut s)
  unfolding trim_right
  trim_right-All P s h =
      All-reverse_aux P (trim_left cut (reverse s)) []
        (trim_left-All P (reverse s) (All-reverse_aux P s [] h tt)) tt

-- A byte of lower-case hexadecimal text.
abbrev pub IsHex : ℕ → Type 0
IsHex c = (c ≢ b'/') × (c ≢ b'.') × (c ≢ b'_')

pub hex_encode-IsHex : (s : Text) → All IsHex (hex_encode s)
unfolding hex_encode
hex_encode-IsHex [] = tt
hex_encode-IsHex (b ∷ s) = (ground arith, (ground arith, hex_encode-IsHex s))

pub length-hex_encode : (s : Text) → length (hex_encode s) ≡ 2 * length s
unfolding hex_encode
length-hex_encode [] = omega arith
length-hex_encode (b ∷ s) = omega (arith, length-hex_encode s)

abbrev pub is_visible : ℕ → Bool
is_visible c = not (is_space c)

trim_left_visible : (s : Text) → all is_visible s ≡ true → trim_left is_space s ≡ s
unfolding trim_left
trim_left_visible [] h = refl
trim_left_visible (c ∷ s) h = ground arith

-- Where nothing is a space, nothing is trimmed.
pub trim_space_visible : (s : Text) → all is_visible s ≡ true → trim_space s ≡ s
unfolding trim_space trim_right
trim_space_visible s h =
    ap (λ t. reverse (trim_left is_space (reverse t))) (trim_left_visible s h)
    ∙ (ap reverse (trim_left_visible (reverse s) (all-reverse_aux is_visible s [] h refl))
        ∙ reverse-reverse s)

pub digits-visible : (s : Text) → all is_digit s ≡ true → all is_visible s ≡ true
unfolding is_space
digits-visible [] h = refl
digits-visible (c ∷ s) h = ground (arith, digits-visible s)
