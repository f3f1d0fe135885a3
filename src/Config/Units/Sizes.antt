-- ===== src/Config/Units/Sizes.antt =====
-- The round trip of a size between `String` and `UnmarshalText`.
use mathlib.Core.List.{reverse-append}
use orbit_depot_prototype.Base.{
  ℕ, ◌*◌, ◌/◌, ◌%◌, ◌^◌, ◌≤◌, ◌≡◌, refl, sym, ap, subst, ◌∙◌, ◌⊎◌, inl, inr, true, false, ◌&&◌,
  some, [], ◌∷◌, ◌++◌, map, reverse, arith, all, all-append, all-reverse_aux, length, length-append,
  take, Bool-cases, leb, eqb,
}
use orbit_depot_prototype.Base.Int.{pos, max_int64}
use orbit_depot_prototype.Base.Decimal.{format_int, is_digit, format_int_digits}
use orbit_depot_prototype.Base.Text.{Text, codes, ◌==◌, has_prefix, has_suffix, is_space, to_upper}
use orbit_depot_prototype.Base.TextLaws.{is_visible, trim_space_visible, digits-visible}
use orbit_depot_prototype.Base.Exec.{ok}
use orbit_depot_prototype.Config.Units.{
  kb, mb, gb, tb, Floats, cut_last, split_size, unmarshal_size, size_string,
}

-- The multipliers of the suffixes.
abbrev pub IsUnit : ℕ → Type 0
IsUnit m = (m ≡ 1) ⊎ ((m ≡ kb) ⊎ ((m ≡ mb) ⊎ ((m ≡ gb) ⊎ (m ≡ tb))))

-- A 64-bit float holds every whole number up to 2^53 and its product with a power of two, and converts
-- that to an int64 without loss.
pub record IsExact (fl : Floats) : Type 0 where
  pub at :
      (n m : ℕ)
      → n ≤ 2 ^ 53
      → IsUnit m
      → n * m ≤ max_int64
      → (f : fl.F) × (fl.parse_float (format_int (pos n)) ≡ some f)
        × (fl.is_negative f ≡ false)
        × (fl.scaled f m ≡ pos (n * m))

upper_digits : (s : Text) → all is_digit s ≡ true → map to_upper s ≡ s
unfolding to_upper
upper_digits [] h = refl
upper_digits (c ∷ s) h = ground (arith, upper_digits s)

map-append : (s t : Text) → map to_upper (s ++ t) ≡ map to_upper s ++ map to_upper t
map-append [] t = refl
map-append (c ∷ s) t = ap (λ u. to_upper c ∷ u) (map-append s t)

take-length : (s t : Text) → take (length s) (s ++ t) ≡ s
take-length [] t = refl
take-length (c ∷ s) t = ap (λ u. c ∷ u) (take-length s t)

cut_last-append : (s t : Text) → cut_last (length t) (s ++ t) ≡ s
cut_last-append s t = ap (λ n. take n (s ++ t)) (omega (arith, length-append s t)) ∙ take-length s t

-- The last byte of a row of digits is no letter.
no_letter :
    (s : Text) (c : ℕ) → all is_digit s ≡ true → is_digit c ≡ false → has_prefix s (c ∷ []) ≡ false
unfolding has_prefix
no_letter [] c h k = refl
no_letter (d ∷ s) c h k = ground arith

module _ (s : Text) (digits : all is_digit s ≡ true) where
  upper : (t : Text) → reverse (map to_upper (s ++ t)) ≡ reverse (map to_upper t) ++ reverse s
  upper t =
      ap reverse (map-append s t ∙ ap (λ u. u ++ map to_upper t) (upper_digits s digits))
      ∙ reverse-append s (map to_upper t)

  split_tb : split_size (s ++ codes "TB") ≡ (tb, s)
  unfolding split_size has_suffix has_prefix to_upper
  split_tb = rw (upper (codes "TB")) (ap (λ u. (tb, u)) (cut_last-append s (codes "TB")))

  split_gb : split_size (s ++ codes "GB") ≡ (gb, s)
  unfolding split_size has_suffix has_prefix to_upper
  split_gb = rw (upper (codes "GB")) (ap (λ u. (gb, u)) (cut_last-append s (codes "GB")))

  split_mb : split_size (s ++ codes "MB") ≡ (mb, s)
  unfolding split_size has_suffix has_prefix to_upper
  split_mb = rw (upper (codes "MB")) (ap (λ u. (mb, u)) (cut_last-append s (codes "MB")))

  split_kb : split_size (s ++ codes "KB") ≡ (kb, s)
  unfolding split_size has_suffix has_prefix to_upper
  split_kb = rw (upper (codes "KB")) (ap (λ u. (kb, u)) (cut_last-append s (codes "KB")))

  split_b : split_size (s ++ codes "B") ≡ (1, s)
  unfolding split_size has_suffix has_prefix to_upper
  split_b =
      let back = all-reverse_aux is_digit s [] digits refl in
      rw (upper (codes "B")) (
        rw (no_letter (reverse s) b'T' back refl) (
          rw (no_letter (reverse s) b'G' back refl) (
            rw (no_letter (reverse s) b'M' back refl) (
              rw (no_letter (reverse s) b'K' back refl)
                (ap (λ u. (1, u)) (cut_last-append s (codes "B")))))))

not_empty : (s : Text) (c : ℕ) (t : Text) → (s ++ (c ∷ t) == []) ≡ false
unfolding ◌==◌
not_empty [] c t = refl
not_empty (d ∷ s) c t = refl

module _ (fl : Floats) (exact : IsExact fl) where
  -- A printed number with a suffix is read as the number times the multiplier of the suffix.
  read_printed :
      (n m c : ℕ) (t : Text)
      → n ≤ 2 ^ 53
      → IsUnit m
      → n * m ≤ max_int64
      → all is_visible (c ∷ t) ≡ true
      → split_size (format_int (pos n) ++ (c ∷ t)) ≡ (m, format_int (pos n))
      → unmarshal_size fl (format_int (pos n) ++ (c ∷ t)) ≡ ok (pos (n * m))
  unfolding unmarshal_size
  read_printed n m c t small unit top visible split =
      let s = format_int (pos n) in
      let clean = digits-visible s (format_int_digits n) in
      let (f, parsed, sign, product) = exact.at n m small unit top in
      rw (trim_space_visible (s ++ (c ∷ t)) (all-append is_visible s (c ∷ t) clean visible)) (
        rw (not_empty s c t)
          (rw split (rw (trim_space_visible s clean) (rw parsed (rw sign (rw product))))))

  whole :
      (b m n c : ℕ) (t : Text)
      → n * m ≡ b
      → n ≤ 2 ^ 53
      → IsUnit m
      → b ≤ max_int64
      → all is_visible (c ∷ t) ≡ true
      → split_size (format_int (pos n) ++ (c ∷ t)) ≡ (m, format_int (pos n))
      → unmarshal_size fl (format_int (pos n) ++ (c ∷ t)) ≡ ok (pos b)
  whole b m n c t product small unit top visible split =
      read_printed n m c t small unit (subst (λ x. x ≤ max_int64) (sym product) top) visible split
      ∙ ap (λ x. ok (pos x)) product

  -- A size that is not negative and that is at most 2^53 or a multiple of 1024 is read back from its
  -- print, where the floats are exact.
  pub unmarshal_size-size_string :
      (b : ℕ)
      → b ≤ max_int64
      → (b ≤ 2 ^ 53) ⊎ (b % kb ≡ 0)
      → unmarshal_size fl (size_string (pos b)) ≡ ok (pos b)
  unfolding size_string
  unmarshal_size-size_string b top h =
      let digits = format_int_digits in
      elim (Bool-cases (leb tb b && eqb (b % tb) 0)) [
        | inl is_tb ↦ rw is_tb (
            whole b tb (b / tb) b'T' (codes "B") (ground arith) (omega arith)
              (inr (inr (inr (inr refl)))) top (unfold is_space in refl)
              (split_tb (format_int (pos (b / tb))) (digits (b / tb))))
        | inr no_tb ↦ elim (Bool-cases (leb gb b && eqb (b % gb) 0)) [
          | inl is_gb ↦ rw no_tb (
              rw is_gb (
                whole b gb (b / gb) b'G' (codes "B") (ground arith) (omega arith)
                  (inr (inr (inr (inl refl)))) top (unfold is_space in refl)
                  (split_gb (format_int (pos (b / gb))) (digits (b / gb)))))
          | inr no_gb ↦ elim (Bool-cases (leb mb b && eqb (b % mb) 0)) [
            | inl is_mb ↦ rw no_tb (
                rw no_gb (
                  rw is_mb (
                    whole b mb (b / mb) b'M' (codes "B") (ground arith) (omega arith)
                      (inr (inr (inl refl))) top (unfold is_space in refl)
                      (split_mb (format_int (pos (b / mb))) (digits (b / mb))))))
            | inr no_mb ↦ elim (Bool-cases (leb kb b && eqb (b % kb) 0)) [
              | inl is_kb ↦ rw no_tb (
                  rw no_gb (
                    rw no_mb (
                      rw is_kb (
                        whole b kb (b / kb) b'K' (codes "B") (ground arith) (omega arith)
                          (inr (inl refl)) top (unfold is_space in refl)
                          (split_kb (format_int (pos (b / kb))) (digits (b / kb)))))))
              | inr no_kb ↦ rw no_tb (
                  rw no_gb (
                    rw no_mb (
                      rw no_kb (
                        whole b 1 b b'B' [] (omega arith) (ground arith) (inl refl) top
                          (unfold is_space in refl) (split_b (format_int (pos b)) (digits b))))))
            ]
          ]
        ]
      ]
