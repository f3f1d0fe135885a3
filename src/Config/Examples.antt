-- ===== src/Config/Examples.antt =====
-- A small configuration, and sizes and rates as operators write them.
use orbit_depot_prototype.Base.{ℕ, ◌*◌, ◌≡◌, ◌↔◌, refl, false, Option, none, some, inl, arith}
use orbit_depot_prototype.Base.Int.{ℤ, pos, negsuc}
use orbit_depot_prototype.Base.Clock.{hour}
use orbit_depot_prototype.Base.Decimal.{parse_int, parse_int-format_int}
use orbit_depot_prototype.Base.Exec.{ok}
use orbit_depot_prototype.Config.Units.{Rate, Floats, unmarshal_size, size_string, mb}
use orbit_depot_prototype.Config.Units.Sizes.{IsExact, unmarshal_size-size_string}
use orbit_depot_prototype.Config.{validate_config}
use orbit_depot_prototype.Config.Samples.{depot}
use orbit_depot_prototype.Config.Validation.{IsConsistentConfig, validate_config_iff}

abbrev slowly : Rate
slowly = record { count = pos 5; window = pos hour }

-- Whole numbers for floats.
abbrev whole_numbers : Floats
whole_numbers = record {
  F = ℕ;
  parse_float = λ s. natural (parse_int s);
  is_negative = λ n. false;
  scaled = λ n m. pos (n * m);
}
  where
    natural : Option ℤ → Option ℕ
    natural none = none
    natural (some (pos n)) = some n
    natural (some (negsuc n)) = none

whole_numbers-IsExact : IsExact whole_numbers
whole_numbers-IsExact = record {
  at = λ n m small unit top. (n, rw (parse_int-format_int (pos n) (omega arith)), refl, refl);
}

unmarshal_size-size_string_example :
    unmarshal_size whole_numbers (size_string (pos (100 * mb))) ≡ ok (pos (100 * mb))
unmarshal_size-size_string_example =
    unmarshal_size-size_string whole_numbers whole_numbers-IsExact (100 * mb) (omega arith)
      (inl (omega arith))

validate_config_iff_example :
    (validate_config (λ path. false) depot ≡ ok tt) ↔ IsConsistentConfig (λ path. false) depot
validate_config_iff_example = validate_config_iff (λ path. false) depot
