-- ===== src/Config/Units.antt =====
-- internal/config/units.go: sizes and rates, as they are read from the configuration and printed.
pub mod Sizes
pub mod Rates
use orbit_depot_prototype.Base.{
  ℕ, ◌*◌, ◌-◌, ◌/◌, ◌%◌, Bool, ◌&&◌, ◌||◌, Option, none, some, List, [], ◌∷◌, ◌++◌, map,
  if◌then◌else◌, length, take, leb, eqb,
}
use orbit_depot_prototype.Base.Int.{ℤ, pos, negsuc, leb_ℤ, eqb_ℤ}
use orbit_depot_prototype.Base.Clock.{second, minute, hour}
use orbit_depot_prototype.Base.Decimal.{format_int, parse_int}
use orbit_depot_prototype.Base.Text.{Text, codes, ◌==◌, has_suffix, trim_space, to_lower, to_upper}
use orbit_depot_prototype.Base.Exec.{Result, ok, err, and_then}

pub data UnitError : Type 0 where
  empty_size invalid_size negative_size : UnitError
  no_slash invalid_count count_not_positive unknown_unit : UnitError

abbrev pub kb : ℕ
kb = 1024

abbrev pub mb : ℕ
mb = 1024 * kb

abbrev pub gb : ℕ
gb = 1024 * mb

abbrev pub tb : ℕ
tb = 1024 * gb

-- s[:len(s)-n]
abbrev pub cut_last : ℕ → Text → Text
cut_last n s = take (length s - n) s

-- The multiplier and the number that a suffix in upper case leaves.
unfoldable pub split_size : Text → ℕ × Text
split_size s =
    let upper = map to_upper s in
    if has_suffix upper (codes "TB")
    then (tb, cut_last 2 s)
    else if has_suffix upper (codes "GB")
    then (gb, cut_last 2 s)
    else if has_suffix upper (codes "MB")
    then (mb, cut_last 2 s)
    else if has_suffix upper (codes "KB")
    then (kb, cut_last 2 s)
    else if has_suffix upper (codes "B")
    then (1, cut_last 1 s)
    else (1, s)

-- What the size parser uses of Go's 64-bit floats: `strconv.ParseFloat(s, 64)`, the test `n < 0`, and
-- `int64(n * float64(mult))`.
pub record Floats : Type 1 where
  pub F : Type 0
  pub parse_float : Text → Option F
  pub is_negative : F → Bool
  pub scaled : F → ℕ → ℤ

module _ (fl : Floats) where
  abbrev pub to_bytes : Option fl.F → ℕ → Result UnitError ℤ
  to_bytes none mult = err invalid_size
  to_bytes (some n) mult = if fl.is_negative n then err negative_size else ok (fl.scaled n mult)

  -- `(*ByteSize).UnmarshalText`
  unfoldable pub unmarshal_size : Text → Result UnitError ℤ
  unmarshal_size text =
      let s = trim_space text in
      if s == []
      then err empty_size
      else to_bytes (fl.parse_float (trim_space (split_size s).1)) (split_size s).0

-- `ByteSize.String`
unfoldable pub size_string : ℤ → Text
size_string (negsuc n) = format_int (negsuc n) ++ codes "B"
size_string (pos b) =
    if leb tb b && eqb (b % tb) 0
    then format_int (pos (b / tb)) ++ codes "TB"
    else if leb gb b && eqb (b % gb) 0
    then format_int (pos (b / gb)) ++ codes "GB"
    else if leb mb b && eqb (b % mb) 0
    then format_int (pos (b / mb)) ++ codes "MB"
    else if leb kb b && eqb (b % kb) 0
    then format_int (pos (b / kb)) ++ codes "KB"
    else format_int (pos b) ++ codes "B"

pub record Rate : Type 0 where
  pub count : ℤ
  pub window : ℤ

abbrev pub cut_again : ℕ → Option (Text × Text) → Option (Text × Text)
cut_again c none = none
cut_again c (some (before, after)) = some (c ∷ before, after)

-- `strings.Cut` at a slash
unfoldable pub cut_slash : Text → Option (Text × Text)
cut_slash [] = none
cut_slash (c ∷ s) = let rest = cut_slash s in if eqb c b'/' then some ([], s) else cut_again c rest

unfoldable pub rate_window : Text → Result UnitError ℕ
rate_window unit =
    if unit == codes "s" || (unit == codes "sec" || unit == codes "second")
    then ok second
    else if unit == codes "m" || (unit == codes "min" || unit == codes "minute")
    then ok minute
    else if unit == codes "h" || unit == codes "hour"
    then ok hour
    else err unknown_unit

abbrev pub positive_count : Option ℤ → Result UnitError ℤ
positive_count none = err invalid_count
positive_count (some n) = if leb_ℤ n (pos 0) then err count_not_positive else ok n

abbrev pub rate_of : Option (Text × Text) → Result UnitError Rate
rate_of none = err no_slash
rate_of (some (count, unit)) = and_then (positive_count (parse_int (trim_space count))) λ n.
    and_then (rate_window (map to_lower (trim_space unit)))
      λ window. ok (record { count = n; window = pos window })

-- `(*Rate).UnmarshalText`
unfoldable pub unmarshal_rate : Text → Result UnitError Rate
unmarshal_rate text = rate_of (cut_slash (trim_space text))

-- `Rate.Zero`
unfoldable pub is_zero_rate : Rate → Bool
is_zero_rate rate = eqb_ℤ rate.count (pos 0) || eqb_ℤ rate.window (pos 0)

-- `Rate.String`; `duration` is `time.Duration.String`.
unfoldable pub rate_string : (ℤ → Text) → Rate → Text
rate_string duration rate =
    if eqb_ℤ rate.window (pos second)
    then format_int rate.count ++ codes "/sec"
    else if eqb_ℤ rate.window (pos minute)
    then format_int rate.count ++ codes "/min"
    else if eqb_ℤ rate.window (pos hour)
    then format_int rate.count ++ codes "/hour"
    else format_int rate.count ++ (b'/' ∷ duration rate.window)
