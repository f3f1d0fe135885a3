-- ===== src/Base/Decimal.antt =====
-- `strconv.FormatInt(n, 10)`, which `%d` prints too, and `strconv.ParseInt(s, 10, 64)`, which is
-- `strconv.Atoi` on a 64-bit machine.
use orbit_depot_prototype.Base.Tests.{ltb, leb, eqb, if◌then◌else◌, Bool-cases}
use orbit_depot_prototype.Base.Lists.{all, all-append}
use orbit_depot_prototype.Base.Int.{ℤ, pos, negsuc, IsInt64, max_int64}
use orbit_depot_prototype.Base.Text.{Text}
use Prim.Native.Nat.{ℕ, zero, suc, ◌+◌, ◌-◌, ◌*◌, ◌/◌, ◌%◌, ◌<◌}
use mathlib.Core.Path.{◌≡◌, refl, ap, subst, ◌∙◌}
use mathlib.Core.Logic.{◌≢◌, inl, inr}
use mathlib.Core.Bool.{Bool, true, ◌&&◌}
use mathlib.Core.Option.{Option, none, some}
use mathlib.Core.List.{[], ◌∷◌, ◌++◌}
use native.Mathlib.Omega.{arith}

abbrev pow10 : ℕ → ℕ
pow10 zero = 1
pow10 (suc k) = 10 * pow10 k

-- The decimal digits of a number, with fuel for their count.
unfoldable pub digits : ℕ → ℕ → Text
digits zero n = []
digits (suc fuel) n =
    let more = digits fuel (n / 10) in
    if ltb n 10 then (n + b'0') ∷ [] else more ++ (((n % 10) + b'0') ∷ [])

abbrev pub is_digit : ℕ → Bool
is_digit c = leb b'0' c && leb c b'9'

abbrev next_digit : ℕ → Option ℕ → Option ℕ
next_digit c none = none
next_digit c (some n) = if is_digit c then some (n * 10 + (c - b'0')) else none

unfoldable pub parse_digits : Option ℕ → Text → Option ℕ
parse_digits n [] = n
parse_digits n (c ∷ s) = parse_digits (next_digit c n) s

-- Twenty digits are more than an `int64` has.
abbrev int64_fuel : ℕ
int64_fuel = 20

unfoldable pub format_int : ℤ → Text
unfolding digits
format_int (pos n) = digits int64_fuel n
format_int (negsuc n) = b'-' ∷ digits int64_fuel (suc n)

abbrev in_range : ℕ → Option ℕ → Option ℤ
in_range top none = none
in_range top (some n) = if leb n top then some (pos n) else none

abbrev negative : Option ℕ → Option ℤ
negative none = none
negative (some zero) = some (pos 0)
negative (some (suc n)) = if leb n max_int64 then some (negsuc n) else none

abbrev all_digits : Text → Option ℕ
all_digits [] = none
all_digits (c ∷ s) = parse_digits (some 0) (c ∷ s)

unfoldable pub parse_int : Text → Option ℤ
unfolding parse_digits
parse_int [] = none
parse_int (c ∷ s) =
    if eqb c b'-'
    then negative (all_digits s)
    else if eqb c b'+'
    then in_range max_int64 (all_digits s)
    else in_range max_int64 (all_digits (c ∷ s))

parse_digits-append :
    (n : Option ℕ) (s : Text) (c : ℕ)
    → parse_digits n (s ++ (c ∷ [])) ≡ next_digit c (parse_digits n s)
unfolding parse_digits
parse_digits-append n [] c = refl
parse_digits-append n (d ∷ s) c = parse_digits-append (next_digit d n) s c

parse_digits-digits :
    (fuel n : ℕ) → n < pow10 fuel → 0 < fuel → parse_digits (some 0) (digits fuel n) ≡ some n
unfolding parse_digits digits
parse_digits-digits zero n h p = absurd (omega arith)
parse_digits-digits (suc zero) n h p = ground arith
parse_digits-digits (suc (suc k)) n h p = ground (
  arith,
  parse_digits-append (some 0) (digits (suc k) (n / 10)) ((n % 10) + b'0'),
  parse_digits-digits (suc k) (n / 10),
)

-- The text starts with a digit.
StartsWithDigit : Text → Type 0
StartsWithDigit [] = ⊥
StartsWithDigit (c ∷ s) = is_digit c ≡ true

StartsWithDigit-append : (s t : Text) → StartsWithDigit s → StartsWithDigit (s ++ t)
unfolding StartsWithDigit
StartsWithDigit-append [] t h = elim h [ ]
StartsWithDigit-append (c ∷ s) t h = h

digits_start : (fuel n : ℕ) → StartsWithDigit (digits (suc fuel) n)
unfolding StartsWithDigit digits
digits_start zero n = ground arith
digits_start (suc fuel) n = elim (Bool-cases (ltb n 10)) [
  | inl last ↦ rw last (ground arith)
  | inr more ↦
      rw more (StartsWithDigit-append (digits (suc fuel) (n / 10)) _ (digits_start fuel (n / 10)))
]

all_digits_lem : (s : Text) → StartsWithDigit s → all_digits s ≡ parse_digits (some 0) s
unfolding StartsWithDigit
all_digits_lem [] h = elim h [ ]
all_digits_lem (c ∷ s) h = refl

parse_int_lem :
    (s : Text) → StartsWithDigit s → parse_int s ≡ in_range max_int64 (parse_digits (some 0) s)
unfolding StartsWithDigit parse_int
parse_int_lem [] h = elim h [ ]
parse_int_lem (c ∷ s) h = ground arith

digits-all : (fuel n : ℕ) → all is_digit (digits fuel n) ≡ true
unfolding digits
digits-all zero n = refl
digits-all (suc fuel) n = ground (
  arith,
  all-append is_digit (digits fuel (n / 10)) (((n % 10) + b'0') ∷ []),
  digits-all fuel (n / 10),
)

-- The print of a natural number consists of digits, at least one.
pub format_int_digits : (n : ℕ) → all is_digit (format_int (pos n)) ≡ true
unfolding format_int
format_int_digits n = digits-all int64_fuel n

pub format_int-nonempty : (n : ℕ) → format_int (pos n) ≢ []
unfolding format_int StartsWithDigit
format_int-nonempty n e = elim (subst StartsWithDigit e (digits_start 19 n)) [ ]

-- What is read is an `int64`.
pub parse_int-IsInt64 : (s : Text) (n : ℤ) → parse_int s ≡ some n → IsInt64 n
unfolding parse_int
parse_int-IsInt64 [] n h = cc h
parse_int-IsInt64 (c ∷ s) n h = elim (Bool-cases (eqb c b'-')) [
  | inl minus ↦ negative-IsInt64 (all_digits s) n (rw minus at h)
  | inr other ↦ elim (Bool-cases (eqb c b'+')) [
    | inl plus ↦ in_range-IsInt64 (all_digits s) n (rw plus at (rw other at h))
    | inr bare ↦ in_range-IsInt64 (all_digits (c ∷ s)) n (rw bare at (rw other at h))
  ]
]
  where
    in_range-IsInt64 : (o : Option ℕ) (n : ℤ) → in_range max_int64 o ≡ some n → IsInt64 n
    in_range-IsInt64 none n h = cc h
    in_range-IsInt64 (some m) (pos n) h = ground arith
    in_range-IsInt64 (some m) (negsuc n) h = ground arith

    negative-IsInt64 : (o : Option ℕ) (n : ℤ) → negative o ≡ some n → IsInt64 n
    negative-IsInt64 none n h = cc h
    negative-IsInt64 (some zero) (pos n) h = ground arith
    negative-IsInt64 (some zero) (negsuc n) h = cc h
    negative-IsInt64 (some (suc m)) (pos n) h = ground arith
    negative-IsInt64 (some (suc m)) (negsuc n) h = ground arith

-- Every `int64` is read back from its decimal print.
pub parse_int-format_int : (n : ℤ) → IsInt64 n → parse_int (format_int n) ≡ some n
unfolding format_int
parse_int-format_int (pos n) h =
    parse_int_lem (digits int64_fuel n) (digits_start 19 n)
    ∙ (ap (in_range max_int64) (parse_digits-digits int64_fuel n (omega arith) (omega arith))
        ∙ ground arith)
parse_int-format_int (negsuc n) h =
    minus (digits int64_fuel (suc n))
    ∙ (ap negative (
          all_digits_lem (digits int64_fuel (suc n)) (digits_start 19 (suc n))
          ∙ parse_digits-digits int64_fuel (suc n) (omega arith) (omega arith))
        ∙ ground arith)
  where
    minus : (s : Text) → parse_int (b'-' ∷ s) ≡ negative (all_digits s)
    minus s = unfold parse_int in refl
