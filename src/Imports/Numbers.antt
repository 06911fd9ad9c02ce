-- ===== src/Imports/Numbers.antt =====
-- `Decimal` of a text, for the quantities of a table, and when two of them are equal. The digits are ASCII, and
-- an exponent is small enough for `decimal`'s limits.
use materials_manager.Base.{
  ℕ, zero, suc, ◌+◌, ◌*◌, ◌^◌, ℤ, pos, negsuc, pos_part, neg_part, ◌-ℤ◌, Text, text, text_eq,
  Option, none, some, Bool, true, false, [], ◌∷◌, not, ◌&&◌, ◌||◌, ◌==◌, leb, keep, all, map, drop,
  truthy, length, strip, if◌then◌else◌,
}
use materials_manager.Purchase.Numbers.{is_digit, digits_value, starts_with}

-- A finite number is coefficient * 10 ^ exponent.
pub data Number : Type 0 where
  finite : ℤ → ℤ → Number
  infinite : Bool → Number
  not_a_number : Number

-- The digits at the start, and the rest.
abbrev span_digits : Text → Text × Text
span_digits [] = ([], [])
span_digits (c ∷ s) =
    let rest = span_digits s in if is_digit c then (c ∷ rest.0, rest.1) else ([], c ∷ s)

abbrev lower : ℕ → ℕ
lower c = if leb 65 c && leb c 90 then c + 32 else c

-- A sign at the start: whether it is `-`, and the rest.
abbrev take_sign : Text → Bool × Text
take_sign [] = (false, [])
take_sign (c ∷ s) = if c == 45 then (true, s) else if c == 43 then (false, s) else (false, c ∷ s)

abbrev negate_if : Bool → ℕ → ℤ
negate_if false n = pos n
negate_if true zero = pos 0
negate_if true (suc n) = negsuc n

-- The rest after the digits: nothing, or `e` and an integer.
abbrev exponent_of : Text → Option ℤ
exponent_of [] = some (pos 0)
exponent_of (c ∷ s) =
    let signed = take_sign s in
    if c == 101 && truthy signed.1 && all is_digit signed.1
    then some (negate_if signed.0 (digits_value 0 signed.1))
    else none

-- Digits, perhaps a point and digits, with a digit somewhere, and perhaps an exponent.
abbrev with_exponent : Bool → Text → Text → Option ℤ → Option Number
with_exponent negative whole fraction none = none
with_exponent negative whole fraction (some e) =
    if truthy whole || truthy fraction
    then some (
        Number.finite (negate_if negative (digits_value (digits_value 0 whole) fraction))
          (e -ℤ pos (length fraction)))
    else none

abbrev after_point : Bool → Text → Text → Option Number
after_point negative whole [] = with_exponent negative whole [] (some (pos 0))
after_point negative whole (c ∷ s) =
    let fraction = span_digits s in
    if c == 46
    then with_exponent negative whole fraction.0 (exponent_of fraction.1)
    else with_exponent negative whole [] (exponent_of (c ∷ s))

-- `NaN` may have digits behind it. A signalling one, which no set can hold, is left out.
abbrev is_nan : Text → Bool
is_nan s = starts_with (text "nan") s && all is_digit (drop 3 s)

abbrev unsigned : Bool → Text → Option Number
unsigned negative s =
    let whole = span_digits s in
    if text_eq s (text "inf") || text_eq s (text "infinity")
    then some (Number.infinite negative)
    else if is_nan s
    then some Number.not_a_number
    else after_point negative whole.0 whole.1

-- `Decimal(text)`; none for `InvalidOperation`. Underscores are dropped.
unfoldable pub number_of : Text → Option Number
number_of s =
    let signed = take_sign (map lower (keep (λ c. not (c == 95)) (strip s))) in
    unsigned signed.0 signed.1

abbrev int_eq : ℤ → ℤ → Bool
int_eq (pos a) (pos b) = a == b
int_eq (negsuc a) (negsuc b) = a == b
int_eq _ _ = false

abbrev times : ℤ → ℕ → ℤ
times (pos a) n = pos (a * n)
times (negsuc a) n = negate_if true (suc a * n)

abbrev same_sign : Bool → Bool → Bool
same_sign true b = b
same_sign false b = not b

-- `==`: by value, and a number that is none equals nothing.
unfoldable pub number_eq : Number → Number → Bool
number_eq (Number.finite a e) (Number.finite b f) =
    int_eq (times a (10 ^ (pos_part e + neg_part f))) (times b (10 ^ (pos_part f + neg_part e)))
number_eq (Number.infinite a) (Number.infinite b) = same_sign a b
number_eq _ _ = false
