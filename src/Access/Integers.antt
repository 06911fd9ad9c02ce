-- ===== src/Access/Integers.antt =====
-- `int` of a text, as the headers and the tokens of the program hold numbers, and that it reads what
-- `str` of an integer writes. The text has ASCII digits: a header is Latin-1, and a token is one that the
-- program signed.
use materials_manager.Base.{
  ℕ, zero, suc, ◌+◌, ◌-◌, ◌*◌, ◌/◌, ◌%◌, ◌≤◌, ◌<◌, ◌≡◌, refl, ap, ◌∙◌, ℤ, pos, negsuc, Text, Option,
  none, some, Bool, true, false, [], ◌∷◌, ◌&&◌, ◌==◌, ltb, all, length, strip, strip_start,
  strip_end, is_space, Bool-cases, inl, inr, arith, if◌then◌else◌,
}
use materials_manager.Core.Calendar.{digits, zero_padded}
use materials_manager.Purchase.Numbers.{is_digit}
use materials_manager.Imports.{decimal}

-- Digits, with single underscores between them. `after` says whether a digit stands before.
unfoldable pub digits_run : Bool → ℕ → Text → Option ℕ
digits_run after acc [] = if after then some acc else none
digits_run after acc (c ∷ s) = elim (is_digit c) [
  | true ↦ digits_run true (acc * 10 + (c - 48)) s
  | false ↦ (elim (c == 95 && after) [ true ↦ digits_run false acc s | false ↦ none ])
]

abbrev pub negated : Option ℕ → Option ℤ
negated none = none
negated (some zero) = some (pos 0)
negated (some (suc n)) = some (negsuc n)

abbrev pub positive : Option ℕ → Option ℤ
positive none = none
positive (some n) = some (pos n)

unfoldable pub signed : Text → Option ℤ
signed [] = none
signed (c ∷ s) =
    if c == 45
    then negated (digits_run false 0 s)
    else (if c == 43
        then positive (digits_run false 0 s)
        else positive (digits_run false 0 (c ∷ s)))

-- `int(s)`; `none` for a `ValueError`.
unfoldable pub int_of : Text → Option ℤ
int_of s = signed (strip s)

digits_run-digit :
    (after : Bool) (acc d : ℕ) (s : Text)
    → d < 10
    → digits_run after acc ((48 + d) ∷ s) ≡ digits_run true (acc * 10 + d) s
unfolding digits_run
digits_run-digit after acc d s h =
    let e : is_digit (48 + d) ≡ true = ground arith in
    rw (digits_run, e) (ap (λ (k : ℕ). digits_run true (acc * 10 + k) s) (omega arith))

digits_run-digits :
    (f n : ℕ) (after : Bool) (rest : Text)
    → n < f
    → digits_run after 0 (digits f n rest) ≡ digits_run true n rest
unfolding digits
digits_run-digits zero n after rest h = absurd (omega arith)
digits_run-digits (suc f) n after rest h = elim (Bool-cases (ltb n 10)) [
  | inl small ↦ rw small (
      digits_run-digit after 0 n rest (ground arith)
      ∙ ap (λ (k : ℕ). digits_run true k rest) (omega arith))
  | inr large ↦ rw large (
      digits_run-digits f (n / 10) after ((48 + n % 10) ∷ rest) (ground arith)
      ∙ digits_run-digit true (n / 10) (n % 10) rest (omega arith)
      ∙ ap (λ (k : ℕ). digits_run true k rest) (omega arith))
]

all-digits :
    (f n : ℕ) (rest : Text) → all is_digit rest ≡ true → all is_digit (digits f n rest) ≡ true
unfolding digits
all-digits zero n rest h = h
all-digits (suc f) n rest h = elim (Bool-cases (ltb n 10)) [
  | inl small ↦ rw small (ground arith)
  | inr large ↦ rw large (all-digits f (n / 10) ((48 + n % 10) ∷ rest) (ground arith))
]

digits-cons : (f n : ℕ) (rest : Text) → n < f → 1 ≤ length (digits f n rest)
unfolding digits
digits-cons zero n rest h = absurd (omega arith)
digits-cons (suc f) n rest h = elim (Bool-cases (ltb n 10)) [
  | inl small ↦ rw small (omega arith)
  | inr large ↦ rw large (digits-cons f (n / 10) ((48 + n % 10) ∷ rest) (ground arith))
]

digit-space : (c : ℕ) → is_digit c ≡ true → is_space c ≡ false
unfolding is_space
digit-space c h = ground arith

strip_start-digits : (s : Text) → all is_digit s ≡ true → strip_start s ≡ s
unfolding strip_start
strip_start-digits [] h = refl
strip_start-digits (c ∷ s) h = let e = digit-space c (ground arith) in rw e refl

strip_end-digits : (s : Text) → all is_digit s ≡ true → strip_end s ≡ s
unfolding strip_end
strip_end-digits [] h = refl
strip_end-digits (c ∷ s) h =
    let e = digit-space c (ground arith) in
    rw e (ap (λ (r : Text). c ∷ r) (strip_end-digits s (ground arith)))

pub strip-digits : (s : Text) → all is_digit s ≡ true → strip s ≡ s
unfolding strip
strip-digits s h = ap strip_end (strip_start-digits s h) ∙ strip_end-digits s h

signed-digits :
    (s : Text) → 1 ≤ length s → all is_digit s ≡ true → signed s ≡ positive (digits_run false 0 s)
unfolding signed
signed-digits [] n h = absurd (omega arith)
signed-digits (c ∷ s) n h = ground arith

pub decimal-digits : (n : ℕ) → decimal n ≡ digits (suc n) n []
unfolding zero_padded
decimal-digits n =
    let long = digits-cons (suc n) n [] (omega arith) in
    let none_missing : 1 - length (digits (suc n) n []) ≡ 0 = omega (arith, long) in
    rw none_missing refl

pub all-digits-decimal : (n : ℕ) → all is_digit (decimal n) ≡ true
all-digits-decimal n = ap (all is_digit) (decimal-digits n) ∙ all-digits (suc n) n [] refl

-- `int(str(n))` is `n`.
pub int_of-decimal : (n : ℕ) → int_of (decimal n) ≡ some (pos n)
unfolding int_of digits_run
int_of-decimal n =
    ap signed (strip-digits (decimal n) (all-digits-decimal n))
    ∙ ap signed (decimal-digits n)
    ∙ signed-digits (digits (suc n) n []) (digits-cons (suc n) n [] (omega arith))
        (all-digits (suc n) n [] refl)
    ∙ ap positive (digits_run-digits (suc n) n false [] (omega arith))

pub decimal-cons : (n : ℕ) → 1 ≤ length (decimal n)
decimal-cons n =
    let long = digits-cons (suc n) n [] (omega arith) in
    omega (arith, ap length (decimal-digits n), long)
