-- ===== src/Core/Quantity.antt =====
-- backend/app/services/common.py, `validate_quantity_precision`, over Python's `Decimal`.
use materials_manager.Base.{
  ℕ, zero, suc, ◌*◌, ◌/◌, ◌%◌, ◌^◌, ◌≤◌, ◌≡◌, ◌↔◌, true, refl, arith, leb, ltb, ◌==◌, if◌then◌else◌,
  none, Bool-cases, inl, inr, ap, sym,
}
use native.Mathlib.Nat.{pow-suc, one-le-pow, div-eq_of_eq-mul_left}
use materials_manager.Core.Errors.{ErrorCode, app_error}
use materials_manager.Core.Tx.{ok, Tx, raise_if, actions}

-- The number coefficient / 10 ^ places. A positive exponent is written out in the coefficient. A
-- quantity of a request is never negative and has at most 18 digits, so `normalize` does not round.
pub record Decimal : Type 0 where
  pub coefficient : ℕ
  pub places : ℕ

-- The decimal places of `normalize()`, which strips the zeros at the end.
normal_places : ℕ → ℕ → ℕ
normal_places c zero = 0
normal_places c (suc p) = let rest = normal_places (c / 10) p in if c % 10 == 0 then rest else suc p

unfoldable pub decimal_exponent : Decimal → ℕ
unfolding normal_places
decimal_exponent d = normal_places d.coefficient d.places

unfoldable pub validate_quantity_precision : {S : Type 0} → Decimal → Tx S (Unit {0})
unfolding decimal_exponent
validate_quantity_precision d =
    raise_if (ltb 1 (decimal_exponent d)) (app_error ErrorCode.invalid_quantity_precision none)

-- The quantity in tenths, the unit of a `Numeric(18, 1)` column.
unfoldable pub tenths : Decimal → ℕ
tenths d = d.coefficient * 10 / 10 ^ d.places

-- Stripping zeros leaves at most one place exactly if the number is a whole number of tenths.
normal_places-tenths :
    (c p : ℕ) → leb (normal_places c p) 1 ≡ true → (t : ℕ) × (t * 10 ^ p ≡ c * 10)
unfolding normal_places
normal_places-tenths c zero h = (c * 10, omega arith)
normal_places-tenths c (suc p) h = elim (Bool-cases (c % 10 == 0)) [
  | inl e ↦
      let r = normal_places-tenths (c / 10) p (ground arith) in
      let q : c / 10 * 10 ≡ c = ground arith in (r.0, rw pow-suc (grind (arith, r.1, q)))
  | inr e ↦ let z : p ≡ 0 = ground arith in (c, rw z (omega arith))
]

power_ten_divides : (c p t : ℕ) → t * 10 ^ suc p ≡ c → c % 10 ≡ 0
power_ten_divides c p t h =
    let q : t * 10 ^ p * 10 ≡ c = rw (← h, pow-suc) (grind arith) in omega arith

tenths-normal_places : (c p t : ℕ) → t * 10 ^ p ≡ c * 10 → leb (normal_places c p) 1 ≡ true
unfolding normal_places
tenths-normal_places c zero t h = refl
tenths-normal_places c (suc zero) t h = ground arith
tenths-normal_places c (suc (suc p)) t h =
    let q : t * 10 ^ suc p ≡ c =
      omega (arith, pow-suc 10 (suc p), ap (λ (x : ℕ). t * x) (pow-suc 10 (suc p))) in
    let e : c % 10 ≡ 0 = power_ten_divides c p t q in
    let ih = tenths-normal_places (c / 10) (suc p) t (omega arith) in ground (arith, ih)

ten-power-pos : (p : ℕ) → 1 ≤ 10 ^ p
ten-power-pos p = one-le-pow p 10 (omega arith)

tenths-eq : (d : Decimal) (t : ℕ) → t * 10 ^ d.places ≡ d.coefficient * 10 → tenths d ≡ t
unfolding tenths
tenths-eq d t h = div-eq_of_eq-mul_left (ten-power-pos d.places) (sym h)

-- The precision check accepts a quantity exactly if the tenths that are stored are its exact value,
-- and then it changes nothing.
pub validate_quantity_precision-exact :
    {S : Type 0} (d : Decimal) (s : S)
    → (validate_quantity_precision d s ≡ ok (tt, s))
      ↔ (tenths d * 10 ^ d.places ≡ d.coefficient * 10)
unfolding validate_quantity_precision actions
validate_quantity_precision-exact d s = (to, from)
  where
    to :
        validate_quantity_precision d s ≡ ok (tt, s) → tenths d * 10 ^ d.places ≡ d.coefficient * 10
    to h =
        let (t, e) = normal_places-tenths d.coefficient d.places (ground arith) in
        rw (tenths-eq d t e) e

    from :
        tenths d * 10 ^ d.places ≡ d.coefficient * 10 → validate_quantity_precision d s ≡ ok (tt, s)
    from h =
        let small = tenths-normal_places d.coefficient d.places (tenths d) h in
        ground (arith, small)
