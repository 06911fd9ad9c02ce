-- ===== src/Purchase/Numbers/Digits.antt =====
-- The three digits at the end of a plan number.
use materials_manager.Base.{
  ℕ, ◌+◌, ◌/◌, ◌%◌, ◌≤◌, ◌≡◌, refl, Text, true, false, [], ◌∷◌, ◌&&◌, ltb, all, contains, truthy,
  arith,
}
use materials_manager.Core.Tx.{ok, pure}
use materials_manager.Model.Database.{Db}
use materials_manager.Purchase.Numbers.{text_ltb, digits_value, is_digit, to_int}

abbrev pub three : ℕ → Text
three k = (48 + k / 100) ∷ (48 + k / 10 % 10) ∷ (48 + k % 10) ∷ []

pub text_ltb-three : (a b : ℕ) → a ≤ 999 → b ≤ 999 → text_ltb (three a) (three b) ≡ ltb a b
unfolding text_ltb
text_ltb-three a b h k = ground arith

pub no_dash : (k : ℕ) → k ≤ 999 → contains 45 (three k) ≡ false
no_dash k h = ground arith

pub to_int-three : (k : ℕ) (db : Db) → k ≤ 999 → to_int (three k) db ≡ ok (k, db)
unfolding to_int digits_value pure
to_int-three k db h =
    let valid : (truthy (three k) && all is_digit (three k)) ≡ true = ground arith in
    let value : digits_value 0 (three k) ≡ k = omega arith in rw (valid, value) refl
