-- ===== src/Core/Calendar.antt =====
-- The parts of `datetime` that the program uses. A time is the number of microseconds since
-- 1970-01-01 00:00 UTC, and never before it.
use materials_manager.Base.{
  ℕ, zero, suc, ◌+◌, ◌-◌, ◌*◌, ◌/◌, ◌%◌, [], ◌∷◌, ◌++◌, Text, length, ltb, leb, true, false, ◌≤◌,
  ◌<◌, ◌≡◌, refl, arith, Bool-cases, inl, inr, ap, ◌∙◌, if◌then◌else◌,
}

abbrev pub Time : Type 0
Time = ℕ

abbrev pub microseconds_per_day : ℕ
microseconds_per_day = 86400000000

pub record CivilDate : Type 0 where
  pub year : ℕ
  pub month : ℕ
  pub day : ℕ

-- The Gregorian date of a day number, by years that begin in March.
unfoldable pub date_of_days : ℕ → CivilDate
date_of_days n =
    let z = n + 719468 in
    let era = z / 146097 in
    let doe = z - era * 146097 in
    let yoe = (doe - doe / 1460 + doe / 36524 - doe / 146096) / 365 in
    let doy = doe - (365 * yoe + yoe / 4 - yoe / 100) in
    let mp = (5 * doy + 2) / 153 in
    let m = if ltb mp 10 then mp + 3 else mp - 9 in
    record {
      year = yoe + era * 400 + (if leb m 2 then 1 else 0);
      month = m;
      day = doy - (153 * mp + 2) / 5 + 1;
    }

unfoldable pub date_of : Time → CivilDate
unfolding date_of_days
date_of t = date_of_days (t / microseconds_per_day)

-- The decimal digits of a number, before `acc`; the fuel is larger than the number.
unfoldable pub digits : ℕ → ℕ → Text → Text
digits zero n acc = acc
digits (suc f) n acc =
    let rest = digits f (n / 10) ((48 + n % 10) ∷ acc) in if ltb n 10 then (48 + n) ∷ acc else rest

abbrev pub zeros : ℕ → Text
zeros zero = []
zeros (suc n) = 48 ∷ zeros n

-- `f"{n:0{width}d}"`
unfoldable pub zero_padded : ℕ → ℕ → Text
unfolding digits
zero_padded width n = let s = digits (suc n) n [] in zeros (width - length s) ++ s

-- `f"{t:%Y%m%d}"`
unfoldable pub format_date : CivilDate → Text
unfolding zero_padded
format_date d = zero_padded 4 d.year ++ (zero_padded 2 d.month ++ zero_padded 2 d.day)

digits-last : (f n : ℕ) (acc : Text) → n < 10 → digits (suc f) n acc ≡ ((48 + n) ∷ acc)
unfolding digits
digits-last f n acc h = let e : ltb n 10 ≡ true = ground arith in rw e refl

digits-more :
    (f n : ℕ) (acc : Text) → 10 ≤ n → digits (suc f) n acc ≡ digits f (n / 10) ((48 + n % 10) ∷ acc)
unfolding digits
digits-more f n acc h = let e : ltb n 10 ≡ false = ground arith in rw e refl

three_eq : {a b c x y z : ℕ} → a ≡ x → b ≡ y → c ≡ z → (a ∷ b ∷ c ∷ []) ≡ (x ∷ y ∷ z ∷ [])
three_eq e f g = cc

padded : Text → Text
padded s = zeros (3 - length s) ++ s

-- A number of at most three digits, with three places.
pub zero_padded-three :
    (k : ℕ) → k ≤ 999 → zero_padded 3 k ≡ ((48 + k / 100) ∷ (48 + k / 10 % 10) ∷ (48 + k % 10) ∷ [])
unfolding zero_padded padded
zero_padded-three zero h = refl
zero_padded-three (suc zero) h = refl
zero_padded-three (suc (suc j)) h =
    let k = suc (suc j) in
    elim (Bool-cases (ltb k 10)) [
      | inl a ↦
          ap padded (digits-last (suc (suc j)) k [] (ground arith))
          ∙ three_eq (ground arith) (ground arith) (ground arith)
      | inr a ↦ elim (Bool-cases (ltb k 100)) [
        | inl b ↦
            ap padded (
              digits-more (suc (suc j)) k [] (ground arith)
              ∙ digits-last (suc j) (k / 10) ((48 + k % 10) ∷ []) (ground arith))
            ∙ three_eq (ground arith) (ground arith) (ground arith)
        | inr b ↦
            ap padded (
              digits-more (suc (suc j)) k [] (ground arith)
              ∙ digits-more (suc j) (k / 10) ((48 + k % 10) ∷ []) (ground arith)
              ∙ digits-last j (k / 10 / 10) ((48 + k / 10 % 10) ∷ (48 + k % 10) ∷ [])
                  (ground arith))
            ∙ three_eq (ground arith) refl refl
      ]
    ]
