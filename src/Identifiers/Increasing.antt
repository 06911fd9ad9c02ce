-- ===== src/Identifiers/Increasing.antt =====
-- The order of the identifiers of backend/app/core/identifiers.py.
use materials_manager.Base.{
  ℕ, suc, length, ◌+◌, ◌/◌, ◌%◌, ◌^◌, ◌≤◌, ◌<◌, ◌≡◌, Option, none, some, Bool, true, List, [], ◌∷◌,
  ◌||◌, ◌&&◌, ltb, ◌==◌, All, arith,
}
use materials_manager.Identifiers.{Reading, Stamp, next_stamp, uuid7_value, uuid7_values}

-- The random bits fit, and so does the millisecond.
pub record IsStamp (s : Stamp) : Type 0 where
  pub millisecond : s.last_millisecond < 2 ^ 48
  pub random : s.last_random < 2 ^ 74

-- Later by the millisecond, or in the same one by the random bits.
abbrev is_before : Stamp → Stamp → Bool
is_before s t =
    ltb s.last_millisecond t.last_millisecond
    || (s.last_millisecond == t.last_millisecond && ltb s.last_random t.last_random)

next_stamp-before :
    (s : Stamp) (r : Reading) → s.last_random < 2 ^ 74 → is_before s (next_stamp (some s) r) ≡ true
unfolding next_stamp
next_stamp-before s r h = ground arith

next_stamp-random :
    (last : Option Stamp) (r : Reading)
    → r.randbits < 2 ^ 74
    → (next_stamp last r).last_random < 2 ^ 74
unfolding next_stamp
next_stamp-random none r h = h
next_stamp-random (some s) r h = ground arith

uuid7_value-before :
    (s t : Stamp) → IsStamp s → IsStamp t → is_before s t ≡ true → uuid7_value s < uuid7_value t
unfolding uuid7_value
uuid7_value-before s t a b h =
    let am = a.millisecond in
    let ar = a.random in let bm = b.millisecond in let br = b.random in ground arith

-- A reading of a call that at most `n` calls follow: the bits fit, and the clock is far enough from
-- the end of its field.
pub record IsReading (n : ℕ) (r : Reading) : Type 0 where
  pub randbits : r.randbits < 2 ^ 74
  pub clock : r.time_ns / 1000000 + n < 2 ^ 48

-- Each number is below all that follow it.
abbrev pub IsIncreasing : List ℕ → Type 0
IsIncreasing [] = Unit
IsIncreasing (x ∷ xs) = All (λ y. x < y) xs × IsIncreasing xs

next_stamp-millisecond :
    (s : Stamp) (r : Reading) (m : ℕ)
    → s.last_millisecond + suc m < 2 ^ 48
    → r.time_ns / 1000000 + m < 2 ^ 48
    → (next_stamp (some s) r).last_millisecond + m < 2 ^ 48
unfolding next_stamp
next_stamp-millisecond s r m h k = ground arith

-- A stamp that at most `m` calls follow.
record IsRoomy (m : ℕ) (s : Stamp) : Type 0 where
  millisecond : s.last_millisecond + m < 2 ^ 48
  random : s.last_random < 2 ^ 74

roomy-IsStamp : (m : ℕ) (s : Stamp) → IsRoomy m s → IsStamp s
roomy-IsStamp m s a =
    let h = a.millisecond in record { millisecond = omega (arith, h); random = a.random }

module _ (n : ℕ) where
  next_stamp-IsRoomy :
      (m : ℕ) (s : Stamp) (r : Reading)
      → IsRoomy (suc m) s
      → IsReading n r
      → m ≤ n
      → IsRoomy m (next_stamp (some s) r)
  next_stamp-IsRoomy m s r a b le =
      let c = b.clock in
      record {
        millisecond = next_stamp-millisecond s r m a.millisecond (omega (arith, c, le));
        random = next_stamp-random (some s) r b.randbits;
      }

  next-rises :
      (m : ℕ) (s : Stamp) (r : Reading)
      → IsRoomy (suc m) s
      → IsReading n r
      → m ≤ n
      → uuid7_value s < uuid7_value (next_stamp (some s) r)
  next-rises m s r a b le =
      uuid7_value-before s (next_stamp (some s) r) (roomy-IsStamp (suc m) s a)
        (roomy-IsStamp m (next_stamp (some s) r) (next_stamp-IsRoomy m s r a b le))
        (next_stamp-before s r a.random)

  values-above :
      (x : ℕ) (s : Stamp) (rs : List Reading)
      → x ≤ uuid7_value s
      → IsRoomy (length rs) s
      → All (IsReading n) rs
      → length rs ≤ n
      → All (λ y. x < y) (uuid7_values (some s) rs)
  unfolding uuid7_values
  values-above x s [] low a b le = tt
  values-above x s (r ∷ rs) low a b le =
      let rise = next-rises (length rs) s r a b.0 (omega (arith, le)) in
      (
        omega (arith, low, rise),
        values-above x (next_stamp (some s) r) rs (omega (arith, low, rise))
            (next_stamp-IsRoomy (length rs) s r a b.0 (omega (arith, le))) b.1 (omega (arith, le)),
      )

  values-IsIncreasing :
      (s : Stamp) (rs : List Reading)
      → IsRoomy (length rs) s
      → All (IsReading n) rs
      → length rs ≤ n
      → IsIncreasing (uuid7_values (some s) rs)
  unfolding uuid7_values
  values-IsIncreasing s [] a b le = tt
  values-IsIncreasing s (r ∷ rs) a b le =
      let room = next_stamp-IsRoomy (length rs) s r a b.0 (omega (arith, le)) in
      (
        values-above (uuid7_value (next_stamp (some s) r)) (next_stamp (some s) r) rs (omega arith)
            room b.1 (omega (arith, le)),
        values-IsIncreasing (next_stamp (some s) r) rs room b.1 (omega (arith, le)),
      )

-- The identifiers of a process increase strictly from its start, whatever the clock does, also when
-- it stands still or goes back, if the random bits of every call are below `2 ^ 74` and every
-- millisecond of the clock and the number of calls together stay below `2 ^ 48`.
pub uuid7_values-IsIncreasing :
    (rs : List Reading) → All (IsReading (length rs)) rs → IsIncreasing (uuid7_values none rs)
unfolding uuid7_values next_stamp
uuid7_values-IsIncreasing [] b = tt
uuid7_values-IsIncreasing (r ∷ rs) b =
    let first : IsRoomy (length rs) (next_stamp none r) =
      (let c = b.0.clock in record { millisecond = omega (arith, c); random = b.0.randbits }) in
    (
      values-above (suc (length rs)) (uuid7_value (next_stamp none r)) (next_stamp none r) rs
          (omega arith) first b.1 (omega arith),
      values-IsIncreasing (suc (length rs)) (next_stamp none r) rs first b.1 (omega arith),
    )

-- The value fits in 128 bits and has the version 7 and the variant of RFC 9562, if the random bits
-- are below `2 ^ 74`; the millisecond may be any.
pub uuid7_value-fields :
    (s : Stamp)
    → s.last_random < 2 ^ 74
    → (uuid7_value s < 2 ^ 128)
      × (uuid7_value s / 2 ^ 76 % 16 ≡ 7)
      × (uuid7_value s / 2 ^ 62 % 4 ≡ 2)
unfolding uuid7_value
uuid7_value-fields s h = (omega (arith, h), omega (arith, h), omega (arith, h))
