-- ===== src/Identifiers/Tests.antt =====
-- Runs of the identifiers, and instances of their theorems.
use materials_manager.Base.{
  ◌+◌, ◌-◌, ◌/◌, ◌%◌, ◌^◌, ◌<◌, ◌≡◌, refl, none, some, List, [], ◌∷◌, arith,
}
use materials_manager.Identifiers.{Reading, Stamp, next_stamp, uuid7_value, uuid7_values}
use materials_manager.Identifiers.Increasing.{
  IsReading, IsIncreasing, uuid7_values-IsIncreasing, uuid7_value-fields,
}

-- The clock moves on, stands still and goes back.
abbrev readings : List Reading
readings =
    record { time_ns = 5000000; randbits = 9 }
    ∷ record { time_ns = 7000000; randbits = 2 ^ 74 - 1 }
    ∷ record { time_ns = 7999999; randbits = 4 }
    ∷ record { time_ns = 6000000; randbits = 1 }
    ∷ []

reads : (r : Reading) → r.randbits < 2 ^ 74 → r.time_ns / 1000000 + 4 < 2 ^ 48 → IsReading 4 r
reads r h k = record { randbits = h; clock = k }

uuid7_values-IsIncreasing_example : IsIncreasing (uuid7_values none readings)
uuid7_values-IsIncreasing_example = uuid7_values-IsIncreasing readings (
  reads (record { time_ns = 5000000; randbits = 9 }) (omega arith) (omega arith),
  (
    reads (record { time_ns = 7000000; randbits = 2 ^ 74 - 1 }) (omega arith) (omega arith),
    (
      reads (record { time_ns = 7999999; randbits = 4 }) (omega arith) (omega arith),
      (reads (record { time_ns = 6000000; randbits = 1 }) (omega arith) (omega arith), tt),
    ),
  ),
)

-- When the random bits run over, the millisecond goes up.
runs_over :
    next_stamp
      (some (record { last_millisecond = 7; last_random = 2 ^ 74 - 1 }))
      (record { time_ns = 7999999; randbits = 4 })
    ≡ record { last_millisecond = 8; last_random = 0 }
unfolding next_stamp
runs_over = refl

abbrev stamp : Stamp
stamp = record { last_millisecond = 7; last_random = 2 ^ 73 }

uuid7_value-fields_example :
    (uuid7_value stamp < 2 ^ 128)
    × (uuid7_value stamp / 2 ^ 76 % 16 ≡ 7)
    × (uuid7_value stamp / 2 ^ 62 % 4 ≡ 2)
uuid7_value-fields_example = uuid7_value-fields stamp (omega arith)
