-- ===== src/Identifiers.antt =====
-- backend/app/core/identifiers.py: the identifiers of files and share links. The lock
-- makes the calls of a process follow one another, so the two global variables are a state that each
-- call reads and writes. The clock (`time_ns`) and the random bits are readings from outside. The
-- value is the integer of the UUID; writing it in hexadecimal digits is left out.
pub mod Increasing
pub mod Tests
use materials_manager.Base.{
  ℕ, ◌+◌, ◌*◌, ◌/◌, ◌%◌, ◌^◌, Option, none, some, List, [], ◌∷◌, ltb, ◌==◌, if◌then◌else◌,
}

-- What one call reads: nanoseconds, and the bits it would draw.
pub record Reading : Type 0 where
  pub time_ns : ℕ
  pub randbits : ℕ

-- `_last_millisecond` and `_last_random` after a call. Before the first call the millisecond is -1,
-- which every clock is past: there is no stamp then.
pub record Stamp : Type 0 where
  pub last_millisecond : ℕ
  pub last_random : ℕ

-- The clock has not moved on: the random bits are counted up, and when they run over, the
-- millisecond.
abbrev pub count_up : ℕ → ℕ → Stamp
count_up millisecond random_bits = record {
  last_millisecond = if random_bits == 0 then millisecond + 1 else millisecond;
  last_random = random_bits;
}

unfoldable pub next_stamp : Option Stamp → Reading → Stamp
next_stamp none r = record { last_millisecond = r.time_ns / 1000000; last_random = r.randbits }
next_stamp (some last) r =
    if ltb last.last_millisecond (r.time_ns / 1000000)
    then record { last_millisecond = r.time_ns / 1000000; last_random = r.randbits }
    else count_up last.last_millisecond ((last.last_random + 1) % 2 ^ 74)

-- The fields do not overlap while the random bits are below `2 ^ 74`, so that `|` is addition.
unfoldable pub uuid7_value : Stamp → ℕ
uuid7_value s =
    s.last_millisecond % 2 ^ 48 * 2 ^ 80
    + (7 * 2 ^ 76 + (s.last_random / 2 ^ 62 * 2 ^ 64 + (2 * 2 ^ 62 + s.last_random % 2 ^ 62)))

-- The values of calls that follow one another.
unfoldable pub uuid7_values : Option Stamp → List Reading → List ℕ
uuid7_values last [] = []
uuid7_values last (r ∷ rs) =
    uuid7_value (next_stamp last r) ∷ uuid7_values (some (next_stamp last r)) rs
