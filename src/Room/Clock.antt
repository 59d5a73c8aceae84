-- ===== src/Room/Clock.antt =====
-- room/clock.ts: the clock that follows the shared store's. Times are milliseconds; the host's own
-- clock, `Date.now()`, is an argument of each operation.
pub mod Drift
use the_room_backend.Base.{ℕ, suc, ◌+◌, ◌-◌, ◌*◌, ◌/◌, Option, none, some, leb, if◌then◌else◌}
use the_room_backend.Base.Int.{ℤ, pos, negsuc, add_clipped}

pub record SyncedClock : Type 0 where
  pub offset : ℤ

abbrev pub new_clock : SyncedClock
new_clock = record { offset = pos 0 }

unfoldable pub now : (date_now : ℕ) → SyncedClock → ℕ
now date_now c = add_clipped date_now c.offset

-- `Math.round(remote - (t0 + t1) / 2)`: a half goes up.
unfoldable pub round_offset : (remote t0 t1 : ℕ) → ℤ
round_offset remote t0 t1 =
    let a = 2 * remote + 1 in
    let b = t0 + t1 in if leb b a then pos ((a - b) / 2) else negsuc ((b - a - 1) / 2)

-- `t0` and `t1` are the host's times before and after the call; where the call fails, the offset
-- stays.
unfoldable pub sync : (t0 t1 : ℕ) → Option ℕ → SyncedClock → SyncedClock
sync t0 t1 none c = c
sync t0 t1 (some remote) c = record { offset = round_offset remote t0 t1 }
