-- ===== src/Room/Clock/Drift.antt =====
-- room/clock.ts: how far the clock is from the store's.
use the_room_backend.Base.{ℕ, ◌+◌, ◌-◌, ◌*◌, ◌≤◌, ◌≡◌, some, arith}
use the_room_backend.Room.Clock.{SyncedClock, now, round_offset, sync}

-- Where the store's clock is ahead of the host's by a constant, or behind it, and answers at a moment
-- of the call: from the call's end on the clock is within half the call's time, and half a
-- millisecond, of the store's, whatever its offset was before.
pub now-sync :
    (t0 t t1 later ahead behind remote : ℕ) (c : SyncedClock)
    → t0 ≤ t
    → t ≤ t1
    → t1 ≤ later
    → remote + behind ≡ t + ahead
    → let estimate = now later (sync t0 t1 (some remote) c) in
      (2 * (estimate + behind) ≤ 2 * (later + ahead) + (t1 - t0) + 1)
      × (2 * (later + ahead) ≤ 2 * (estimate + behind) + (t1 - t0) + 1)
unfolding now sync round_offset
now-sync t0 t t1 later ahead behind remote c h h' h'' e = ground arith
