-- ===== src/Gateway/Connection/Scoring.antt =====
-- gateway/connection.ts: `trusted`, `signal`, `applyTier` and `persistSoon`.
use the_room_backend.Base.{
  ℕ, Bool, true, false, ◌||◌, Option, none, some, ltb, leb, is_some, not, if◌then◌else◌,
}
use the_room_backend.Base.Int.{pos}
use the_room_backend.Abuse.RateLimit.{reconfigure}
use the_room_backend.Abuse.Suspicion.{Signal, points, add, value}
use the_room_backend.Abuse.Suspicion.Thresholds
use the_room_backend.Store.{SessionRecord}
use the_room_backend.Gateway.World.{
  Connection, Level, is_normal, is_throttled, is_restricted, tier_of, M, ◌>>=◌, world, on_conn,
}

abbrev trusted_until : Option SessionRecord → ℕ
trusted_until none = 0
trusted_until (some rec) = rec.trusted_until

abbrev pub trusted : (now : ℕ) → Connection → Bool
trusted now c = ltb now (trusted_until c.rec)

abbrev pub same_level : Level → Level → Bool
same_level is_normal is_normal = true
same_level is_throttled is_throttled = true
same_level is_restricted is_restricted = true
same_level _ _ = false

unfoldable pub level_for : (v : ℕ) → Level
level_for v =
    if leb Thresholds.severe v
    then is_restricted
    else if leb Thresholds.throttle v
    then is_throttled
    else is_normal

unfoldable pub apply_tier : (decay : ℕ → ℕ → ℕ) → (now : ℕ) → Connection → Connection
apply_tier decay now c =
    let next = level_for (value decay now c.score) in
    if same_level next c.tier
    then c
    else record c { tier = next; bucket = reconfigure (tier_of next) now c.bucket }

-- A timer of five seconds, one at a time, once there is a session.
abbrev pub persist_soon : Connection → Connection
persist_soon c =
    if not (is_some c.rec) || c.persist_timer then c else record c { persist_timer = true }

unfoldable pub signal_at : (decay : ℕ → ℕ → ℕ) → (now : ℕ) → Signal → Connection → Connection
signal_at decay now name c = persist_soon (
    apply_tier decay now
      (record c { score = add decay (pos (points name)) now (trusted now c) c.score }))

unfoldable pub signal : Signal → M (Unit {0})
signal name = do w ← world; on_conn (signal_at w.srv.platform.decay w.srv.now name)
