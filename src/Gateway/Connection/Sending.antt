-- ===== src/Gateway/Connection/Sending.antt =====
-- gateway/connection.ts: `handleSend` and `decide`. The numbered steps of `decide` are functions
-- of their own, each of which goes on to the next.
use the_room_backend.Base.{
  ℕ, suc, ◌+◌, ◌-◌, max, Bool, true, false, not, ◌&&◌, ◌||◌, Option, none, some, List, [], ◌∷◌,
  ◌++◌, String, ◌==◌, ltb, leb, eqb, if◌then◌else◌, length, drop, keep, any, is_some,
}
use the_room_backend.Base.Dict.{Dict, lookup, insert}
use the_room_backend.Base.Int.{ℤ, pos, negsuc}
use the_room_backend.Base.Text.{◌^^◌}
use the_room_backend.Abuse.RateLimit.{take_tokens, violation_cooldown_ms, Waits}
use the_room_backend.Abuse.Suspicion.{
  record_message, send_before_join, ignored_cooldown, rate_limit_hit, network_flood,
  machine_regular_timing, instant_after_join, own_duplicate, cross_session_duplicate,
}
use the_room_backend.Messaging.Validate.{
  Reason, TextLimits, ValidationResult, accepts, refuses, normalize_text, fingerprint,
}
use the_room_backend.Protocol.{
  ChatMessage, ServerEvent, ack, reject, RejectReason, rate_limited, challenge_required, too_long,
  invalid, stale_room, blocked,
}
use the_room_backend.Room.Day.{DailyRoom, room_at}
use the_room_backend.Store.{SessionRecord, BusEvent}
use the_room_backend.Store.Memory.{append_message, add_to_set}
use the_room_backend.Gateway.World.{
  Connection, OwnMessage, Server, World, M, ◌>>=◌, ◌>>◌, pure, world, on_conn, on_srv, when, draw,
  or_default,
}
use the_room_backend.Gateway.Connection.Transport.{send}
use the_room_backend.Gateway.Connection.Scoring.{signal}
use the_room_backend.Gateway.Connection.Waiting.{await_store, await_publish, no_result}
use the_room_backend.Gateway.Connection.Enforcement.{escalate, send_challenge, the_rec}
use the_room_backend.Gateway.Connection.Join.{count_hit}

pub record SendEvent : Type 0 where
  pub client_id : String
  pub text : List ℕ
  pub day : Option ℕ

-- No retry time where it would be zero.
abbrev pub rejects : SendEvent → RejectReason → (retry_after_ms : ℕ) → ServerEvent
rejects e reason retry = reject e.client_id reason (if eqb retry 0 then none else some retry)

abbrev pub room_of : Server → (now : ℕ) → DailyRoom
room_of s now = room_at now s.platform.zone s.config.epoch_date

-- The part of the server's `checkRoom` that runs at once: the room switches, and the rollover of
-- the connections is under way. Nothing happens while one is.
unfoldable pub check_room : Server → Server
check_room s =
    let next = room_of s s.now in
    if s.rolling
    then s
    else if next.room_id == s.room.room_id
    then s
    else record s { room = next; rolling = true }

-- 8. Accept: persist to the room, fan out, acknowledge.
unfoldable pub deliver : (now : ℕ) → SendEvent → SessionRecord → List ℕ → M ServerEvent
deliver now e rec text = do
  n ← draw
  w ← world
  let message : ChatMessage = record {
    id = w.srv.platform.new_message_id now n;
    author = rec.name;
    text = text;
    ts = now;
    country = rec.country;
  }
  let room = w.srv.room
  stored ← await_store (
      no_result λ clock.
        append_message clock room.room_id (record { public = message; sid = rec.sid })
          w.srv.config.history_limit room.ends_at)
  if not (is_some stored) then pure (rejects e invalid 0) else do
    published ←
        await_publish (BusEvent.message w.srv.instance_id room.room_id message (some w.conn.key))
    if not (is_some published) then pure (rejects e invalid 0) else pure (ack e.client_id message)

-- 7. Escalation.
unfoldable pub unless_stopped : Option RejectReason → SendEvent → M ServerEvent → M ServerEvent
unless_stopped none e m = m
unless_stopped (some reason) e m = pure (rejects e reason 0)

unfoldable pub unless_escalated : (now : ℕ) → SendEvent → M ServerEvent → M ServerEvent
unless_escalated now e m = do reason ← escalate now; unless_stopped reason e m

-- The last eight own messages of the last minute.
abbrev pub recent : (now : ℕ) → List OwnMessage → List OwnMessage
recent now ms = keep (λ m. ltb (now - m.t) 60000) ms

unfoldable pub same_text : List ℕ → List ℕ → Bool
same_text [] [] = true
same_text (a ∷ s) (b ∷ t) = eqb a b && same_text s t
same_text _ _ = false

unfoldable pub note_own : (now : ℕ) → (fp : List ℕ) → Connection → Connection
note_own now fp c =
    let own = recent now c.recent_own ++ record { fp = fp; t = now } ∷ [] in
    record c { recent_own = if ltb 8 (length own) then drop 1 own else own }

-- The same text from several sessions.
unfoldable pub cross_duplicate : SessionRecord → (fp : List ℕ) → M (Unit {0})
cross_duplicate rec fp = when (leb 12 (length fp)) (do
  w ← world
  senders ← await_store (λ now.
      add_to_set now ("dup:" ^^ (rec.room_id ^^ (":" ^^ w.srv.platform.hash_text fp))) rec.sid
        30000)
  when (leb 4 (or_default 0 senders)) (signal cross_session_duplicate))

-- What `this.timing.record(now)` and `this.bucket.take(now)` leave behind.
unfoldable pub record_time : (now : ℕ) → Connection → Connection
record_time now c = record c { timing = (record_message now c.timing).1 }

unfoldable pub take_token : Waits → (now : ℕ) → Connection → Connection
take_token waits now c = record c { bucket = (take_tokens waits now 1 c.bucket).1 }

-- 6. Behavioural signals.
unfoldable pub behave : (now : ℕ) → SessionRecord → List ℕ → M (Unit {0})
behave now rec text = do
  w ← world
  on_conn (record_time now)
  when (record_message now w.conn.timing).0 (signal machine_regular_timing)
  when (ltb (now - w.conn.joined_at) 400) (signal instant_after_join)
  let fp = fingerprint w.srv.platform.unicode text
  when (any (λ m. same_text m.fp fp) (recent now w.conn.recent_own)) (signal own_duplicate)
  on_conn (note_own now fp)
  cross_duplicate rec fp

-- 5. The network's share, then the steps behind it.
unfoldable pub network_and_on : (now : ℕ) → SendEvent → SessionRecord → List ℕ → M ServerEvent
network_and_on now e rec text = do
  w ← world
  n ← count_hit ("ipmsg:" ^^ w.conn.info.net.daily_hash) 10000
  if ltb 80 n
      then (do signal network_flood; pure (rejects e rate_limited 5000))
      else (do behave now rec text; unless_escalated now e (deliver now e rec text))

-- A message during the announced cooldown.
unfoldable pub in_cooldown : (now : ℕ) → SendEvent → M ServerEvent
in_cooldown now e = do
  w ← world
  let refuse = pure (rejects e rate_limited (w.conn.cooldown_until - now))
  if leb 250 (now - w.conn.last_ignored_signal)
      then (do
        on_conn (λ c. record c { last_ignored_signal = now })
        signal ignored_cooldown
        unless_escalated now e refuse)
      else refuse

-- The strikes and the cooldown after a refused token.
unfoldable pub strike : (now wait : ℕ) → Connection → Connection
strike now wait c =
    let strikes = suc (if ltb 60000 (now - c.last_strike_at) then 0 else c.strikes) in
    record c {
      strikes = strikes;
      last_strike_at = now;
      cooldown_until = now + max wait (violation_cooldown_ms strikes);
    }

unfoldable pub out_of_tokens : (now wait : ℕ) → SendEvent → M ServerEvent
out_of_tokens now wait e = do
  on_conn (strike now wait)
  signal rate_limit_hit
  w ← world
  unless_escalated now e
      (do w' ← world; pure (rejects e rate_limited (w'.conn.cooldown_until - now)))

-- 4. The session's rate limit.
unfoldable pub rate_and_on : (now : ℕ) → SendEvent → SessionRecord → List ℕ → M ServerEvent
rate_and_on now e rec text = do
  w ← world
  if ltb now w.conn.cooldown_until then in_cooldown now e else do
    on_conn (take_token w.srv.platform.waits now)
    let wait = (take_tokens w.srv.platform.waits now 1 w.conn.bucket).0
    if ltb 0 wait then out_of_tokens now wait e else network_and_on now e rec text

-- 3. Content.
unfoldable pub reason_of : Reason → RejectReason
reason_of Reason.too_long = too_long
reason_of Reason.invalid = invalid

unfoldable pub checked_and_on :
    (now : ℕ) → SendEvent → SessionRecord → ValidationResult → M ServerEvent
checked_and_on now e rec (refuses r) = pure (rejects e (reason_of r) 0)
checked_and_on now e rec (accepts text) = rate_and_on now e rec text

abbrev pub limits_of : Server → TextLimits
limits_of s = record {
  max_length = s.config.max_message_length;
  max_lines = s.config.max_message_lines;
}

unfoldable pub content_and_on : (now : ℕ) → SendEvent → SessionRecord → M ServerEvent
content_and_on now e rec = do
  w ← world
  checked_and_on now e rec (normalize_text w.srv.platform.unicode (limits_of w.srv) e.text)

-- 2. Enforcement state.
unfoldable pub enforce_and_on : (now : ℕ) → SendEvent → SessionRecord → M ServerEvent
enforce_and_on now e rec = do
  w ← world
  if ltb now w.conn.blocked_until
      then pure (rejects e blocked (w.conn.blocked_until - now))
      else if rec.challenge_pending
      then (do send_challenge false; pure (rejects e challenge_required 0))
      else content_and_on now e rec

abbrev is_day : ℕ → ℤ → Bool
is_day n (pos m) = eqb n m
is_day n (negsuc m) = false

-- The day the client believes it is in; without one, the moments after a rollover are stale.
unfoldable pub stale_day : (now : ℕ) → Option ℕ → Connection → DailyRoom → Bool
stale_day now (some day) c room = not (is_day day room.day)
stale_day now none c room = ltb (now - c.rolled_at) 3000

-- 1. The day boundary, as the world was when the event came.
unfoldable pub today_and_on : World → SendEvent → SessionRecord → M ServerEvent
today_and_on w e rec =
    if not ((room_of w.srv w.srv.now).room_id == w.srv.room.room_id)
    then (do on_srv check_room; pure (rejects e stale_room 0))
    else if stale_day w.srv.now e.day w.conn w.srv.room
    then pure (rejects e stale_room 0)
    else if not (rec.room_id == w.srv.room.room_id)
    then pure (rejects e stale_room 0)
    else enforce_and_on w.srv.now e rec

unfoldable pub decide : SendEvent → M ServerEvent
decide e = do w ← world; rec ← the_rec; today_and_on w e rec

-- A reply is kept under its client id, for the last 64 of them.
unfoldable pub remember : (client_id : String) → ServerEvent → Dict ServerEvent → Dict ServerEvent
remember client_id reply replies =
    let all = insert client_id reply replies in if ltb 64 (length all) then drop 1 all else all

unfoldable pub answer : SendEvent → M (Unit {0})
answer e = do
  reply ← decide e
  on_conn (λ c. record c { replies = remember e.client_id reply c.replies })
  send reply

-- A replay gets the original answer.
unfoldable pub answer_once : Option ServerEvent → SendEvent → M (Unit {0})
answer_once (some prior) e = send prior
answer_once none e = answer e

unfoldable pub handle_send : SendEvent → M (Unit {0})
handle_send e = do
  w ← world
  if not w.conn.joined || not (is_some w.conn.rec)
      then (do signal send_before_join; send (rejects e invalid 0))
      else answer_once (lookup e.client_id w.conn.replies) e
