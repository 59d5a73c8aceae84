-- ===== src/Gateway/Connection/Join.antt =====
-- gateway/connection.ts: `join` and `rollover`.
use the_room_backend.Base.{
  ℕ, zero, suc, ◌-◌, ◌*◌, max, Bool, true, false, not, ◌||◌, Option, none, some, [], map, String,
  ◌==◌, ltb, if◌then◌else◌,
}
use the_room_backend.Base.Int.{pos, negsuc}
use the_room_backend.Base.Text.{◌^^◌}
use the_room_backend.Abuse.Suspicion.{
  add, value, reconnect_churn, many_new_sessions_from_network, verification_missing,
  verification_failed,
}
use the_room_backend.Abuse.Challenge.{provider}
use the_room_backend.Identity.Sessions.{create, resume}
use the_room_backend.Protocol.{
  Provider, turnstile, ChatMessage, welcome, reset, error, try_later, CloseCode,
}
use the_room_backend.Room.Day.{DailyRoom}
use the_room_backend.Store.{SessionRecord, StoredMessage}
use the_room_backend.Store.Memory.{hit, block_ttl, recent_messages}
use the_room_backend.Gateway.World.{
  Connection, World, M, returns, throws, ◌>>=◌, ◌>>◌, pure, skip, world, on_conn, on_srv, when,
  or_default,
}
use the_room_backend.Gateway.Connection.Transport.{send, close}
use the_room_backend.Gateway.Connection.Scoring.{apply_tier, signal, persist_soon}
use the_room_backend.Gateway.Connection.Waiting.{await_store}
use the_room_backend.Gateway.Connection.Enforcement.{send_challenge, blocked}

-- `m.catch(() => null)`
unfoldable pub catch_none : {A : Type 0} → M (Option A) → M (Option A)
catch_none m w =
    let (r, w') = m w in elim r [ returns a ↦ (returns a, w') | throws ↦ (returns none, w') ]

-- `store.hit(key, window).catch(() => 0)`
unfoldable pub count_hit : (key : String) → (window_ms : ℕ) → M ℕ
count_hit key window_ms = do n ← await_store (λ now. hit now key window_ms 1); pure (or_default 0 n)

unfoldable pub resume_by : DailyRoom → Option String → M (Option SessionRecord)
resume_by room none = pure none
resume_by room (some token) = catch_none (resume room token)

-- A session of its own, unless the network has made too many.
unfoldable pub fresh_session : (now : ℕ) → DailyRoom → M (Option (SessionRecord × String))
fresh_session now room = do
  w ← world
  let limit = w.srv.config.new_sessions_per_ip_hour
  made ← count_hit ("newsess:" ^^ w.conn.info.net.daily_hash) 3600000
  if ltb (limit * 3) made
      then (do send (error try_later); close CloseCode.try_later; pure none)
      else (do
        when (ltb limit made) (signal many_new_sessions_from_network)
        w' ← world
        s ← create room (record {
          ip_hash = w'.conn.info.net.daily_hash;
          country = w'.conn.info.country;
          now = now;
          suspicion = value w'.srv.platform.decay now w'.conn.score;
          challenge_pending = false;
        })
        pure (some s))

-- The session of one round of the loop, resumed or new.
unfoldable pub session_for :
    (now : ℕ)
    → DailyRoom
    → Option SessionRecord
    → (token : Option String) → M (Option (SessionRecord × String))
session_for now room (some rec) (some token) = do
  churn ← count_hit ("rejoin:" ^^ rec.sid) 300000
  when (ltb 12 churn) (signal reconnect_churn)
  pure (some (rec, token))
session_for now room _ _ = fresh_session now room

-- The session of a round stands unless the room has changed meanwhile.
unfoldable pub unless_moved :
    Option (SessionRecord × String)
    → World
    → M (Option (SessionRecord × String))
    → M (Option (SessionRecord × String))
unless_moved none w again = pure none
unless_moved (some (rec, t)) w again =
    if rec.room_id == w.srv.room.room_id then pure (some (rec, t)) else again

-- Up to two rounds: midnight may pass while a round waits for the store. `none` is the early
-- return, or two rounds that both ended in another room.
unfoldable pub join_loop :
    (attempts : ℕ) → (now : ℕ) → (token : Option String) → M (Option (SessionRecord × String))
join_loop zero now token = pure none
join_loop (suc attempts) now token = do
  w ← world
  found ← resume_by w.srv.room token
  s ← session_for now w.srv.room found token
  w' ← world
  let again = join_loop attempts now none
  unless_moved s w' again

-- Reconnecting does not wash the stored suspicion away.
unfoldable pub carry_over :
    (decay : ℕ → ℕ → ℕ) → (now : ℕ) → SessionRecord → Connection → Connection
carry_over decay now rec c =
    let stored = value decay now (record { score = rec.suspicion; at = rec.suspicion_at }) in
    let own = value decay now c.score in
    if ltb own stored
    then record c { score = add decay (pos (stored - own)) now false c.score }
    else c

-- The connection takes the session.
unfoldable pub take_session :
    (decay : ℕ → ℕ → ℕ) → (now : ℕ) → SessionRecord → (token : String) → Connection → Connection
take_session decay now rec token c = apply_tier decay now (record (carry_over decay now rec c) {
  rec = some rec;
  resume_token = some token;
  joined = true;
  joined_at = now;
})

abbrev pub to_public : StoredMessage → ChatMessage
to_public m = m.public

-- The background verification: it changes the score, and never blocks entry.
unfoldable pub ask_verification : Option Provider → (verification : Option String) → M (Unit {0})
ask_verification (some turnstile) none = signal verification_missing
ask_verification _ _ = skip

-- The verifier's answer, when it comes.
unfoldable pub verified : Bool → M (Unit {0})
verified true = do
  w ← world
  on_conn
      (λ c. record c { score = add w.srv.platform.decay (negsuc 14999) w.srv.now false c.score })
verified false = signal verification_failed

-- From the moment the session is taken: the welcome with the room's history.
unfoldable pub enter :
    (now : ℕ) → SessionRecord → (token : String) → (verification : Option String) → M (Unit {0})
enter now rec token verification = do
  w ← world
  on_conn (take_session w.srv.platform.decay now rec token)
  on_srv (λ s. record s { joined_count = suc s.joined_count })
  let room = w.srv.room
  history ←
      await_store (λ now s. (recent_messages now room.room_id w.srv.config.history_limit s, s))
  w' ← world
  send (
      welcome (record {
        identity = record { name = rec.name; country = rec.country };
        day = room.day;
        day_ends_at = room.ends_at;
        server_time = w'.srv.now;
        online = max w'.srv.online 1;
        history = map to_public (or_default [] history);
        resume = token;
        max_length = w'.srv.config.max_message_length;
      }))
  when rec.challenge_pending (send_challenge true)
  ask_verification (provider w'.srv.verifier) verification
  on_conn persist_soon

-- A session that is blocked does not enter.
unfoldable pub admit_session :
    (now : ℕ) → Option (SessionRecord × String) → (verification : Option String) → M (Unit {0})
admit_session now none verification = skip
admit_session now (some (rec, token)) verification = do
  w ← world
  if w.conn.closed then skip else do
    answer ← await_store (λ now s. (block_ttl now ("sess:" ^^ rec.sid) s, s))
    let ttl = or_default 0 answer
    if ltb 0 ttl then blocked ttl else enter now rec token verification

unfoldable pub join : (resume verification : Option String) → M (Unit {0})
join resume verification = do
  w ← world
  if w.conn.joined
      then skip
      else do s ← join_loop 2 w.srv.now resume; admit_session w.srv.now s verification

-- The identity of the new day.
unfoldable pub take_identity :
    (now : ℕ) → SessionRecord → (token : String) → Connection → Connection
take_identity now rec token c = record c {
  rec = some rec;
  resume_token = some token;
  rolled_at = now;
  replies = [];
  recent_own = [];
}

abbrev pub announce_reset : DailyRoom → SessionRecord → (token : String) → M (Unit {0})
announce_reset next rec token =
    send (reset next.day next.ends_at (record { name = rec.name; country = rec.country }) token)

unfoldable pub roll_session : DailyRoom → SessionRecord → M (Unit {0})
roll_session next old = do
  w ← world
  (rec, token) ← create next (record {
    ip_hash = w.conn.info.net.daily_hash;
    country = w.conn.info.country;
    now = w.srv.now;
    suspicion = value w.srv.platform.decay w.srv.now w.conn.score;
    challenge_pending = old.challenge_pending;
  })
  w' ← world
  if w'.conn.closed then skip else do
    on_conn (take_identity w.srv.now rec token)
    announce_reset next rec token
    when rec.challenge_pending (send_challenge true)

-- Only of a connection that has joined and is not closed.
unfoldable pub roll_by : DailyRoom → World → Option SessionRecord → M (Unit {0})
roll_by next w none = skip
roll_by next w (some rec) =
    if not w.conn.joined || w.conn.closed then skip else roll_session next rec

-- Midnight: a fresh, unlinked identity for the new room.
unfoldable pub rollover : DailyRoom → M (Unit {0})
rollover next = do w ← world; roll_by next w w.conn.rec
