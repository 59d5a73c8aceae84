-- ===== src/Gateway/Connection/Frames.antt =====
-- gateway/connection.ts: the constructor, `onFrame`, `handle`, `ping`, `report` and the timers.
use the_room_backend.Base.{
  ℕ, suc, ◌-◌, Bool, true, false, not, Option, none, some, List, [], ◌∷◌, ◌++◌, String, ◌==◌, ltb,
  leb, eqb, if◌then◌else◌, find,
}
use the_room_backend.Base.Text.{◌^^◌}
use the_room_backend.Abuse.RateLimit.{new_bucket, normal}
use the_room_backend.Abuse.Suspicion.{
  automation_user_agent, missing_origin, malformed_frame, binary_frame, ping_flood,
  ignored_cooldown, fresh_score, new_timing,
}
use the_room_backend.Protocol.{
  ClientEvent, ReportReason, spam, harassment, illegal, other, error, bad_request, too_many,
  not_found, reported, pong, policy,
}
use the_room_backend.Store.{SessionRecord, StoredMessage, str, body}
use the_room_backend.Store.Memory.{recent_messages, add_abuse_event}
use the_room_backend.Gateway.World.{
  AdmitInfo, Connection, open_state, is_normal, World, Outcome, returns, throws, M, ◌>>=◌, ◌>>◌,
  skip, world, on_conn, when, or_default,
}
use the_room_backend.Identity.Sessions.{or_throw}
use the_room_backend.Gateway.Connection.Transport.{send, close}
use the_room_backend.Gateway.Connection.Scoring.{signal, signal_at}
use the_room_backend.Gateway.Connection.Waiting.{await_store, no_result, persist}
use the_room_backend.Gateway.Connection.Enforcement.{challenge_response}
use the_room_backend.Gateway.Connection.Join.{join, count_hit}
use the_room_backend.Gateway.Connection.Sending.{handle_send}

-- The constructor, on a socket that the upgrade has opened.
unfoldable pub bare_connection : (key : String) → AdmitInfo → (now : ℕ) → Connection
bare_connection key info now = record {
  key = key;
  ws = record { ready_state = open_state; buffered_amount = 0; written = []; close_sent = none };
  info = info;
  rec = none;
  joined = false;
  resume_token = none;
  alive = true;
  last_frame_at = now;
  joined_at = 0;
  rolled_at = 0;
  closed = false;
  queued = 0;
  queue = [];
  invalid_frames = 0;
  score = fresh_score;
  timing = new_timing;
  bucket = new_bucket normal now;
  tier = is_normal;
  strikes = 0;
  last_strike_at = 0;
  cooldown_until = 0;
  last_ignored_signal = 0;
  blocked_until = 0;
  recent_own = [];
  replies = [];
  ping_start = 0;
  ping_n = 0;
  last_challenge_attempt = 0;
  last_challenge_sent = 0;
  persist_timer = false;
}

unfoldable pub new_connection :
    (decay : ℕ → ℕ → ℕ) → (key : String) → AdmitInfo → (now : ℕ) → Connection
new_connection decay key info now =
    let c = bare_connection key info now in
    let c' = if info.automated_ua then signal_at decay now automation_user_agent c else c in
    if info.has_origin then c' else signal_at decay now missing_origin c'

-- Ten seconds after the upgrade.
unfoldable pub join_timeout : M (Unit {0})
join_timeout = do w ← world; when (not w.conn.joined) (close policy)

unfoldable pub persist_timeout : M (Unit {0})
persist_timeout = do on_conn (λ c. record c { persist_timer = false }); persist

-- `binary` frames weigh more than those that do not parse or fit the schema.
unfoldable pub invalid : (binary : Bool) → M (Unit {0})
invalid binary = do
  on_conn (λ c. record c { invalid_frames = suc c.invalid_frames })
  signal (if binary then binary_frame else malformed_frame)
  send (error bad_request)
  w ← world
  when (leb 5 w.conn.invalid_frames) (close policy)

-- The window of a second in which pings are counted.
unfoldable pub count_ping : (now : ℕ) → Connection → Connection
count_ping now c =
    if ltb 1000 (now - c.ping_start)
    then record c { ping_start = now; ping_n = 1 }
    else record c { ping_n = suc c.ping_n }

unfoldable pub ping : (t : ℕ) → M (Unit {0})
ping t = do
  w ← world
  on_conn (count_ping w.srv.now)
  w' ← world
  when (eqb w'.conn.ping_n 6) (signal ping_flood)
  when (leb w'.conn.ping_n 6) (send (pong t))

abbrev reason_text : ReportReason → String
reason_text spam = "spam"
reason_text harassment = "harassment"
reason_text illegal = "illegal"
reason_text other = "other"

abbrev report_retention_ms : ℕ
report_retention_ms = 2592000000

-- A snapshot of the reported message goes to the log.
unfoldable pub file_report :
    (message_id : String) → ReportReason → SessionRecord → Option StoredMessage → M (Unit {0})
file_report message_id reason rec none = send (error not_found)
file_report message_id reason rec (some target) = do
  w ← world
  kept ← await_store (
      no_result λ now.
        add_abuse_event now
          (("type", str "report")
            ∷ ("reason", str (reason_text reason))
            ∷ ("roomId", str (w.srv.room.room_id))
            ∷ ("messageId", str message_id)
            ∷ ("author", str (target.author))
            ∷ ("text", body target.text)
            ∷ ("reportedSid", str (target.sid))
            ∷ ("reporter", str (w.srv.platform.log_tag rec.sid))
            ∷ [])
          report_retention_ms)
  or_throw kept
  send (reported message_id)

unfoldable pub report_by : (message_id : String) → ReportReason → SessionRecord → M (Unit {0})
report_by message_id reason rec = do
  n ← count_hit ("report:" ^^ rec.sid) 3600000
  w ← world
  if ltb 20 n then send (error too_many) else do
    found ←
        await_store
          (λ now s. (recent_messages now w.srv.room.room_id w.srv.config.history_limit s, s))
    file_report message_id reason rec (find (λ m. m.id == message_id) (or_default [] found))

unfoldable pub report_as :
    Option SessionRecord → (message_id : String) → ReportReason → M (Unit {0})
report_as none message_id reason = skip
report_as (some rec) message_id reason = report_by message_id reason rec

unfoldable pub report : (message_id : String) → ReportReason → M (Unit {0})
report message_id reason = do w ← world; report_as w.conn.rec message_id reason

-- A text frame, as JSON.parse and the schema read it: `none` where they refuse it.
unfoldable pub dispatch : Option ClientEvent → M (Unit {0})
dispatch none = invalid false
dispatch (some (ClientEvent.join resume verification)) = join resume verification
dispatch (some (ClientEvent.send client_id text day)) =
    handle_send (record { client_id = client_id; text = text; day = day })
dispatch (some (ClientEvent.challenge_response token)) = challenge_response token
dispatch (some (ClientEvent.ping t)) = ping t
dispatch (some (ClientEvent.report message_id reason)) = report message_id reason

unfoldable pub handle : Option ClientEvent → M (Unit {0})
handle frame = do w ← world; if w.conn.closed then skip else dispatch frame

abbrev pub touch : (now : ℕ) → Connection → Connection
touch now c = record c { last_frame_at = now; alive = true }

-- Frames that come faster than they are handled.
unfoldable pub overflow : M (Unit {0})
overflow = do
  w ← world
  when (leb 250 (w.srv.now - w.conn.last_ignored_signal))
      (do on_conn (λ c. record c { last_ignored_signal = w.srv.now }); signal ignored_cooldown)

unfoldable pub enqueue : Option ClientEvent → Connection → Connection
enqueue frame c = record c { queued = suc c.queued; queue = c.queue ++ frame ∷ [] }

-- `none` is a binary frame.
unfoldable pub receive : Option (Option ClientEvent) → (queued : ℕ) → M (Unit {0})
receive none queued = invalid true
receive (some frame) queued = if leb 16 queued then overflow else on_conn (enqueue frame)

unfoldable pub on_frame : Option (Option ClientEvent) → M (Unit {0})
on_frame data_frame = do w ← world; on_conn (touch w.srv.now); receive data_frame w.conn.queued

-- `.catch(…)` and `.finally(…)` of the chain: what was thrown is logged, and the frame is done
-- either way.
unfoldable pub settle : Outcome (Unit {0}) → World → World
settle (returns u) w = record w { conn = record w.conn { queued = w.conn.queued - 1 } }
settle throws w = record w { conn = record w.conn { queued = w.conn.queued - 1 } }

-- The chain of promises: the oldest frame is handled, and what it throws is caught.
unfoldable pub handle_first : List (Option ClientEvent) → World → World
handle_first [] w = w
handle_first (frame ∷ rest) w =
    let (r, w') = handle frame (record w { conn = record w.conn { queue = rest } }) in settle r w'

unfoldable pub run_queue : World → World
run_queue w = handle_first w.conn.queue w

-- A pong of the socket.
unfoldable pub on_pong : M (Unit {0})
on_pong = do w ← world; on_conn (touch w.srv.now)
