-- ===== src/Examples/Connected.antt =====
-- A server, a connection with a session, and the theorems on gateway/connection.ts there.
use the_room_backend.Base.{ap, List, String, ◌+◌, ◌-◌, ◌/◌}
use the_room_backend.Gateway.Invariant.{IsSound}
use the_room_backend.Base.{◌+◌, ◌/◌, ◌%◌, ◌≡◌, refl, true, false, none, some, [], ◌∷◌, arith, ltb}
use the_room_backend.Base.Int.{pos}
use the_room_backend.Abuse.RateLimit.{new_bucket}
use the_room_backend.Abuse.Challenge.{by_mock}
use the_room_backend.Store.{SessionRecord}
use the_room_backend.Store.Memory.{empty}
use the_room_backend.Messaging.Validate.{Unicode}
use the_room_backend.Room.Day.{Zone}
use the_room_backend.Gateway.World.{AdmitInfo, Server, Platform, World, quiet}
use the_room_backend.Gateway.Connection.Frames.{
  new_connection, bare_connection, on_frame, run_queue,
}
use the_room_backend.Base.Dict.{lookup, insert}
use the_room_backend.Abuse.RateLimit.{take_tokens}
use the_room_backend.Abuse.Suspicion.{value, record_message}
use the_room_backend.Messaging.Validate.{
  normalize_text, fingerprint, is_surrogate, is_control, is_invisible, is_space,
}
use the_room_backend.Base.Text.{decimal}
use the_room_backend.Protocol.{ServerEvent, ack}
use the_room_backend.Gateway.Answers.Replays.{remember_all, handle_send-answer}
use the_room_backend.Gateway.Connection.Transport.{send}
use the_room_backend.Room.Day.{room_at}
use the_room_backend.Store.Memory.{hit, append_message, live_list}
use the_room_backend.Gateway.World.{returns, ◌>>=◌}
use the_room_backend.Gateway.Connection.Waiting.{await_store, await_publish, pass_turn}
use the_room_backend.Gateway.Connection.Enforcement.{escalate}
use the_room_backend.Gateway.Connection.Join.{count_hit}
use the_room_backend.Gateway.Connection.Sending.{
  SendEvent, decide, today_and_on, enforce_and_on, content_and_on, checked_and_on, rate_and_on,
  network_and_on, behave, unless_escalated, unless_stopped, deliver, answer, handle_send, stale_day,
  note_own, record_time, take_token, cross_duplicate,
}
use the_room_backend.Gateway.Connection.Life.{opened, steps, receives, handles}
use the_room_backend.Gateway.Invariant.Queue.{IsOrderly, Reachable-IsOrderly}
use the_room_backend.Gateway.Answers.{IsAnswered}
use the_room_backend.Gateway.Answers.Rooms.{OfRoom, InRooms}
use the_room_backend.Gateway.Answers.Sending.{decide-IsAnswered}

abbrev pub ascii : Unicode
ascii = record { nfc = λ s. s; is_mark = λ c. false; is_visible = λ c. ltb 32 c; lower = λ s. s }

-- UTC, in January 1970.
abbrev utc : Zone
utc ts = record {
  y = 1970;
  m = 1;
  d = 1 + ts / 86400000;
  hh = ts / 3600000 % 24;
  mm = ts / 60000 % 60;
  ss = ts / 1000 % 60;
}

abbrev platform : Platform
platform = record {
  new_session_id = λ n. "sid";
  new_resume_token = λ n. "token";
  new_message_id = λ now n. "mid";
  random_int = λ n bound. 0;
  hash_token = λ t. t;
  hash_text = λ t. "hash";
  log_tag = λ sid. sid;
  unicode = ascii;
  zone = utc;
  decay = λ v t. v;
  waits = λ short rate. (short + rate - 1) / rate;
}

abbrev pub server : Server
server = record {
  platform = platform;
  config = record {
    epoch_date = (2024, 1, 1);
    history_limit = 50;
    max_message_length = 500;
    max_message_lines = 12;
    new_sessions_per_ip_hour = 30;
  };
  verifier = by_mock;
  instance_id = "i1";
  store = empty;
  now = 100000;
  room = record { room_id = "1970-01-01"; day = pos 1; starts_at = 0; ends_at = 86400000 };
  rolling = false;
  online = 1;
  joined_count = 1;
  published = [];
  draws = 0;
}

abbrev pub visitor : AdmitInfo
visitor = record {
  net = record { daily_hash = "d"; block_hash = "b" };
  has_origin = true;
  automated_ua = false;
  country = none;
}

abbrev record_of_today : SessionRecord
record_of_today = record {
  sid = "s1";
  room_id = "1970-01-01";
  name = "Calm Otter";
  country = none;
  ip_hash = "d";
  created_at = 5;
  suspicion = 0;
  suspicion_at = 5;
  challenge_pending = false;
  challenge_fails = 0;
  trusted_until = 0;
  blocks = 0;
}

abbrev pub joined_world : World
joined_world = record {
  conn = record (bare_connection "k1" visitor 100) { rec = some record_of_today; joined = true };
  srv = server;
  turns = [];
}

abbrev hello : SendEvent
hello = record { client_id = "c1"; text = 104 ∷ 105 ∷ []; day = some 1 }

joined_conn-IsSound : IsSound joined_world.conn
unfolding bare_connection new_bucket
joined_conn-IsSound = record {
  few_replies = omega arith;
  few_own = omega arith;
  score_within = omega arith;
  tokens_within = omega arith;
  tier_applied = refl;
  gaps_within = omega arith;
}

joined-InRooms : InRooms (λ room. room ≡ server.room) joined_world
unfolding OfRoom
joined-InRooms = record { present = refl; coming = tt }

decide-IsAnswered_example :
    IsAnswered joined_world.conn.key joined_world.conn.info joined_world.conn.queued
      joined_world.conn.queue joined_world hello record_of_today
      (λ room. room ≡ server.room)
      (decide hello joined_world).0
      (decide hello joined_world).1
unfolding bare_connection
decide-IsAnswered_example =
    decide-IsAnswered joined_world hello record_of_today (λ room. room ≡ server.room) refl
      joined_conn-IsSound joined-InRooms

abbrev hello_reply : ServerEvent
hello_reply = ack "c1" (record {
  id = "mid";
  author = "Calm Otter";
  text = 104 ∷ 105 ∷ [];
  ts = 100000;
  country = none;
})

-- The message is acknowledged, with the server's time and the session's name.
acknowledges_hello :
    ((decide hello joined_world).0 ≡ returns hello_reply)
    × ((decide hello joined_world).1.conn.joined ≡ true)
    × ((decide hello joined_world).1.conn.rec ≡ some record_of_today)
unfolding bare_connection new_bucket decide today_and_on enforce_and_on content_and_on
    checked_and_on rate_and_on network_and_on behave unless_escalated unless_stopped deliver
    escalate count_hit await_store await_publish pass_turn normalize_text room_at stale_day note_own
    record_time record_message take_token take_tokens cross_duplicate fingerprint hit append_message
    value ◌>>=◌ lookup insert live_list decimal is_surrogate is_control is_invisible is_space
acknowledges_hello = (refl, refl, refl)

abbrev hello_again : SendEvent
hello_again = record { client_id = "c1"; text = 104 ∷ []; day = none }

-- Some minutes and one other message later.
abbrev other_replies : List (String × ServerEvent)
other_replies =
    ("c2", ack "c2" (record { id = "m2"; author = "a"; text = []; ts = 7; country = none })) ∷ []

abbrev later_world : World
later_world =
    let w = (answer hello joined_world).1 in
    record w {
      conn = record w.conn {
        rec = some record_of_today;
        joined = true;
        replies = remember_all other_replies w.conn.replies;
      };
      srv = record w.srv { now = 500000 };
    }

first_time : lookup "c1" (decide hello joined_world).1.conn.replies ≡ none
unfolding bare_connection new_bucket decide today_and_on enforce_and_on content_and_on
    checked_and_on rate_and_on network_and_on behave unless_escalated unless_stopped deliver
    escalate count_hit await_store await_publish pass_turn normalize_text room_at stale_day note_own
    record_time record_message take_token take_tokens cross_duplicate fingerprint hit append_message
    value ◌>>=◌ lookup insert live_list decimal is_surrogate is_control is_invisible is_space
first_time = refl

handle_send-answer_example : handle_send hello_again later_world ≡ send hello_reply later_world
handle_send-answer_example =
    handle_send-answer joined_world (decide hello joined_world).1 later_world hello hello_again
      record_of_today hello_reply other_replies joined_conn-IsSound
      (ap (λ r. (r, (decide hello joined_world).1)) acknowledges_hello.0) first_time (refl, tt)
      (omega arith) refl refl refl refl

abbrev opening : World
opening = record {
  conn = new_connection platform.decay "k1" visitor 100000;
  srv = server;
  turns = quiet ∷ [];
}

Reachable-IsOrderly_example : IsOrderly "k1" visitor (run_queue (on_frame (some none) opening).1)
Reachable-IsOrderly_example =
    Reachable-IsOrderly "k1" visitor
      (steps (steps (opened server (quiet ∷ [])) (receives opening (some none))) (handles _))
