-- ===== src/Gateway/Invariant/Events.antt =====
-- Every event of a connection keeps it sound.
use the_room_backend.Base.{ℕ, Bool, false, Option, none, some, List, String}
use the_room_backend.Protocol.{ClientEvent, ServerEvent, ReportReason}
use the_room_backend.Store.{SessionRecord, StoredMessage}
use the_room_backend.Gateway.World.{AdmitInfo, Server, ◌>>◌}
use the_room_backend.Gateway.Keeps.{Keeps, Keeps-skip, Keeps-if, Keeps-bind, Keeps-world}
use the_room_backend.Gateway.Invariant.{Serving, Sound}
use the_room_backend.Gateway.Invariant.Steps.{waits, Keeps-Sound}
use the_room_backend.Gateway.Invariant.Updates.{updates}
use the_room_backend.Gateway.Connection.Sending.{
  SendEvent, rejects, answer, answer_once, handle_send,
}
use the_room_backend.Base.Dict.{lookup}
use the_room_backend.Abuse.Suspicion.{send_before_join}
use the_room_backend.Gateway.Connection.Transport.{send}
use the_room_backend.Gateway.Connection.Scoring.{signal}
use the_room_backend.Protocol.{invalid as invalid_reason}
use the_room_backend.Gateway.Connection.Frames.{
  join_timeout, persist_timeout, invalid, ping, file_report, report_as, report_by, report, dispatch,
  handle, overflow,
}
use the_room_backend.Gateway.Invariant.Enforcing.{or_throw-Keeps, challenge_response-Keeps}
use the_room_backend.Gateway.Invariant.Joining.{count_hit-Keeps, join-Keeps}
use the_room_backend.Gateway.Answers.Sending.{decide-Keeps}

module _ (k : String) (i : AdmitInfo) (n : ℕ) (q : List (Option ClientEvent)) (s : Server) where
  pub join_timeout-Keeps : Keeps (Serving k i n q s) (join_timeout)
  unfolding join_timeout
  join_timeout-Keeps = search (waits, updates) depth 24

  pub persist_timeout-Keeps : Keeps (Serving k i n q s) (persist_timeout)
  unfolding persist_timeout
  persist_timeout-Keeps = search (waits, updates) depth 24

  pub invalid-Keeps : (binary : Bool) → Keeps (Serving k i n q s) (invalid binary)
  unfolding invalid
  invalid-Keeps binary = search (waits, updates) depth 24

  pub ping-Keeps : (t : ℕ) → Keeps (Serving k i n q s) (ping t)
  unfolding ping
  ping-Keeps t = search (waits, updates) depth 24

  pub file_report-Keeps :
      (message_id : String) (reason : ReportReason) (rec : SessionRecord)
      (found : Option StoredMessage)
      → Keeps (Serving k i n q s) (file_report message_id reason rec found)
  unfolding file_report
  file_report-Keeps message_id reason rec none = search (waits, updates, or_throw-Keeps) depth 24
  file_report-Keeps message_id reason rec (some target) =
      search (waits, updates, or_throw-Keeps) depth 24

  pub report_by-Keeps :
      (message_id : String) (reason : ReportReason) (rec : SessionRecord)
      → Keeps (Serving k i n q s) (report_by message_id reason rec)
  unfolding report_by
  report_by-Keeps message_id reason rec =
      search (waits, updates, count_hit-Keeps, file_report-Keeps) depth 24

  pub report_as-Keeps :
      (rec : Option SessionRecord) (message_id : String) (reason : ReportReason)
      → Keeps (Serving k i n q s) (report_as rec message_id reason)
  unfolding report_as
  report_as-Keeps none message_id reason = search (waits, updates, report_by-Keeps) depth 24
  report_as-Keeps (some rec) message_id reason = search (waits, updates, report_by-Keeps) depth 24

  pub report-Keeps :
      (message_id : String) (reason : ReportReason)
      → Keeps (Serving k i n q s) (report message_id reason)
  unfolding report
  report-Keeps message_id reason = search (waits, updates, report_as-Keeps) depth 24

  pub overflow-Keeps : Keeps (Serving k i n q s) (overflow)
  unfolding overflow
  overflow-Keeps = search (waits, updates) depth 24

-- With the messages that it publishes.
module _ (k : String) (i : AdmitInfo) (n : ℕ) (q : List (Option ClientEvent)) where
  answer-Keeps : (e : SendEvent) → Keeps (Sound k i n q) (answer e)
  unfolding answer
  answer-Keeps e =
      Keeps-bind _ _ (decide-Keeps k i n q e)
        (λ reply. Keeps-Sound k i n q _ (λ s. search (waits, updates) depth 24))

  answer_once-Keeps :
      (prior : Option ServerEvent) (e : SendEvent) → Keeps (Sound k i n q) (answer_once prior e)
  unfolding answer_once
  answer_once-Keeps (some prior) e = Keeps-Sound k i n q _ (λ s. search waits)
  answer_once-Keeps none e = answer-Keeps e

  before_join-Keeps :
      (e : SendEvent)
      → Keeps (Sound k i n q) (do signal send_before_join; send (rejects e invalid_reason 0))
  before_join-Keeps e =
      Keeps-Sound k i n q (do signal send_before_join; send (rejects e invalid_reason 0))
        (λ s. search waits)

  handle_send-Keeps : (e : SendEvent) → Keeps (Sound k i n q) (handle_send e)
  unfolding handle_send
  handle_send-Keeps e = Keeps-bind _ _ Keeps-world (λ w.
      Keeps-if _ _ _ (before_join-Keeps e)
        (answer_once-Keeps (lookup e.client_id w.conn.replies) e))

  dispatch-Keeps : (frame : Option ClientEvent) → Keeps (Sound k i n q) (dispatch frame)
  unfolding dispatch
  dispatch-Keeps none = Keeps-Sound k i n q _ (λ s. invalid-Keeps k i n q s false)
  dispatch-Keeps (some (ClientEvent.join resume verification)) =
      Keeps-Sound k i n q _ (λ s. join-Keeps k i n q s resume verification)
  dispatch-Keeps (some (ClientEvent.send client_id text day)) = handle_send-Keeps _
  dispatch-Keeps (some (ClientEvent.challenge_response token)) =
      Keeps-Sound k i n q _ (λ s. challenge_response-Keeps k i n q s token)
  dispatch-Keeps (some (ClientEvent.ping t)) = Keeps-Sound k i n q _ (λ s. ping-Keeps k i n q s t)
  dispatch-Keeps (some (ClientEvent.report message_id reason)) =
      Keeps-Sound k i n q _ (λ s. report-Keeps k i n q s message_id reason)

  pub handle-Keeps : (frame : Option ClientEvent) → Keeps (Sound k i n q) (handle frame)
  unfolding handle
  handle-Keeps frame =
      Keeps-bind _ _ Keeps-world (λ w. Keeps-if _ _ _ Keeps-skip (dispatch-Keeps frame))
