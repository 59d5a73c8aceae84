-- ===== src/Protocol.antt =====
-- protocol.ts: the events of the wire, as values. A frame is the event that it encodes: the
-- JSON text itself is not modelled.
use the_room_backend.Base.{ℕ, Bool, Option, List, String}
use the_room_backend.Base.Int.{ℤ}

pub record ChatMessage : Type 0 where
  pub id : String
  pub author : String
  pub text : List ℕ
  pub ts : ℕ
  pub country : Option String

pub record Identity : Type 0 where
  pub name : String
  pub country : Option String

pub data RejectReason : Type 0 where
  rate_limited challenge_required too_long invalid stale_room blocked : RejectReason

pub data Provider : Type 0 where
  turnstile mock : Provider

pub data ErrorCode : Type 0 where
  bad_request try_later is_blocked too_many not_found : ErrorCode

pub record Welcome : Type 0 where
  pub identity : Identity
  pub day : ℤ
  pub day_ends_at : ℕ
  pub server_time : ℕ
  pub online : ℕ
  pub history : List ChatMessage
  pub resume : String
  pub max_length : ℕ

pub data ServerEvent : Type 0 where
  welcome : Welcome → ServerEvent
  message : ChatMessage → ServerEvent
  messages : List ChatMessage → ServerEvent
  ack : (client_id : String) → ChatMessage → ServerEvent
  reject : (client_id : String) → RejectReason → (retry_after_ms : Option ℕ) → ServerEvent
  presence : (online : ℕ) → ServerEvent
  reset : (day : ℤ) → (day_ends_at : ℕ) → Identity → (resume : String) → ServerEvent
  challenge : Provider → (site_key : Option String) → ServerEvent
  challenge_result : Bool → ServerEvent
  reported : (message_id : String) → ServerEvent
  error : ErrorCode → ServerEvent
  pong : (t : ℕ) → ServerEvent

pub data ReportReason : Type 0 where
  spam harassment illegal other : ReportReason

pub data ClientEvent : Type 0 where
  join : (resume verification : Option String) → ClientEvent
  send : (client_id : String) → (text : List ℕ) → (day : Option ℕ) → ClientEvent
  challenge_response : (token : String) → ClientEvent
  ping : (t : ℕ) → ClientEvent
  report : (message_id : String) → ReportReason → ClientEvent

pub data CloseCode : Type 0 where
  policy restart try_later no_entry : CloseCode

abbrev pub close_code : CloseCode → ℕ
close_code policy = 1008
close_code restart = 1012
close_code CloseCode.try_later = 1013
close_code no_entry = 4403
