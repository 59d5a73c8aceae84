-- ===== src/Gateway/World.antt =====
-- What a handler of gateway/connection.ts works on: one connection, the part of the server that it
-- shares with the others, and what happens while it waits. A handler is an action on a `World`
-- that returns or throws; what was written before a throw stays written.
use the_room_backend.Base.{ℕ, suc, Bool, false, Option, none, some, List, String, if◌then◌else◌}
use the_room_backend.Base.Dict.{Dict}
use the_room_backend.Abuse.RateLimit.{Tier, TokenBucket, normal, throttled, restricted, Waits}
use the_room_backend.Abuse.Suspicion.{SuspicionScore, TimingAnalyzer}
use the_room_backend.Abuse.Challenge.{Verifier}
use the_room_backend.Messaging.Validate.{Unicode}
use the_room_backend.Protocol.{ServerEvent, ClientEvent, CloseCode}
use the_room_backend.Room.Day.{DailyRoom, Zone}
use the_room_backend.Store.{SessionRecord, BusEvent}
use the_room_backend.Store.Memory.{MemoryStore}

-- What the program takes from its platform: random draws by their number, hashes, the Unicode and
-- the timezone database, and the power of one half.
pub record Platform : Type 0 where
  pub new_session_id : ℕ → String
  pub new_resume_token : ℕ → String
  pub new_message_id : (now draw : ℕ) → String
  pub random_int : (draw bound : ℕ) → ℕ
  pub hash_token : String → String
  pub hash_text : List ℕ → String
  pub log_tag : String → String
  pub unicode : Unicode
  pub zone : Zone
  pub decay : ℕ → ℕ → ℕ
  pub waits : Waits

-- The settings of config.ts that the gateway reads.
pub record Config : Type 0 where
  pub epoch_date : ℕ × ℕ × ℕ
  pub history_limit : ℕ
  pub max_message_length : ℕ
  pub max_message_lines : ℕ
  pub new_sessions_per_ip_hour : ℕ

pub record NetworkIdentity : Type 0 where
  pub daily_hash : String
  pub block_hash : String

pub record AdmitInfo : Type 0 where
  pub net : NetworkIdentity
  pub has_origin : Bool
  pub automated_ua : Bool
  pub country : Option String

pub data ReadyState : Type 0 where
  connecting open_state closing closed_state : ReadyState

-- The socket: what was written to it, and the close code that was sent.
pub record WebSocket : Type 0 where
  pub ready_state : ReadyState
  pub buffered_amount : ℕ
  pub written : List ServerEvent
  pub close_sent : Option CloseCode

-- One of the objects of `MESSAGE_TIERS`, which the source compares by identity.
pub data Level : Type 0 where
  is_normal is_throttled is_restricted : Level

abbrev pub tier_of : Level → Tier
tier_of is_normal = normal
tier_of is_throttled = throttled
tier_of is_restricted = restricted

pub record OwnMessage : Type 0 where
  pub fp : List ℕ
  pub t : ℕ

pub record Connection : Type 0 where
  pub key : String
  pub ws : WebSocket
  pub info : AdmitInfo
  pub rec : Option SessionRecord
  pub joined : Bool
  pub resume_token : Option String
  pub alive : Bool
  pub last_frame_at : ℕ
  pub joined_at : ℕ
  pub rolled_at : ℕ
  pub closed : Bool
  pub queued : ℕ
  pub queue : List (Option ClientEvent)
  pub invalid_frames : ℕ
  pub score : SuspicionScore
  pub timing : TimingAnalyzer
  pub bucket : TokenBucket
  pub tier : Level
  pub strikes : ℕ
  pub last_strike_at : ℕ
  pub cooldown_until : ℕ
  pub last_ignored_signal : ℕ
  pub blocked_until : ℕ
  pub recent_own : List OwnMessage
  pub replies : Dict ServerEvent
  pub ping_start : ℕ
  pub ping_n : ℕ
  pub last_challenge_attempt : ℕ
  pub last_challenge_sent : ℕ
  pub persist_timer : Bool

-- The part of `RoomServer` that connections read and write.
pub record Server : Type 0 where
  pub platform : Platform
  pub config : Config
  pub verifier : Verifier
  pub instance_id : String
  pub store : MemoryStore
  pub now : ℕ
  pub room : DailyRoom
  pub rolling : Bool
  pub online : ℕ
  pub joined_count : ℕ
  pub published : List BusEvent
  pub draws : ℕ

-- What happens at one `await`: the call fails or not, time passes, the server's room may change,
-- and the client may hang up.
pub record Turn : Type 0 where
  pub fails : Bool
  pub elapsed : ℕ
  pub new_room : Option DailyRoom
  pub hangs_up : Bool

abbrev pub quiet : Turn
quiet = record { fails = false; elapsed = 0; new_room = none; hangs_up = false }

pub record World : Type 0 where
  pub conn : Connection
  pub srv : Server
  pub turns : List Turn

pub data Outcome (A : Type 0) : Type 0 where
  returns : A → Outcome A
  throws : Outcome A

abbrev pub M : Type 0 → Type 0
M A = World → Outcome A × World

abbrev pub continue : {A B : Type 0} → Outcome A → (A → M B) → M B
continue (returns a) f w = f a w
continue throws f w = (throws, w)

unfoldable pub pure : {A : Type 0} → A → M A
pure a w = (returns a, w)

unfoldable pub skip : M (Unit {0})
skip w = (returns tt, w)

unfoldable pub throw : {A : Type 0} → M A
throw w = (throws, w)

unfoldable pub world : M World
world w = (returns w, w)

unfoldable pub on_conn : (Connection → Connection) → M (Unit {0})
on_conn f w = (returns tt, record w { conn = f w.conn })

unfoldable pub on_srv : (Server → Server) → M (Unit {0})
on_srv f w = (returns tt, record w { srv = f w.srv })

-- A random draw.
unfoldable pub draw : M ℕ
draw w = (returns w.srv.draws, record w { srv = record w.srv { draws = suc w.srv.draws } })

-- Opening the bind opens the actions above.
infixl 5 ◌>>=◌ ◌>>◌
unfoldable pub ◌>>=◌ : {A B : Type 0} → M A → (A → M B) → M B
unfolding pure skip throw world on_conn on_srv draw
◌>>=◌ m f w = let (r, w') = m w in continue r f w'

abbrev pub ◌>>◌ : {A B : Type 0} → M A → M B → M B
m >> n = m >>= λ _. n

-- `if (b) m`
abbrev pub when : Bool → M (Unit {0}) → M (Unit {0})
when b m = if b then m else skip

-- `m.catch(() => d)`
abbrev pub or_default : {A : Type 0} → A → Option A → A
or_default d none = d
or_default d (some a) = a
