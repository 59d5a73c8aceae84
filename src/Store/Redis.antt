-- ===== src/Store/Redis.antt =====
-- store/redis.ts: the commands of a Redis server over a state of its own, and what JSON and the
-- methods of strings make of the values. `now` is the server's clock. A transaction of MULTI is its
-- commands in order.
pub mod Operations
pub mod Agreement
pub mod Runs
use the_room_backend.Base.{
  ℕ, ◌+◌, ◌-◌, ◌≡◌, Bool, true, false, Option, none, some, List, String, ◌==◌, ltb, if◌then◌else◌,
  is_some,
}
use the_room_backend.Base.Text.{◌^^◌}
use the_room_backend.Base.Int.{ℤ, pos, negsuc}
use the_room_backend.Store.{SessionRecord, StoredMessage, AbuseEvent, Field}

pub record Commands : Type 1 where
  pub State : Type 0
  -- SET with PXAT, and NX where `only_new`: whether the answer is "OK".
  pub set_at :
      (now : ℕ) → (key value : String) → (expire_at : ℕ) → (only_new : Bool) → State → Bool × State
  -- SET with PX.
  pub set_for :
      (now : ℕ) → (key value : String) → (ttl_ms : ℕ) → (only_new : Bool) → State → Bool × State
  pub get : (now : ℕ) → (key : String) → State → Option String
  -- -2 where there is no such key.
  pub pttl : (now : ℕ) → (key : String) → State → ℤ
  pub del : (now : ℕ) → (key : String) → State → State
  pub rpush : (now : ℕ) → (key value : String) → State → State
  -- LTRIM key -n -1, and LRANGE key -n -1.
  pub ltrim_last : (now : ℕ) → (key : String) → (n : ℕ) → State → State
  pub lrange_last : (now : ℕ) → (key : String) → (n : ℕ) → State → List String
  pub pexpireat : (now : ℕ) → (key : String) → (expire_at : ℕ) → State → State
  pub pexpire : (now : ℕ) → (key : String) → (ttl_ms : ℕ) → State → State
  pub incrby : (now : ℕ) → (key : String) → (by : ℕ) → State → ℕ × State
  pub sadd : (now : ℕ) → (key member : String) → State → State
  pub scard : (now : ℕ) → (key : String) → State → ℕ
  pub hset : (key field value : String) → State → State
  pub hdel : (key : String) → (fields : List String) → State → State
  pub hgetall : (key : String) → State → List (String × String)
  -- XADD with MAXLEN ~ 10000, XTRIM with MINID ~, and XREVRANGE + - COUNT.
  pub xadd : (now : ℕ) → (key : String) → List (String × String) → State → State
  pub xtrim : (key min_id : String) → State → State
  pub xrevrange : (key : String) → (count : ℕ) → State → List (String × List (String × String))

pub record Codec : Type 0 where
  pub session_json : SessionRecord → String
  pub parse_session : String → SessionRecord
  pub message_json : StoredMessage → String
  pub parse_message : String → StoredMessage
  pub field_text : Field → String
  pub field_of : String → Field
  -- `s.slice(0, 200)`
  pub first_200 : String → String
  -- `v.split(":").map(Number)`, with `none` for a part that is missing or no number.
  pub number_parts : String → Option ℕ × Option ℕ

-- A key under the prefix.
unfoldable pub k : (p key : String) → String
k p key = p ^^ key

-- What a key holds, and until when.
pub record Held : Type 0 where
  pub value : String
  pub until : ℕ

abbrev pub if_live : (now : ℕ) → Held → Option Held
if_live now h = if ltb now h.until then some h else none

abbrev pub value_of : Option Held → Option String
value_of none = none
value_of (some h) = some h.value

abbrev pub left_of : (now : ℕ) → Option Held → ℤ
left_of now none = negsuc 1
left_of now (some h) = pos (h.until - now)

-- What the documentation of Redis says of the commands on strings: `peek` is what a key holds.
pub record IsRedis (R : Commands) : Type 0 where
  pub peek : (now : ℕ) → (key : String) → R.State → Option Held
  pub get-peek :
      (now : ℕ) (key : String) (s : R.State) → R.get now key s ≡ value_of (peek now key s)
  pub pttl-peek :
      (now : ℕ) (key : String) (s : R.State) → R.pttl now key s ≡ left_of now (peek now key s)
  -- The answer is "OK", unless the key is held and only a new one was asked for.
  pub set_at-answer :
      (now : ℕ) (key value : String) (expire_at : ℕ) (only_new : Bool) (s : R.State)
      → (R.set_at now key value expire_at only_new s).0
        ≡ (if is_some (peek now key s) then (if only_new then false else true) else true)
  pub set_at-refused :
      (now : ℕ) (key value : String) (expire_at : ℕ) (only_new : Bool) (s : R.State)
      → (R.set_at now key value expire_at only_new s).0 ≡ false
      → (R.set_at now key value expire_at only_new s).1 ≡ s
  pub set_at-peek :
      (now later : ℕ) (key value asked : String) (expire_at : ℕ) (only_new : Bool) (s : R.State)
      → (R.set_at now key value expire_at only_new s).0 ≡ true
      → peek later asked (R.set_at now key value expire_at only_new s).1 ≡ (
          if key == asked
          then if_live later (record { value = value; until = expire_at })
          else peek later asked s)
  -- PX is PXAT from the present.
  pub set_for-set_at :
      (now : ℕ) (key value : String) (ttl_ms : ℕ) (only_new : Bool) (s : R.State)
      → R.set_for now key value ttl_ms only_new s ≡ R.set_at now key value (now + ttl_ms) only_new s
  pub del-peek :
      (now later : ℕ) (key asked : String) (s : R.State)
      → peek later asked (R.del now key s) ≡ (if key == asked then none else peek later asked s)
