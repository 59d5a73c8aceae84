-- ===== src/Http/Request.antt =====
-- http/routes.ts: requests, answers and the schemas of the bodies. A request is what node and the
-- URL parser make of it; a body is the sizes of its chunks and what JSON.parse reads in it.
use the_room_backend.Base.{
  ℕ, Bool, true, false, not, ◌&&◌, ◌||◌, Option, none, some, List, String, ◌==◌, leb, if◌then◌else◌,
  or_else,
}
use the_room_backend.Base.Int.{ℤ, pos}
use the_room_backend.Room.Day.{DailyRoom}
use the_room_backend.Store.{AbuseEvent}

-- The settings of config.ts that the endpoints read; an empty token is one that is not set.
pub record Tokens : Type 0 where
  pub admin_token : String
  pub metrics_token : String

-- The value of a field of a JSON object: absent, a text with its length, a whole number, or
-- anything else.
pub data JsonField : Type 0 where
  absent : JsonField
  text : (s : String) → (size : ℕ) → JsonField
  whole : ℤ → JsonField
  other_value : JsonField

-- A parsed body; `none` stands for JSON that is no object. `unknown_keys` says whether it has
-- fields beside those of the schema.
pub record Json : Type 0 where
  pub public_name : JsonField
  pub message_id : JsonField
  pub minutes : JsonField
  pub reason : JsonField
  pub unknown_keys : Bool

pub record Body : Type 0 where
  pub is_json : Bool
  pub chunks : List ℕ
  -- `none` where JSON.parse throws.
  pub json : Option (Option Json)

pub record HttpRequest : Type 0 where
  pub path : String
  pub method : String
  pub authorization : String
  pub origin : Option String
  pub origin_allowed : Bool
  -- `Number(url.searchParams.get("limit"))` rounded down; `none` where that is NaN or 0.
  pub limit : Option ℤ
  pub payload : Body

pub data Answer : Type 0 where
  ready : (ok : Bool) → Answer
  no_content : Answer
  stats : (online : ℕ) → (day : ℤ) → (day_ends_at server_time : ℕ) → Answer
  metrics : Answer
  reports : List AbuseEvent → Answer
  admin_stats : (instance_id : String) → DailyRoom → (online connections_here : ℕ) → Answer
  block_set : (session : String) → (minutes : ℕ) → Answer
  unblocked : Answer
  failure : (code : String) → Answer

pub record Response : Type 0 where
  pub status : ℕ
  pub answer : Answer
  -- The header `access-control-allow-origin`.
  pub cors : Option String

abbrev pub respond : (status : ℕ) → Answer → Response
respond status answer = record { status = status; answer = answer; cors = none }

pub record BlockBody : Type 0 where
  pub public_name : Option String
  pub message_id : Option String
  pub minutes : ℕ
  pub reason : String

abbrev pub max_minutes : ℕ
max_minutes = 10080

-- `z.string().regex(PUBLIC_NAME_RE).optional()`, for a test `p`; `none` is a refusal.
unfoldable pub name_field : (p : String → Bool) → JsonField → Option (Option String)
name_field p absent = some none
name_field p (text s size) = if p s then some (some s) else none
name_field p _ = none

-- `z.string().max(most).optional()`
unfoldable pub text_field : (most : ℕ) → JsonField → Option (Option String)
text_field most absent = some none
text_field most (text s size) = if leb size most then some (some s) else none
text_field most _ = none

-- `z.number().int().min(1).max(7 * 24 * 60).default(60)`
unfoldable pub minutes_field : JsonField → Option ℕ
minutes_field absent = some 60
minutes_field (whole (pos n)) = if leb 1 n && leb n max_minutes then some n else none
minutes_field _ = none

-- `b.publicName || b.messageId`: an empty text counts as none.
unfoldable pub has_text : Option String → Bool
has_text none = false
has_text (some s) = not (s == "")

unfoldable pub then_some : {A B : Type 0} → Option A → (A → Option B) → Option B
then_some none f = none
then_some (some a) f = f a

unfoldable pub block_schema : (p : String → Bool) → Option Json → Option BlockBody
block_schema p none = none
block_schema p (some j) =
    if j.unknown_keys
    then none
    else then_some (name_field p j.public_name) λ name. then_some (text_field 64 j.message_id) λ id.
      then_some (minutes_field j.minutes) λ minutes. then_some (text_field 200 j.reason) λ reason.
        if has_text name || has_text id
        then some (record {
          public_name = name;
          message_id = id;
          minutes = minutes;
          reason = or_else reason "admin";
        })
        else none

-- Only a public name.
unfoldable pub unblock_schema : (p : String → Bool) → Option Json → Option String
unblock_schema p none = none
unblock_schema p (some j) =
    if j.unknown_keys || (present j.message_id || (present j.minutes || present j.reason))
    then none
    else then_some (name_field p j.public_name) λ name. name
  where
    present : JsonField → Bool
    present absent = false
    present _ = true
