-- ===== src/Store/Memory.antt =====
-- store/memory.ts: the in-process store. `nowFn()` is the argument `now` of each operation; a
-- method returns the new store beside its result.
pub mod Claims
pub mod Counters
pub mod Messages
pub mod Owners
use the_room_backend.Base.{
  ℕ, suc, ◌+◌, ◌-◌, ◌/◌, Bool, true, false, ◌||◌, Option, none, some, List, [], ◌∷◌, ◌++◌, map,
  reverse, String, ◌==◌, ltb, leb, eqb, if◌then◌else◌, or_else, is_some, length, drop, last_n, keep,
  any,
}
use the_room_backend.Base.Dict.{Dict, lookup, insert, delete, delete_if}
use the_room_backend.Store.{SessionRecord, StoredMessage, AbuseEvent, Field}
use the_room_backend.Base.Text.{◌^^◌, decimal}
use package.text.Mathlib.Text.{starts_with}

-- What an entry of `kv` holds.
pub data Value : Type 0 where
  text : String → Value
  session : SessionRecord → Value
  number : ℕ → Value
  members : List String → Value

abbrev pub as_text : Value → Option String
as_text (text s) = some s
as_text _ = none

abbrev as_session : Value → Option SessionRecord
as_session (session r) = some r
as_session _ = none

abbrev as_number : Value → Option ℕ
as_number (number n) = some n
as_number _ = none

abbrev as_members : Value → List String
as_members (members s) = s
as_members _ = []

pub record Entry : Type 0 where
  pub v : Value
  pub exp : ℕ

pub record MessageList : Type 0 where
  pub v : List StoredMessage
  pub exp : ℕ

pub record Presence : Type 0 where
  pub n : ℕ
  pub ts : ℕ

pub record LoggedEvent : Type 0 where
  pub id : String
  pub ts : ℕ
  pub fields : List (String × Field)

pub record MemoryStore : Type 0 where
  pub kv : Dict Entry
  pub lists : Dict MessageList
  pub presence : Dict Presence
  pub abuse : List LoggedEvent
  pub seq : ℕ

abbrev pub empty : MemoryStore
empty = record { kv = []; lists = []; presence = []; abuse = []; seq = 0 }

-- The keys, as the template strings build them.
abbrev pub name_prefix : String → String
name_prefix room_id = "name:" ^^ (room_id ^^ ":")

abbrev pub name_key : String → String → String
name_key room_id name = name_prefix room_id ^^ name

abbrev pub session_key : String → String
session_key sid = "sess:" ^^ sid

abbrev pub resume_key : String → String
resume_key hash = "resume:" ^^ hash

abbrev pub messages_key : String → String
messages_key room_id = "msgs:" ^^ room_id

abbrev pub window_key : String → ℕ → String
window_key key window = "rl:" ^^ (key ^^ (":" ^^ decimal window))

abbrev pub set_key : String → String
set_key key = "set:" ^^ key

abbrev pub block_key : String → String
block_key key = "block:" ^^ key

abbrev pub lock_key : String → String
lock_key key = "lock:" ^^ key

-- An entry that has run out is deleted by the read.
read_entry : ℕ → String → Option Entry → MemoryStore → Option Value × MemoryStore
read_entry now key none s = (none, s)
read_entry now key (some e) s =
    if leb e.exp now then (none, record s { kv = delete key s.kv }) else (some e.v, s)

unfoldable pub get : ℕ → String → MemoryStore → Option Value × MemoryStore
unfolding read_entry
get now key s = read_entry now key (lookup key s.kv) s

unfoldable pub put : String → Value → ℕ → MemoryStore → MemoryStore
put key v exp s = record s { kv = insert key (record { v = v; exp = exp }) s.kv }

-- Puts `v` under a key that is free, and says whether it did.
unfoldable pub put_if_free : ℕ → String → Value → ℕ → MemoryStore → Bool × MemoryStore
unfolding get put
put_if_free now key v exp s =
    let (found, s') = get now key s in
    if is_some found then (false, s') else (true, put key v exp s')

unfoldable pub claim_name :
    ℕ → (room_id name sid : String) → (expire_at : ℕ) → MemoryStore → Bool × MemoryStore
unfolding put_if_free
claim_name now room_id name sid expire_at s =
    put_if_free now (name_key room_id name) (text sid) expire_at s

abbrev pub get_as {ℓ} :
    {A : Type ℓ} → (Value → Option A) → Option Value × MemoryStore → Option A × MemoryStore
get_as read (none, s) = (none, s)
get_as read (some v, s) = (read v, s)

unfoldable pub name_owner : ℕ → (room_id name : String) → MemoryStore → Option String × MemoryStore
unfolding get
name_owner now room_id name s = get_as as_text (get now (name_key room_id name) s)

unfoldable pub save_session : SessionRecord → (expire_at : ℕ) → MemoryStore → MemoryStore
unfolding put
save_session rec expire_at s = put (session_key rec.sid) (session rec) expire_at s

unfoldable pub get_session : ℕ → String → MemoryStore → Option SessionRecord × MemoryStore
unfolding get
get_session now sid s = get_as as_session (get now (session_key sid) s)

unfoldable pub set_resume : (hash sid : String) → (expire_at : ℕ) → MemoryStore → MemoryStore
unfolding put
set_resume hash sid expire_at s = put (resume_key hash) (text sid) expire_at s

unfoldable pub resolve_resume : ℕ → String → MemoryStore → Option String × MemoryStore
unfolding get
resolve_resume now hash s = get_as as_text (get now (resume_key hash) s)

-- The list under a key, or a new one where there is none or it has run out.
unfoldable pub live_list : ℕ → ℕ → Option MessageList → MessageList
live_list now expire_at none = record { v = []; exp = expire_at }
live_list now expire_at (some e) = if leb e.exp now then record { v = []; exp = expire_at } else e

-- `splice(0, length - cap)` drops the oldest where there are more than `cap`.
capped : ℕ → List StoredMessage → List StoredMessage
capped cap ms = if ltb cap (length ms) then drop (length ms - cap) ms else ms

unfoldable pub append_message :
    ℕ → String → StoredMessage → (cap expire_at : ℕ) → MemoryStore → MemoryStore
unfolding live_list capped
append_message now room_id msg cap expire_at s =
    let e = live_list now expire_at (lookup (messages_key room_id) s.lists) in
    record s {
      lists =
          insert (messages_key room_id)
            (record { v = capped cap (e.v ++ msg ∷ []); exp = expire_at }) s.lists;
    }

recent_of : ℕ → ℕ → Option MessageList → List StoredMessage
recent_of now limit none = []
recent_of now limit (some e) = if leb e.exp now || leb limit 0 then [] else last_n limit e.v

unfoldable pub recent_messages : ℕ → String → (limit : ℕ) → MemoryStore → List StoredMessage
unfolding recent_of
recent_messages now room_id limit s = recent_of now limit (lookup (messages_key room_id) s.lists)

unfoldable pub delete_room : String → MemoryStore → MemoryStore
delete_room room_id s = record s {
  lists = delete (messages_key room_id) s.lists;
  kv = delete_if (λ k. starts_with k (name_prefix room_id)) s.kv;
}

unfoldable pub hit : ℕ → String → (window_ms by : ℕ) → MemoryStore → ℕ × MemoryStore
unfolding get put
hit now key window_ms by s =
    let k = window_key key (now / window_ms) in
    let (found, s') = get_as as_number (get now k s) in
    let n = or_else found 0 + by in (n, put k (number n) (now + window_ms) s')

-- `set.add(member)`: a set keeps its members in insertion order.
add_member : String → List String → List String
add_member m set = if any (λ x. x == m) set then set else set ++ m ∷ []

abbrev members_of : Option Value → List String
members_of none = []
members_of (some v) = as_members v

unfoldable pub add_to_set : ℕ → (key member : String) → (ttl_ms : ℕ) → MemoryStore → ℕ × MemoryStore
unfolding get put add_member
add_to_set now key member ttl_ms s =
    let (found, s') = get now (set_key key) s in
    let set = add_member member (members_of found) in
    (length set, put (set_key key) (members set) (now + ttl_ms) s')

unfoldable pub set_block : ℕ → String → (ttl_ms : ℕ) → (reason : String) → MemoryStore → MemoryStore
unfolding put
set_block now key ttl_ms reason s = put (block_key key) (text reason) (now + ttl_ms) s

time_left : ℕ → Option Entry → ℕ
time_left now none = 0
time_left now (some e) = e.exp - now

unfoldable pub block_ttl : ℕ → String → MemoryStore → ℕ
unfolding time_left
block_ttl now key s = time_left now (lookup (block_key key) s.kv)

unfoldable pub delete_block : String → MemoryStore → MemoryStore
delete_block key s = record s { kv = delete (block_key key) s.kv }

unfoldable pub report_presence : String → (count now : ℕ) → MemoryStore → MemoryStore
report_presence instance_id count now s = record s {
  presence = insert instance_id (record { n = count; ts = now }) s.presence;
}

unfoldable pub remove_presence : String → MemoryStore → MemoryStore
remove_presence instance_id s = record s { presence = delete instance_id s.presence }

-- One pass over the instances: the total of those that are fresh, and what is left of the map.
sum_presence : (now stale_ms : ℕ) → Dict Presence → ℕ × Dict Presence
sum_presence now stale_ms [] = (0, [])
sum_presence now stale_ms ((id, p) ∷ rest) =
    let (total, left) = sum_presence now stale_ms rest in
    if ltb stale_ms (now - p.ts) then (total, left) else (p.n + total, (id, p) ∷ left)

unfoldable pub total_presence : (now stale_ms : ℕ) → MemoryStore → ℕ × MemoryStore
unfolding sum_presence
total_presence now stale_ms s =
    let (total, left) = sum_presence now stale_ms s.presence in
    (total, record s { presence = left })

unfoldable pub add_abuse_event :
    ℕ → List (String × Field) → (retention_ms : ℕ) → MemoryStore → MemoryStore
add_abuse_event now fields retention_ms s = record s {
  abuse =
      last_n 9999 (keep (λ e. ltb (now - e.ts) retention_ms) s.abuse)
      ++ record { id = decimal now ^^ ("-" ^^ decimal s.seq); ts = now; fields = fields } ∷ [];
  seq = suc s.seq;
}

-- For a positive limit: `slice(-0)` would be the whole array.
unfoldable pub list_abuse_events : (limit : ℕ) → MemoryStore → List AbuseEvent
list_abuse_events limit s =
    map (λ e. record { id = e.id; fields = e.fields })
      (reverse (if eqb limit 0 then s.abuse else last_n limit s.abuse))

unfoldable pub acquire_once : ℕ → String → (ttl_ms : ℕ) → MemoryStore → Bool × MemoryStore
unfolding put_if_free
acquire_once now key ttl_ms s = put_if_free now (lock_key key) (number 1) (now + ttl_ms) s
