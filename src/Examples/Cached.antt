-- ===== src/Examples/Cached.antt =====
-- The theorem on store/redis.ts for a server that keeps its texts in a dictionary.
use the_room_backend.Base.{
  ℕ, ◌+◌, ◌≡◌, refl, Bool, true, false, ◌&&◌, Option, none, some, List, [], ◌∷◌, String, ◌==◌,
  arith, if◌then◌else◌, is_some, Bool-cases, inl, inr,
}
use the_room_backend.Base.Dict.{Dict, lookup, insert, delete, lookup-insert, lookup-delete}
use the_room_backend.Store.{SessionRecord, str}
use the_room_backend.Store.Memory.{empty}
use the_room_backend.Store.Redis.{Commands, Codec, IsRedis, Held, if_live, value_of, left_of}
use the_room_backend.Store.Redis.Agreement.{Agrees, AgreesAt}
use the_room_backend.Store.Redis.Runs.{
  StoreCall, claim_name, name_owner, set_block, block_ttl, IsOrdinary, memory_replies,
  redis_replies, redis_replies-memory_replies,
}
use the_room_backend.Examples.Stored.{hello}

abbrev live : ℕ → Option Held → Option Held
live now none = none
live now (some h) = if_live now h

abbrev peek : ℕ → String → Dict Held → Option Held
peek now key s = live now (lookup key s)

abbrev set_at : ℕ → String → String → ℕ → Bool → Dict Held → Bool × Dict Held
set_at now key value expire_at only_new s =
    if only_new && is_some (peek now key s)
    then (false, s)
    else (true, insert key (record { value = value; until = expire_at }) s)

abbrev server : Commands
server = record {
  State = Dict Held;
  set_at = set_at;
  set_for = λ now key value ttl only_new s. set_at now key value (now + ttl) only_new s;
  get = λ now key s. value_of (peek now key s);
  pttl = λ now key s. left_of now (peek now key s);
  del = λ now key s. delete key s;
  rpush = λ now key value s. s;
  ltrim_last = λ now key n s. s;
  lrange_last = λ now key n s. [];
  pexpireat = λ now key at s. s;
  pexpire = λ now key ttl s. s;
  incrby = λ now key by s. (by, s);
  sadd = λ now key member s. s;
  scard = λ now key s. 0;
  hset = λ key field value s. s;
  hdel = λ key fields s. s;
  hgetall = λ key s. [];
  xadd = λ now key fields s. s;
  xtrim = λ key min_id s. s;
  xrevrange = λ key count s. [];
}

set_at_answer :
    (now : ℕ) (key value : String) (expire_at : ℕ) (only_new : Bool) (s : Dict Held)
    → (set_at now key value expire_at only_new s).0
      ≡ (if is_some (peek now key s) then (if only_new then false else true) else true)
set_at_answer now key value expire_at true s = ground arith
set_at_answer now key value expire_at false s = ground arith

set_at_refused :
    (now : ℕ) (key value : String) (expire_at : ℕ) (only_new : Bool) (s : Dict Held)
    → (set_at now key value expire_at only_new s).0 ≡ false
    → (set_at now key value expire_at only_new s).1 ≡ s
set_at_refused now key value expire_at only_new s h =
    elim (Bool-cases (only_new && is_some (peek now key s))) [
      | inl e ↦ rw e
      | inr e ↦ absurd (ground (arith, e, h))
    ]

set_at_peek :
    (now later : ℕ) (key value asked : String) (expire_at : ℕ) (only_new : Bool) (s : Dict Held)
    → (set_at now key value expire_at only_new s).0 ≡ true
    → peek later asked (set_at now key value expire_at only_new s).1 ≡ (
        if key == asked
        then if_live later (record { value = value; until = expire_at })
        else peek later asked s)
set_at_peek now later key value asked expire_at only_new s h =
    let inserted = lookup-insert key asked (record { value = value; until = expire_at }) s in
    elim (Bool-cases (only_new && is_some (peek now key s))) [
      | inl e ↦ absurd (ground (arith, e, h))
      | inr e ↦ elim (Bool-cases (key == asked)) [
        | inl same ↦ rw (e, inserted, same)
        | inr other ↦ rw (e, inserted, other)
      ]
    ]

abbrev server-IsRedis : IsRedis server
server-IsRedis = record {
  peek = peek;
  get-peek = λ now key s. refl;
  pttl-peek = λ now key s. refl;
  set_at-answer = set_at_answer;
  set_at-refused = set_at_refused;
  set_at-peek = set_at_peek;
  set_for-set_at = λ now key value ttl only_new s. refl;
  del-peek = λ now later key asked s. elim (Bool-cases (key == asked)) [
    | inl same ↦ rw (lookup-delete key asked s, same)
    | inr other ↦ rw (lookup-delete key asked s, other)
  ];
}

abbrev nobody : SessionRecord
nobody = record {
  sid = "";
  room_id = "";
  name = "";
  country = none;
  ip_hash = "";
  created_at = 0;
  suspicion = 0;
  suspicion_at = 0;
  challenge_pending = false;
  challenge_fails = 0;
  trusted_until = 0;
  blocks = 0;
}

abbrev codec : Codec
codec = record {
  session_json = λ rec. rec.sid;
  parse_session = λ s. nobody;
  message_json = λ m. m.id;
  parse_message = λ s. hello;
  field_text = λ f. "";
  field_of = λ s. str s;
  first_200 = λ s. s;
  number_parts = λ s. (none, none);
}

abbrev calls : List (ℕ × StoreCall)
calls =
    (0, claim_name "r" "CalmOtter_1000" "s1" 500)
    ∷ (10, claim_name "r" "CalmOtter_1000" "s2" 500)
    ∷ (10, set_block "sess:s1" 100 "admin")
    ∷ (30, block_ttl "sess:s1")
    ∷ (500, name_owner "r" "CalmOtter_1000")
    ∷ []

both_empty : Agrees server server-IsRedis "room:" 5 [] empty
unfolding AgreesAt lookup
both_empty key = inl (refl, λ later le. refl)

redis_replies-memory_replies_example :
    redis_replies server codec "room:" 5 calls [] ≡ memory_replies 5 calls empty
unfolding IsOrdinary
redis_replies-memory_replies_example =
    redis_replies-memory_replies server codec "room:" server-IsRedis 5 calls [] empty
      (tt, (tt, ((omega arith, refl), (tt, (tt, tt))))) both_empty
