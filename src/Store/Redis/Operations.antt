-- ===== src/Store/Redis/Operations.antt =====
-- store/redis.ts: `RedisStore`, one function per method, over the commands of `Commands`. All keys
-- stand under the prefix `p`.
use the_room_backend.Base.{
  ℕ, ◌+◌, ◌-◌, ◌/◌, max, Bool, true, false, Option, none, some, List, [], ◌∷◌, map, String, ltb,
  leb, if◌then◌else◌, ◌==◌, or_else,
}
use the_room_backend.Base.Int.{ℤ, pos, negsuc}
use the_room_backend.Base.Text.{◌^^◌, decimal}
use the_room_backend.Store.{SessionRecord, StoredMessage, AbuseEvent, Field}
use the_room_backend.Store.Memory.{
  name_key, session_key, resume_key, messages_key, window_key, set_key, block_key, lock_key,
}
use the_room_backend.Store.Redis.{Commands, Codec, k}

module _ (R : Commands) (codec : Codec) (p : String) where
  unfoldable pub claim_name :
      ℕ → (room_id name sid : String) → (expire_at : ℕ) → R.State → Bool × R.State
  claim_name now room_id name sid expire_at s =
      R.set_at now (k p (name_key room_id name)) sid expire_at true s

  unfoldable pub name_owner : ℕ → (room_id name : String) → R.State → Option String
  name_owner now room_id name s = R.get now (k p (name_key room_id name)) s

  unfoldable pub save_session : ℕ → SessionRecord → (expire_at : ℕ) → R.State → R.State
  save_session now rec expire_at s =
      (R.set_at now (k p (session_key rec.sid)) (codec.session_json rec) expire_at false s).1

  unfoldable pub get_session : ℕ → String → R.State → Option SessionRecord
  get_session now sid s = elim (R.get now (k p (session_key sid)) s) [
    | none ↦ none
    | some raw ↦ if raw == "" then none else some (codec.parse_session raw)
  ]

  unfoldable pub set_resume : ℕ → (hash sid : String) → (expire_at : ℕ) → R.State → R.State
  set_resume now hash sid expire_at s =
      (R.set_at now (k p (resume_key hash)) sid expire_at false s).1

  unfoldable pub resolve_resume : ℕ → String → R.State → Option String
  resolve_resume now hash s = R.get now (k p (resume_key hash)) s

  -- Ten minutes beyond the end of the day.
  abbrev pub room_grace_ms : ℕ
  room_grace_ms = 600000

  unfoldable pub append_message :
      ℕ → String → StoredMessage → (cap expire_at : ℕ) → R.State → R.State
  append_message now room_id msg cap expire_at s =
      let key = k p (messages_key room_id) in
      R.pexpireat now key (expire_at + room_grace_ms)
        (R.ltrim_last now key cap (R.rpush now key (codec.message_json msg) s))

  unfoldable pub recent_messages : ℕ → String → (limit : ℕ) → R.State → List StoredMessage
  recent_messages now room_id limit s =
      if leb limit 0
      then []
      else map codec.parse_message (R.lrange_last now (k p (messages_key room_id)) limit s)

  unfoldable pub delete_room : ℕ → String → R.State → R.State
  delete_room now room_id s = R.del now (k p (messages_key room_id)) s

  -- `host_now` is the clock of the instance.
  unfoldable pub hit : (host_now now : ℕ) → String → (window_ms by : ℕ) → R.State → ℕ × R.State
  hit host_now now key window_ms by s =
      let window = k p (window_key key (host_now / window_ms)) in
      let (n, s') = R.incrby now window by s in (n, R.pexpire now window window_ms s')

  unfoldable pub add_to_set : ℕ → (key member : String) → (ttl_ms : ℕ) → R.State → ℕ × R.State
  add_to_set now key member ttl_ms s =
      let set = k p (set_key key) in
      let s' = R.pexpire now set ttl_ms (R.sadd now set member s) in (R.scard now set s', s')

  unfoldable pub set_block : ℕ → String → (ttl_ms : ℕ) → (reason : String) → R.State → R.State
  set_block now key ttl_ms reason s =
      (R.set_for now (k p (block_key key)) (codec.first_200 reason) (max 1 ttl_ms) false s).1

  abbrev positive : ℤ → ℕ
  positive (pos t) = t
  positive (negsuc t) = 0

  unfoldable pub block_ttl : ℕ → String → R.State → ℕ
  unfolding positive
  block_ttl now key s = positive (R.pttl now (k p (block_key key)) s)

  unfoldable pub delete_block : ℕ → String → R.State → R.State
  delete_block now key s = R.del now (k p (block_key key)) s

  unfoldable pub report_presence : (instance_id : String) → (count now : ℕ) → R.State → R.State
  report_presence instance_id count now s =
      R.hset (k p "presence") instance_id (decimal count ^^ (":" ^^ decimal now)) s

  unfoldable pub remove_presence : (instance_id : String) → R.State → R.State
  remove_presence instance_id s = R.hdel (k p "presence") (instance_id ∷ []) s

  -- An instance that has not reported for long is stale; so is one whose time is no number.
  is_stale : (now stale_ms : ℕ) → Option ℕ → Bool
  is_stale now stale_ms none = true
  is_stale now stale_ms (some ts) = ltb stale_ms (now - ts)

  count_presence : (now stale_ms : ℕ) → List (String × String) → ℕ × List String
  unfolding is_stale
  count_presence now stale_ms [] = (0, [])
  count_presence now stale_ms ((id, v) ∷ rest) =
      let (total, stale) = count_presence now stale_ms rest in
      let (n, ts) = codec.number_parts v in
      if is_stale now stale_ms ts then (total, id ∷ stale) else (or_else n 0 + total, stale)

  abbrev drop_stale : List String → R.State → R.State
  drop_stale [] s = s
  drop_stale (id ∷ ids) s = R.hdel (k p "presence") (id ∷ ids) s

  unfoldable pub total_presence : (now stale_ms : ℕ) → R.State → ℕ × R.State
  unfolding count_presence drop_stale
  total_presence now stale_ms s =
      let (total, stale) = count_presence now stale_ms (R.hgetall (k p "presence") s) in
      (total, drop_stale stale s)

  unfoldable pub add_abuse_event :
      (host_now now : ℕ) → List (String × Field) → (retention_ms : ℕ) → R.State → R.State
  add_abuse_event host_now now fields retention_ms s =
      let texts = map (λ f. (f.0, codec.field_text f.1)) fields in
      R.xtrim (k p "abuse") (decimal (host_now - retention_ms)) (R.xadd now (k p "abuse") texts s)

  unfoldable pub list_abuse_events : (limit : ℕ) → R.State → List AbuseEvent
  list_abuse_events limit s =
      map (λ row. record { id = row.0; fields = map (λ f. (f.0, codec.field_of f.1)) row.1 })
        (R.xrevrange (k p "abuse") limit s)

  unfoldable pub acquire_once : ℕ → String → (ttl_ms : ℕ) → R.State → Bool × R.State
  acquire_once now key ttl_ms s = R.set_for now (k p (lock_key key)) "1" ttl_ms true s
