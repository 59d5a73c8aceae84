-- ===== src/Store/Memory/Claims.antt =====
-- store/memory.ts: what is put under a free key, blocks, and a reset room.
use package.text.Mathlib.TextPositions.{starts_with-append}
use package.text.Mathlib.Text.{starts_with}
use the_room_backend.Base.{
  ℕ, ◌+◌, ◌-◌, ◌≤◌, ◌<◌, ◌≡◌, true, false, none, some, String, eq_refl, arith, ltb, if◌then◌else◌,
  [], Bool-cases, Option-cases, ltb→lt, not, inl, inr,
}
use the_room_backend.Base.Dict.{lookup, lookup-insert, lookup-delete, lookup-delete_if}
use the_room_backend.Store.Memory.{
  MemoryStore, Entry, Value, text, number, name_key, name_prefix, messages_key, lock_key, block_key,
  get, get_as, put, put_if_free, claim_name, name_owner, recent_messages, delete_room, acquire_once,
  set_block, block_ttl, delete_block,
}

pub lookup-put_self :
    (k : String) (v : Value) (exp : ℕ) (s : MemoryStore)
    → lookup k (put k v exp s).kv ≡ some (record { v = v; exp = exp })
unfolding put
lookup-put_self k v exp s = rw (lookup-insert k k _ s.kv, eq_refl k)

pub get_live :
    (now : ℕ) (k : String) (e : Entry) (s : MemoryStore)
    → lookup k s.kv ≡ some e
    → now < e.exp
    → get now k s ≡ (some e.v, s)
unfolding get
get_live now k e s h lt = ground (arith, h)

pub get_expired :
    (now : ℕ) (k : String) (e : Entry) (s : MemoryStore)
    → lookup k s.kv ≡ some e
    → e.exp ≤ now
    → (get now k s).0 ≡ none
unfolding get
get_expired now k e s h lt = ground (arith, h)

put_if_free_stored :
    (now : ℕ) (k : String) (v : Value) (exp : ℕ) (s : MemoryStore)
    → (put_if_free now k v exp s).0 ≡ true
    → lookup k (put_if_free now k v exp s).1.kv ≡ some (record { v = v; exp = exp })
unfolding put_if_free
put_if_free_stored now k v exp s h = elim (Option-cases (get now k s).0) [
  | inl free ↦ rw free (lookup-put_self k v exp (get now k s).1)
  | inr (a, e) ↦ ground (arith, e)
]

put_if_free_taken :
    (now : ℕ) (k : String) (v : Value) (exp : ℕ) (e : Entry) (s : MemoryStore)
    → lookup k s.kv ≡ some e
    → now < e.exp
    → put_if_free now k v exp s ≡ (false, s)
unfolding put_if_free
put_if_free_taken now k v exp e s h lt = rw (get_live now k e s h lt)

put_if_free_free :
    (now : ℕ) (k : String) (v : Value) (exp : ℕ) (s : MemoryStore)
    → (get now k s).0 ≡ none
    → (put_if_free now k v exp s).0 ≡ true
unfolding put_if_free
put_if_free_free now k v exp s h = rw h

-- Once a name is claimed, its claimer owns it until `expire_at` and nobody does from then on;
-- another claim fails before that time and succeeds from then on.
pub claim_name_exclusive :
    (now later expire_at : ℕ) (room_id name sid other : String) (s : MemoryStore)
    → (claim_name now room_id name sid expire_at s).0 ≡ true
    → let s' = (claim_name now room_id name sid expire_at s).1 in
      ((name_owner later room_id name s').0 ≡ (if ltb later expire_at then some sid else none))
      × ((claim_name later room_id name other expire_at s').0 ≡ not (ltb later expire_at))
unfolding claim_name name_owner
claim_name_exclusive now later expire_at room_id name sid other s h =
    let k = name_key room_id name in
    let s' = (put_if_free now k (text sid) expire_at s).1 in
    let stored = put_if_free_stored now k (text sid) expire_at s h in
    elim (Bool-cases (ltb later expire_at)) [
      | inl lt ↦
          let live = ltb→lt later expire_at lt in
          (
            rw (lt, get_live later k _ s' stored live),
            rw (lt, put_if_free_taken later k (text other) expire_at _ s' stored live),
          )
      | inr ge ↦
          let free = get_expired later k _ s' stored (ground arith) in
          (rw (ge, free, get_as), rw ge (put_if_free_free later k (text other) expire_at s' free))
    ]

-- Of the callers of `acquireOnce` on a key, one gets `true`, and until its time runs out every
-- other gets `false` and changes nothing.
pub acquire_once_exclusive :
    (now later ttl_ms other_ttl : ℕ) (key : String) (s : MemoryStore)
    → (acquire_once now key ttl_ms s).0 ≡ true
    → later < now + ttl_ms
    → let s' = (acquire_once now key ttl_ms s).1 in
      acquire_once later key other_ttl s' ≡ (false, s')
unfolding acquire_once
acquire_once_exclusive now later ttl_ms other_ttl key s h lt =
    put_if_free_taken later (lock_key key) (number 1) (later + other_ttl) _ _
      (put_if_free_stored now (lock_key key) (number 1) (now + ttl_ms) s h) lt

-- A block lasts its time to the millisecond, whatever was there before, and ends at once where it
-- is deleted.
pub block_ttl-set_block :
    (now later ttl_ms : ℕ) (key reason : String) (s : MemoryStore)
    → (block_ttl later key (set_block now key ttl_ms reason s) ≡ now + ttl_ms - later)
      × (block_ttl later key (delete_block key (set_block now key ttl_ms reason s)) ≡ 0)
unfolding block_ttl set_block delete_block
block_ttl-set_block now later ttl_ms key reason s = (
  rw (lookup-put_self (block_key key) (text reason) (now + ttl_ms) s),
  rw (lookup-delete (block_key key) (block_key key), eq_refl (block_key key)),
)

-- After a room is reset it has no messages and nobody owns one of its names.
pub delete_room_forgets :
    (now limit : ℕ) (room_id name : String) (s : MemoryStore)
    → let s' = delete_room room_id s in
      (recent_messages now room_id limit s' ≡ []) × ((name_owner now room_id name s').0 ≡ none)
unfolding delete_room recent_messages name_owner
delete_room_forgets now limit room_id name s = (
  rw (lookup-delete (messages_key room_id) (messages_key room_id), eq_refl (messages_key room_id)),
  rw (
    lookup-delete_if (λ k. starts_with k (name_prefix room_id)) (name_key room_id name) s.kv,
    starts_with-append (name_prefix room_id) name,
  ),
)
