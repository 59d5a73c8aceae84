-- ===== src/Store/Memory/Messages.antt =====
-- store/memory.ts: the day's messages. A room's list is the last of what was appended.
use mathlib.Core.List.{append_assoc}
use the_room_backend.Base.{
  ℕ, zero, suc, ◌<◌, ◌≡◌, refl, ap, sym, ◌∙◌, Option, none, some, List, [], ◌∷◌, ◌++◌, String,
  eq_refl, arith, ltb, if◌then◌else◌, length, last_n, min, Bool-cases, inl, inr, last_n-append,
  last_n-last_n, last_n_all, last_n_zero, map,
}
use the_room_backend.Base.Dict.{lookup, lookup-insert}
use the_room_backend.Store.{StoredMessage}
use the_room_backend.Store.Memory.{
  MemoryStore, MessageList, messages_key, live_list, capped, append_message, recent_messages,
  recent_of,
}

capped-last_n : (most : ℕ) (ms : List StoredMessage) → capped most ms ≡ last_n most ms
unfolding capped
capped-last_n most ms = elim (Bool-cases (ltb most (length ms))) [
  | inl over ↦ rw over
  | inr fits ↦ rw fits (sym (last_n_all most ms (ground arith)))
]

-- What a room's list holds at a time: nothing where there is none or it has run out.
unfoldable pub log : (now : ℕ) → (room_id : String) → MemoryStore → List StoredMessage
log now room_id s = (live_list now 0 (lookup (messages_key room_id) s.lists)).v

live_list-v :
    (now exp : ℕ) (o : Option MessageList) → (live_list now exp o).v ≡ (live_list now 0 o).v
unfolding live_list
live_list-v now exp none = refl
live_list-v now exp (some e) = ground arith

stored-append :
    (now : ℕ) (room_id : String) (m : StoredMessage) (most exp : ℕ) (s : MemoryStore)
    → lookup (messages_key room_id) (append_message now room_id m most exp s).lists
      ≡ some (record { v = last_n most (log now room_id s ++ m ∷ []); exp = exp })
unfolding append_message log
stored-append now room_id m most exp s = rw (
  lookup-insert (messages_key room_id) (messages_key room_id) _ s.lists,
  eq_refl (messages_key room_id),
  live_list-v now exp (lookup (messages_key room_id) s.lists),
  capped-last_n most,
)

log-some :
    (later : ℕ) (room_id : String) (e : MessageList) (s : MemoryStore)
    → lookup (messages_key room_id) s.lists ≡ some e
    → later < e.exp
    → log later room_id s ≡ e.v
unfolding log live_list
log-some later room_id e s h lt = ground (arith, h)

recent_messages-some :
    (later : ℕ) (room_id : String) (e : MessageList) (limit : ℕ) (s : MemoryStore)
    → lookup (messages_key room_id) s.lists ≡ some e
    → recent_messages later room_id limit s ≡ (if ltb later e.exp then last_n limit e.v else [])
unfolding recent_messages recent_of
recent_messages-some later room_id e zero s h = ground (arith, h, last_n_zero e.v)
recent_messages-some later room_id e (suc limit) s h = ground (arith, h)

-- `recentMessages` after an append: the last `limit` of the last `most` of what the room had and
-- the new message, in the order of their coming; nothing once the room has run out.
pub recent_messages-append_message :
    (now later : ℕ) (room_id : String) (m : StoredMessage) (most exp limit : ℕ) (s : MemoryStore)
    → recent_messages later room_id limit (append_message now room_id m most exp s)
      ≡ (if ltb later exp then last_n (min limit most) (log now room_id s ++ m ∷ []) else [])
recent_messages-append_message now later room_id m most exp limit s =
    recent_messages-some later room_id _ limit (append_message now room_id m most exp s)
      (stored-append now room_id m most exp s)
    ∙ ap (λ ms. if ltb later exp then ms else [])
        (last_n-last_n limit most (log now room_id s ++ m ∷ []))

-- Appends at the times, one message each.
abbrev pub append_all :
    (room_id : String) → (most exp : ℕ) → List (ℕ × StoredMessage) → MemoryStore → MemoryStore
append_all room_id most exp [] s = s
append_all room_id most exp ((now, m) ∷ ms) s =
    append_all room_id most exp ms (append_message now room_id m most exp s)

abbrev pub Before : ℕ → List (ℕ × StoredMessage) → Type 0
Before exp [] = Unit {0}
Before exp ((now, m) ∷ ms) = (now < exp) × Before exp ms

abbrev pub messages_of : List (ℕ × StoredMessage) → List StoredMessage
messages_of = map (λ p. p.1)

log-append_all :
    (now later : ℕ) (room_id : String) (m : StoredMessage) (most exp : ℕ)
    (ms : List (ℕ × StoredMessage)) (s : MemoryStore)
    → Before exp ms
    → later < exp
    → log later room_id (append_all room_id most exp ((now, m) ∷ ms) s)
      ≡ last_n most (log now room_id s ++ m ∷ messages_of ms)
log-append_all now later room_id m most exp [] s b lt =
    log-some later room_id _ _ (stored-append now room_id m most exp s) lt
log-append_all now later room_id m most exp ((t, n) ∷ ms) s b lt =
    log-append_all t later room_id n most exp ms (append_message now room_id m most exp s) b.1 lt
    ∙ ap (λ l. last_n most (l ++ n ∷ messages_of ms))
        (log-some t room_id _ _ (stored-append now room_id m most exp s) b.0)
    ∙ last_n-append most (log now room_id s ++ m ∷ []) (n ∷ messages_of ms)
    ∙ ap (last_n most) (append_assoc (log now room_id s) (m ∷ []) (n ∷ messages_of ms))

append_all-some :
    (now : ℕ) (room_id : String) (m : StoredMessage) (most exp : ℕ) (ms : List (ℕ × StoredMessage))
    (s : MemoryStore)
    → (v : List StoredMessage) × (lookup
          (messages_key room_id)
          (append_all room_id most exp ((now, m) ∷ ms) s).lists
        ≡ some (record { v = v; exp = exp }))
append_all-some now room_id m most exp [] s = (_, stored-append now room_id m most exp s)
append_all-some now room_id m most exp ((t, n) ∷ ms) s =
    append_all-some t room_id n most exp ms (append_message now room_id m most exp s)

-- However many messages came since the room was empty, `recentMessages` gives the last `limit` of
-- them, and of these at most the last `most`, oldest first, until the room runs out.
pub recent_messages-append_all :
    (now later : ℕ) (room_id : String) (m : StoredMessage) (most exp limit : ℕ)
    (ms : List (ℕ × StoredMessage)) (s : MemoryStore)
    → log now room_id s ≡ []
    → Before exp ms
    → later < exp
    → recent_messages later room_id limit (append_all room_id most exp ((now, m) ∷ ms) s)
      ≡ last_n (min limit most) (m ∷ messages_of ms)
recent_messages-append_all now later room_id m most exp limit ms s fresh b lt =
    let s' = append_all room_id most exp ((now, m) ∷ ms) s in
    let (v, kept) = append_all-some now room_id m most exp ms s in
    recent_messages-some later room_id _ limit s' kept
    ∙ ground (arith, lt)
    ∙ ap (last_n limit) (sym (log-some later room_id _ s' kept lt))
    ∙ ap (last_n limit) (log-append_all now later room_id m most exp ms s b lt)
    ∙ ap (λ l. last_n limit (last_n most (l ++ m ∷ messages_of ms))) fresh
    ∙ last_n-last_n limit most (m ∷ messages_of ms)
