-- ===== src/Http/Admin.antt =====
-- http/routes.ts: `admin`, the endpoints below /admin/. The test of a public name is a parameter.
use the_room_backend.Base.{
  ℕ, ◌*◌, min, max, Bool, ◌&&◌, Option, none, some, [], ◌∷◌, String, ◌==◌, if◌then◌else◌, find,
  length,
}
use the_room_backend.Base.Int.{ℤ, pos, negsuc}
use the_room_backend.Base.Text.{◌^^◌, decimal}
use the_room_backend.Store.{StoredMessage, str, BusEvent}
use the_room_backend.Store.Memory.{
  name_owner, recent_messages, set_block, delete_block, add_abuse_event, list_abuse_events,
}
use the_room_backend.Http.Request.{
  HttpRequest, BlockBody, Response, respond, reports, admin_stats, block_set, unblocked, failure,
  block_schema, unblock_schema, has_text,
}
use the_room_backend.Http.Effects.{
  H, ◌>>=◌, ◌>>◌, pure, server_now, call, on_store, publish, read_json,
}

-- `Math.min(500, Math.max(1, limit || 50))`
unfoldable pub limit_of : Option ℤ → ℕ
limit_of none = 50
limit_of (some (pos n)) = min 500 (max 1 n)
limit_of (some (negsuc n)) = 1

unfoldable pub admin_reports : HttpRequest → H Response
unfolding limit_of
admin_reports r = do
  events ← call (on_store λ _ store. (list_abuse_events (limit_of r.limit) store, store))
  pure (respond 200 (reports events))

unfoldable pub show_stats : H Response
show_stats = do
  s ← server_now
  pure (respond 200 (admin_stats s.srv.instance_id s.srv.room s.srv.online (length s.conns)))

-- The session that owns a public name today.
unfoldable pub owner_of : Option String → H (Option String)
owner_of none = pure none
owner_of (some name) =
    if has_text (some name)
    then (do
      s ← server_now
      call (on_store λ now store. name_owner now s.srv.room.room_id name store))
    else pure none

author_of : Option StoredMessage → Option String
author_of none = none
author_of (some m) = some m.sid

-- The session that wrote a message, where the room still has it.
unfoldable pub sender_of : Option String → H (Option String)
unfolding author_of
sender_of none = pure none
sender_of (some id) =
    if has_text (some id)
    then (do
      s ← server_now
      recent ← call (
          on_store λ now store.
            (recent_messages now s.srv.room.room_id s.srv.config.history_limit store, store))
      pure (author_of (find (λ m. m.id == id) recent)))
    else pure none

-- By the name, or else by the message.
unfoldable pub session_of : BlockBody → H (Option String)
session_of b = do
  found ← owner_of b.public_name
  if has_text found then pure found else sender_of b.message_id

-- The block, the message to the other instances, and the entry in the log.
unfoldable pub block_session : (sid : String) → BlockBody → H Response
block_session sid b = do
  s ← server_now
  call (
      on_store λ now store.
        (tt, set_block now ("sess:" ^^ sid) (b.minutes * 60000) ("admin:" ^^ b.reason) store))
  call (publish (BusEvent.kick s.srv.instance_id sid b.reason))
  call (
      on_store λ now store. (
        tt,
        add_abuse_event now
            (("type", str "admin_block")
              ∷ ("session", str (s.srv.platform.log_tag sid))
              ∷ ("minutes", str (decimal b.minutes))
              ∷ ("reason", str b.reason)
              ∷ [])
            2592000000 store,
      ))
  pure (respond 200 (block_set (s.srv.platform.log_tag sid) b.minutes))

unfoldable pub block_found : BlockBody → Option String → H Response
block_found b none = pure (respond 404 (failure "session_not_found"))
block_found b (some sid) =
    if has_text (some sid)
    then block_session sid b
    else pure (respond 404 (failure "session_not_found"))

unfoldable pub block_parsed : Option BlockBody → H Response
unfolding block_found
block_parsed none = pure (respond 400 (failure "invalid"))
block_parsed (some b) = do sid ← session_of b; block_found b sid

unfoldable pub admin_block : (is_public_name : String → Bool) → HttpRequest → H Response
unfolding block_parsed block_schema
admin_block is_public_name r = do
  json ← read_json r.payload
  block_parsed (block_schema is_public_name json)

unfoldable pub unblock_found : Option String → H Response
unblock_found none = pure (respond 404 (failure "session_not_found"))
unblock_found (some sid) =
    if has_text (some sid)
    then call (on_store λ _ store. (tt, delete_block ("sess:" ^^ sid) store))
      >> pure (respond 200 unblocked)
    else pure (respond 404 (failure "session_not_found"))

unfoldable pub unblock_parsed : Option String → H Response
unfolding unblock_found
unblock_parsed none = pure (respond 400 (failure "invalid"))
unblock_parsed (some name) = do
  s ← server_now
  sid ← call (on_store λ now store. name_owner now s.srv.room.room_id name store)
  unblock_found sid

unfoldable pub admin_unblock : (is_public_name : String → Bool) → HttpRequest → H Response
unfolding unblock_parsed unblock_schema
admin_unblock is_public_name r = do
  json ← read_json r.payload
  unblock_parsed (unblock_schema is_public_name json)

unfoldable pub admin : (is_public_name : String → Bool) → HttpRequest → H Response
admin is_public_name r =
    if r.path == "/admin/reports" && r.method == "GET"
    then admin_reports r
    else if r.path == "/admin/stats" && r.method == "GET"
    then show_stats
    else if r.path == "/admin/block" && r.method == "POST"
    then admin_block is_public_name r
    else if r.path == "/admin/unblock" && r.method == "POST"
    then admin_unblock is_public_name r
    else pure (respond 404 (failure "not_found"))
