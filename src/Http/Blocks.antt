-- ===== src/Http/Blocks.antt =====
-- http/routes.ts: a block that the administration sets and lifts.
use the_room_backend.Base.{
  ℕ, ◌+◌, ◌*◌, ◌≡◌, refl, ◌∙◌, Bool, true, some, [], ◌∷◌, ◌++◌, String, arith, eq_refl,
}
use the_room_backend.Base.Dict.{lookup-insert, lookup-delete}
use the_room_backend.Base.Text.{◌^^◌}
use the_room_backend.Store.{BusEvent}
use the_room_backend.Store.Memory.{
  MemoryStore, name_owner, name_key, block_key, block_ttl, set_block, delete_block, add_abuse_event,
  put, text,
}
use the_room_backend.Store.Memory.Claims.{block_ttl-set_block}
use the_room_backend.Gateway.RoomServer.State.{RoomServer}
use the_room_backend.Http.Request.{
  Tokens, HttpRequest, Json, BlockBody, Response, respond, block_set, unblocked, has_text,
  block_schema, unblock_schema,
}
use the_room_backend.Http.Effects.{
  Attempt, returns, HttpWorld, ◌>>=◌, pure, server_now, call, read_json,
}
use the_room_backend.Http.Admin.{
  admin_block, admin_unblock, block_found, block_parsed, unblock_found, unblock_parsed, session_of,
  owner_of, block_session,
}
use the_room_backend.Http.Routes.{handle_http, catch_http}
use the_room_backend.Store.Memory.Owners.{block_key≢name_key, name_owner_found, name_owner-same}
use the_room_backend.Http.Posts.{Posts, route-block, route-unblock, Posts-read_json}

block_session-effect :
    (sid : String) (b : BlockBody) (s : RoomServer)
    → let w' = (block_session sid b (record { server = s; faults = [] })).1 in
      ((block_session sid b (record { server = s; faults = [] })).0
        ≡ returns (respond 200 (block_set (s.srv.platform.log_tag sid) b.minutes)))
      × (block_ttl s.srv.now ("sess:" ^^ sid) w'.server.srv.store ≡ b.minutes * 60000)
      × (w'.server.srv.published
          ≡ s.srv.published ++ BusEvent.kick s.srv.instance_id sid b.reason ∷ [])
unfolding block_session ◌>>=◌ call pure server_now add_abuse_event block_ttl
block_session-effect sid b s = (
  refl,
  (block_ttl-set_block s.srv.now s.srv.now (b.minutes * 60000) ("sess:" ^^ sid)
        ("admin:" ^^ b.reason) s.srv.store).0
      ∙ omega arith,
  refl,
)

abbrev no_faults : RoomServer → HttpWorld
no_faults s = record { server = s; faults = [] }

-- A session that owns a name of the present room.
pub record Owns (s : RoomServer) (name sid : String) : Type 0 where
  pub owned : (name_owner s.srv.now s.srv.room.room_id name s.srv.store).0 ≡ some sid
  pub has_name : has_text (some name) ≡ true
  pub has_sid : has_text (some sid) ≡ true

admin_block-named :
    (p : String → Bool) (r : HttpRequest) (j : Json) (b : BlockBody) (name sid : String)
    (s : RoomServer)
    → read_json r.payload (no_faults s) ≡ (returns (some j), no_faults s)
    → block_schema p (some j) ≡ some b
    → b.public_name ≡ some name
    → Owns s name sid
    → admin_block p r (no_faults s) ≡ block_session sid b (no_faults s)
unfolding admin_block block_found block_parsed session_of owner_of ◌>>=◌ call pure server_now
admin_block-named p r j b name sid s read schema named owns =
    let same = name_owner_found s.srv.now s.srv.room.room_id name sid s.srv.store owns.owned in
    rw (read, schema, named, owns.has_name, owns.owned, same, owns.has_sid, owns.has_sid)

admin_unblock-named :
    (p : String → Bool) (r : HttpRequest) (j : Json) (name sid : String) (s : RoomServer)
    → read_json r.payload (no_faults s) ≡ (returns (some j), no_faults s)
    → unblock_schema p (some j) ≡ some name
    → Owns s name sid
    → admin_unblock p r (no_faults s) ≡ (
      returns (respond 200 unblocked),
      no_faults
          (record s { srv = record s.srv { store = delete_block ("sess:" ^^ sid) s.srv.store } }),
    )
unfolding admin_unblock unblock_found unblock_parsed ◌>>=◌ call pure server_now
admin_unblock-named p r j name sid s read schema owns =
    let same = name_owner_found s.srv.now s.srv.room.room_id name sid s.srv.store owns.owned in
    rw (read, schema, owns.owned, same, owns.has_sid)

abbrev handled : Attempt Response × HttpWorld → Response × HttpWorld
unfolding catch_http
handled (attempt, w) = (catch_http attempt, w)

block_ttl-delete_block :
    (now : ℕ) (key : String) (s : MemoryStore) → block_ttl now key (delete_block key s) ≡ 0
unfolding block_ttl delete_block
block_ttl-delete_block now key s =
    rw (lookup-delete (block_key key) (block_key key), eq_refl (block_key key))

block_session-Owns :
    (sid other name : String) (b : BlockBody) (s : RoomServer)
    → Owns s name other
    → Owns (block_session sid b (no_faults s)).1.server name other
unfolding block_session ◌>>=◌ call pure server_now add_abuse_event set_block put
block_session-Owns sid other name b s owns = record {
  owned =
      name_owner-same s.srv.now s.srv.room.room_id name s.srv.store _ (
        rw (
          lookup-insert (block_key ("sess:" ^^ sid)) (name_key s.srv.room.room_id name)
              (record { v = text ("admin:" ^^ b.reason); exp = s.srv.now + b.minutes * 60000 })
              s.srv.store.kv,
          block_key≢name_key ("sess:" ^^ sid) s.srv.room.room_id name,
        ))
      ∙ owns.owned;
  has_name = owns.has_name;
  has_sid = owns.has_sid;
}

block_session-world :
    (sid : String) (b : BlockBody) (s : RoomServer)
    → let w = (block_session sid b (no_faults s)).1 in
      (w ≡ no_faults w.server) × (w.server.srv.now ≡ s.srv.now)
unfolding block_session ◌>>=◌ call pure server_now
block_session-world sid b s = (refl, refl)

module _ (p : String → Bool) (ping : Bool) (tokens : Tokens) where
  -- An authorized request to block the session that owns a name answers with the session's tag,
  -- tells the other instances, and blocks the session for the minutes it says; an authorized
  -- request to unblock the name then leaves no block.
  pub handle_http-block_unblock :
      (s : RoomServer) (r u : HttpRequest) (j k : Json) (b : BlockBody) (name sid : String)
      → Posts tokens "/admin/block" r
      → r.payload.json ≡ some (some j)
      → block_schema p (some j) ≡ some b
      → b.public_name ≡ some name
      → Posts tokens "/admin/unblock" u
      → u.payload.json ≡ some (some k)
      → unblock_schema p (some k) ≡ some name
      → Owns s name sid
      → let (res, w) = handle_http p ping tokens r (no_faults s) in
        let (res', w') = handle_http p ping tokens u w in
        (res ≡ respond 200 (block_set (s.srv.platform.log_tag sid) b.minutes))
        × (w.server.srv.published
            ≡ s.srv.published ++ BusEvent.kick s.srv.instance_id sid b.reason ∷ [])
        × (block_ttl s.srv.now ("sess:" ^^ sid) w.server.srv.store ≡ b.minutes * 60000)
        × (res' ≡ respond 200 unblocked)
        × (block_ttl s.srv.now ("sess:" ^^ sid) w'.server.srv.store ≡ 0)
  unfolding handle_http
  handle_http-block_unblock s r u j k b name sid posts json schema named posts' json' schema' owns =
      let blocks =
        route-block p ping tokens r (no_faults s) posts
        ∙ admin_block-named p r j b name sid s
            (Posts-read_json tokens "/admin/block" r (some j) (no_faults s) posts json) schema named
            owns in
      let w' = (block_session sid b (no_faults s)).1 in
      let effect = block_session-effect sid b s in
      let unblocks =
        route-unblock p ping tokens u (no_faults w'.server) posts'
        ∙ admin_unblock-named p u k name sid w'.server
            (Posts-read_json tokens "/admin/unblock" u (some k) (no_faults w'.server) posts' json')
            schema' (block_session-Owns sid sid name b s owns) in
      (
        rw (blocks, effect.0),
        rw (blocks, effect.2),
        rw (blocks, effect.1),
        rw (blocks, (block_session-world sid b s).0, unblocks),
        rw (blocks, (block_session-world sid b s).0, unblocks)
            (block_ttl-delete_block s.srv.now ("sess:" ^^ sid) w'.server.srv.store),
      )
