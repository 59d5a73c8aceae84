-- ===== src/Examples/Administered.antt =====
-- The theorems on http/routes.ts and on blocked sessions at concrete values.
use the_room_backend.Base.{
  ◌≡◌, refl, Bool, true, false, none, some, [], ◌∷◌, String, ◌==◌, arith, ◌+◌, leb, All,
}
use the_room_backend.Base.Int.{pos}
use the_room_backend.Base.Dict.{lookup, insert}
use the_room_backend.Store.{SessionRecord, BusEvent}
use the_room_backend.Store.Memory.{block_ttl, claim_name, name_owner, set_block, get}
use the_room_backend.Gateway.World.{World}
use the_room_backend.Gateway.RoomServer.State.{RoomServer}
use the_room_backend.Gateway.RoomServer.Fanout.{on_bus}
use the_room_backend.Gateway.RoomServer.Cutting.{IsShut}
use the_room_backend.Gateway.RoomServer.Kicking.{on_bus-kick}
use the_room_backend.Gateway.RoomServer.Excluded.{admit_session-blocked}
use the_room_backend.Gateway.Connection.Transport.{is_open}
use the_room_backend.Gateway.Connection.Join.{admit_session}
use the_room_backend.Gateway.Connection.Frames.{bare_connection}
use the_room_backend.Http.Request.{
  Tokens, Json, absent, text, whole, HttpRequest, BlockBody, respond, block_set, unblocked,
  block_schema, unblock_schema, name_field, text_field, minutes_field, has_text, then_some,
}
use the_room_backend.Http.Effects.{
  HttpWorld, fits, bearer, ◌>>=◌, pure, call, server_now, read_json, max_body,
}
use the_room_backend.Http.Admin.{
  admin, admin_block, session_of, owner_of, sender_of, block_found, block_parsed,
}
use the_room_backend.Http.Routes.{handle_http, route, admin_page, catch_http}
use the_room_backend.Http.Safety.{IsAuthorized, handle_http-unchanged}
use the_room_backend.Http.Reads.{IsUntouched}
use the_room_backend.Http.Errors.{handle_http-IsUntouched}
use the_room_backend.Http.Posts.{Posts}
use the_room_backend.Http.Blocks.{Owns, handle_http-block_unblock}
use the_room_backend.Http.Bounds.{IsBounded, fits-sum, sum, block_schema_bounds}
use the_room_backend.Examples.Connected.{server, joined_world}
use the_room_backend.Examples.Served.{new_server, crowded, crowded-IsCounted}

abbrev tokens : Tokens
tokens = record { admin_token = "secret"; metrics_token = "" }

abbrev is_otter : String → Bool
is_otter s = s == "CalmOtter_1000"

abbrev named : Json
named = record {
  public_name = text "CalmOtter_1000" 14;
  message_id = absent;
  minutes = whole (pos 30);
  reason = absent;
  unknown_keys = false;
}

abbrev just_named : Json
just_named = record named { minutes = absent }

abbrev post : String → Json → HttpRequest
post path json = record {
  path = path;
  method = "POST";
  authorization = "Bearer secret";
  origin = none;
  origin_allowed = false;
  limit = none;
  payload = record { is_json = true; chunks = 40 ∷ 20 ∷ []; json = some (some json) };
}

abbrev block_body : BlockBody
block_body = record {
  public_name = some "CalmOtter_1000";
  message_id = none;
  minutes = 30;
  reason = "admin";
}

abbrev owned_server : RoomServer
owned_server = record new_server {
  srv = record server {
    store = (claim_name 5 "1970-01-01" "CalmOtter_1000" "s1" 80000000 server.store).1;
  };
}

abbrev at : RoomServer → HttpWorld
at s = record { server = s; faults = [] }

handle_http-unchanged_example :
    (handle_http is_otter true
      (record tokens { admin_token = "other" })
      (post "/admin/block" named)
      (at owned_server)).1
    ≡ at owned_server
unfolding bearer IsAuthorized
handle_http-unchanged_example =
    handle_http-unchanged is_otter true (record tokens { admin_token = "other" })
      (post "/admin/block" named) (at owned_server) (λ h. cc)

-- Nobody owns the name.
nobody :
    (handle_http is_otter true tokens (post "/admin/block" named) (at new_server)).0.status ≡ 404
unfolding handle_http route admin_page bearer admin admin_block ◌>>=◌ read_json fits then_some
    name_field text_field minutes_field has_text session_of owner_of call name_owner lookup
    block_found block_parsed sender_of catch_http pure block_schema get server_now
nobody = refl

handle_http-IsUntouched_example :
    IsUntouched new_server
      (handle_http is_otter true tokens (post "/admin/block" named) (at new_server)).1.server
handle_http-IsUntouched_example =
    handle_http-IsUntouched is_otter true tokens (post "/admin/block" named) (at new_server)
      (λ h. omega (arith, h, nobody)) (λ h. omega (arith, h, nobody))

post-Posts : (path : String) (json : Json) → Posts tokens path (post path json)
unfolding fits IsAuthorized bearer
post-Posts path json = record {
  to_path = refl;
  posts = refl;
  authorized = ((λ h. cc), refl);
  has_type = refl;
  short = refl;
}

otter-Owns : Owns owned_server "CalmOtter_1000" "s1"
unfolding name_owner claim_name has_text lookup insert
otter-Owns = record { owned = refl; has_name = refl; has_sid = refl }

named-block_body : block_schema is_otter (some named) ≡ some block_body
unfolding block_schema name_field text_field minutes_field has_text then_some
named-block_body = refl

handle_http-block_unblock_example :
    let (res, w) = handle_http is_otter true tokens (post "/admin/block" named) (at owned_server) in
    let (res', w') = handle_http is_otter true tokens (post "/admin/unblock" just_named) w in
    (res ≡ respond 200 (block_set "s1" 30))
    × (w.server.srv.published ≡ BusEvent.kick server.instance_id "s1" "admin" ∷ [])
    × (block_ttl server.now "sess:s1" w.server.srv.store ≡ 1800000)
    × (res' ≡ respond 200 unblocked)
    × (block_ttl server.now "sess:s1" w'.server.srv.store ≡ 0)
unfolding unblock_schema name_field then_some
handle_http-block_unblock_example =
    handle_http-block_unblock is_otter true tokens owned_server (post "/admin/block" named)
      (post "/admin/unblock" just_named) named just_named block_body "CalmOtter_1000" "s1"
      (post-Posts "/admin/block" named) refl named-block_body refl
      (post-Posts "/admin/unblock" just_named) refl refl otter-Owns

block_schema_bounds_example : IsBounded is_otter block_body
block_schema_bounds_example = block_schema_bounds is_otter (some named) block_body named-block_body

fits-sum_example : fits 0 (4000 ∷ 97 ∷ []) ≡ leb (0 + sum (4000 ∷ 97 ∷ [])) max_body
fits-sum_example = fits-sum 0 (4000 ∷ 97 ∷ []) (omega arith)

abbrev otter_world : World
otter_world = record joined_world {
  conn = record joined_world.conn { rec = none; joined = false };
  srv = record server { store = set_block 5 "sess:s1" 1800000 "admin" server.store };
}

abbrev otter_record : SessionRecord
otter_record = record {
  sid = "s1";
  room_id = "1970-01-01";
  name = "CalmOtter_1000";
  country = none;
  ip_hash = "d";
  created_at = 5;
  suspicion = 0;
  suspicion_at = 5;
  challenge_pending = false;
  challenge_fails = 0;
  trusted_until = 0;
  blocks = 0;
}

admit_session-blocked_example :
    let w = (admit_session 100000 (some (otter_record, "token")) none otter_world).1 in
    (w.conn.joined ≡ false) × (is_open w.conn.ws.ready_state ≡ false)
unfolding block_ttl set_block lookup insert bare_connection
admit_session-blocked_example =
    admit_session-blocked 100000 otter_record "token" none otter_world refl refl (omega arith)

on_bus-kick_example : All (IsShut "s1") (on_bus (BusEvent.kick "i2" "s1" "admin") crowded).conns
on_bus-kick_example = on_bus-kick "i2" "s1" "admin" crowded crowded-IsCounted
