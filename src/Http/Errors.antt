-- ===== src/Http/Errors.antt =====
-- http/routes.ts: what an answer that reports an error leaves of the server.
use the_room_backend.Base.{◌≢◌, refl, Bool, Option, none, some, String}
use the_room_backend.Http.Request.{Tokens, HttpRequest, Response, BlockBody}
use the_room_backend.Http.Effects.{Attempt, returns, throws, http_error, other_error, HttpWorld}
use the_room_backend.Http.Admin.{
  admin, admin_reports, show_stats, owner_of, sender_of, session_of, block_session, admin_block,
  admin_unblock, block_found, block_parsed, unblock_found, unblock_parsed,
}
use the_room_backend.Http.Routes.{
  handle_http, route, admin_page, readyz, stats_page, metrics_page, catch_http,
}
use the_room_backend.Http.Reads.{
  IsUntouched, IsError, Reads, Careful, Succeeds, Succeeds-call, Succeeds-now, Succeeds-respond,
  Careful-Succeeds, Careful-Reads, Careful-if, Careful-bind, reads,
}

owner_of-Reads : (name : Option String) → Reads (owner_of name)
unfolding owner_of
owner_of-Reads none = search reads depth 16
owner_of-Reads (some name) = search reads depth 16

sender_of-Reads : (id : Option String) → Reads (sender_of id)
unfolding sender_of
sender_of-Reads none = search reads depth 16
sender_of-Reads (some id) = search reads depth 16

session_of-Reads : (b : BlockBody) → Reads (session_of b)
unfolding session_of
session_of-Reads b = search (reads, owner_of-Reads, sender_of-Reads)

block_session-Succeeds : (sid : String) (b : BlockBody) → Succeeds (block_session sid b)
unfolding block_session
block_session-Succeeds sid b = search (Succeeds-now, Succeeds-call, Succeeds-respond)

ruleset careful = (reads, Careful-if, Careful-bind, Careful-Reads, Careful-Succeeds)

block_found-Careful : (b : BlockBody) (sid : Option String) → Careful (block_found b sid)
unfolding block_found
block_found-Careful b none = search careful depth 24
block_found-Careful b (some sid) = search (careful, block_session-Succeeds) depth 24

block_parsed-Careful : (b : Option BlockBody) → Careful (block_parsed b)
unfolding block_parsed
block_parsed-Careful none = search careful depth 24
block_parsed-Careful (some b) = search (careful, session_of-Reads, block_found-Careful) depth 24

unblock_found-Careful : (sid : Option String) → Careful (unblock_found sid)
unfolding unblock_found
unblock_found-Careful none = search careful depth 24
unblock_found-Careful (some sid) = search (careful, Succeeds-call, Succeeds-respond) depth 24

unblock_parsed-Careful : (name : Option String) → Careful (unblock_parsed name)
unfolding unblock_parsed
unblock_parsed-Careful none = search careful depth 24
unblock_parsed-Careful (some name) = search (careful, unblock_found-Careful) depth 24

admin-Careful : (p : String → Bool) (r : HttpRequest) → Careful (admin p r)
unfolding admin admin_reports show_stats admin_block admin_unblock
admin-Careful p r = search (careful, block_parsed-Careful, unblock_parsed-Careful) depth 32

route-Careful :
    (p : String → Bool) (ping : Bool) (tokens : Tokens) (r : HttpRequest)
    → Careful (route p ping tokens r)
unfolding route readyz stats_page metrics_page admin_page
route-Careful p ping tokens r = search (careful, admin-Careful) depth 32

catch_http-IsError :
    (attempt : Attempt Response)
    → (catch_http attempt).status ≢ 200
    → (catch_http attempt).status ≢ 500
    → IsError attempt
unfolding catch_http
catch_http-IsError (returns response) no_success no_fault = no_success
catch_http-IsError (throws (http_error status code)) no_success no_fault = tt
catch_http-IsError (throws other_error) no_success no_fault = absurd (no_fault refl)

-- Where the answer is neither a success nor "internal", the request has published and logged
-- nothing, changed no connection, and set or lifted no block.
pub handle_http-IsUntouched :
    (p : String → Bool) (ping : Bool) (tokens : Tokens) (r : HttpRequest) (w : HttpWorld)
    → (handle_http p ping tokens r w).0.status ≢ 200
    → (handle_http p ping tokens r w).0.status ≢ 500
    → IsUntouched w.server (handle_http p ping tokens r w).1.server
unfolding handle_http
handle_http-IsUntouched p ping tokens r w no_success no_fault =
    (route-Careful p ping tokens r).unless w
      (catch_http-IsError (route p ping tokens r w).0 no_success no_fault)
