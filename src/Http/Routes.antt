-- ===== src/Http/Routes.antt =====
-- http/routes.ts: `handleHttp`.
use the_room_backend.Base.{Bool, true, not, ◌&&◌, Option, none, String, ◌==◌, if◌then◌else◌}
use package.text.Mathlib.Text.{starts_with}
use the_room_backend.Http.Request.{
  Tokens, HttpRequest, Response, respond, ready, no_content, stats, metrics, failure,
}
use the_room_backend.Http.Effects.{
  Attempt, returns, throws, http_error, other_error, HttpWorld, H, ◌>>=◌, pure, server_now, bearer,
  safe_equal,
}
use the_room_backend.Http.Admin.{admin}

-- `ping` answers whether the store does; it does not throw.
unfoldable pub readyz : (ping : Bool) → H Response
readyz ping = do
  s ← server_now
  let ok = not s.shutting_down && ping
  pure (respond (if ok then 200 else 503) (ready ok))

unfoldable pub cors_of : HttpRequest → Option String
cors_of r = if r.origin_allowed then r.origin else none

-- The count is for every allowed page to read.
unfoldable pub stats_page : HttpRequest → H Response
unfolding cors_of
stats_page r =
    if r.method == "OPTIONS"
    then pure (record { status = 204; answer = no_content; cors = cors_of r })
    else if not (r.method == "GET")
    then pure (respond 405 (failure "method_not_allowed"))
    else do
      s ← server_now
      pure (record {
        status = 200;
        answer = stats s.srv.online s.srv.room.day s.srv.room.ends_at s.srv.now;
        cors = cors_of r;
      })

unfoldable pub metrics_page : Tokens → HttpRequest → H Response
metrics_page tokens r =
    if not (tokens.metrics_token == "") && not (safe_equal (bearer r) tokens.metrics_token)
    then pure (respond 401 (failure "unauthorized"))
    else pure (respond 200 metrics)

unfoldable pub admin_page : (is_public_name : String → Bool) → Tokens → HttpRequest → H Response
admin_page is_public_name tokens r =
    if tokens.admin_token == ""
    then pure (respond 404 (failure "not_found"))
    else if not (safe_equal (bearer r) tokens.admin_token)
    then pure (respond 401 (failure "unauthorized"))
    else admin is_public_name r

unfoldable pub route :
    (is_public_name : String → Bool) → (ping : Bool) → Tokens → HttpRequest → H Response
route is_public_name ping tokens r =
    if r.path == "/healthz" && r.method == "GET"
    then pure (respond 200 (ready true))
    else if r.path == "/readyz" && r.method == "GET"
    then readyz ping
    else if r.path == "/stats"
    then stats_page r
    else if r.path == "/metrics" && r.method == "GET"
    then metrics_page tokens r
    else if starts_with r.path "/admin/"
    then admin_page is_public_name tokens r
    else pure (respond 404 (failure "not_found"))

-- What is thrown becomes an answer.
unfoldable pub catch_http : Attempt Response → Response
catch_http (returns response) = response
catch_http (throws (http_error status code)) = respond status (failure code)
catch_http (throws other_error) = respond 500 (failure "internal")

unfoldable pub handle_http :
    (is_public_name : String → Bool)
    → (ping : Bool) → Tokens
    → HttpRequest
    → HttpWorld
    → Response × HttpWorld
unfolding catch_http
handle_http is_public_name ping tokens r w =
    let (attempt, w') = route is_public_name ping tokens r w in (catch_http attempt, w')
