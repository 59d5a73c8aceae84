-- ===== src/Http/Safety.antt =====
-- http/routes.ts: who may change the server.
use the_room_backend.Base.{
  ◌≡◌, ◌≢◌, Bool, String, ◌==◌, if◌then◌else◌, arith, eq_iff, Bool-cases, inl, inr,
}
use the_room_backend.Http.Request.{Tokens, HttpRequest, respond, failure}
use the_room_backend.Http.Effects.{HttpWorld, ◌>>=◌, pure, server_now, bearer}
use the_room_backend.Http.Routes.{handle_http, route, readyz, stats_page, metrics_page, admin_page}

-- The administration is on, and the request carries its token.
unfoldable pub IsAuthorized : Tokens → HttpRequest → Type 0
IsAuthorized tokens r = (tokens.admin_token ≢ "") × (bearer r ≡ tokens.admin_token)

module _ (p : String → Bool) (ping : Bool) (tokens : Tokens) (r : HttpRequest) (w : HttpWorld) where
  admin_page_refused :
      ¬ IsAuthorized tokens r
      → (admin_page p tokens r w) ≡ (
          pure
            (respond
              (if tokens.admin_token == "" then 404 else 401)
              (failure (if tokens.admin_token == "" then "not_found" else "unauthorized")))
            w)
  unfolding admin_page IsAuthorized pure
  admin_page_refused not_authorized = elim (Bool-cases (tokens.admin_token == "")) [
    | inl e ↦ rw (e)
    | inr e ↦ elim (Bool-cases (bearer r == tokens.admin_token)) [
      | inl same ↦ absurd (
          not_authorized (
            (λ h. cc ((eq_iff tokens.admin_token "").1 h, e)),
            (eq_iff (bearer r) tokens.admin_token).0 same,
          ))
      | inr other ↦ rw (e, other)
    ]
  ]

  -- A request without the administration's token, or any request where no token is set, leaves the
  -- server as it was, whatever it asks for and whichever calls fail.
  pub handle_http-unchanged : ¬ IsAuthorized tokens r → (handle_http p ping tokens r w).1 ≡ w
  unfolding handle_http route readyz stats_page metrics_page pure ◌>>=◌ server_now
  handle_http-unchanged not_authorized =
      let refused = admin_page_refused not_authorized in ground (arith, refused)
