-- ===== src/Http/Posts.antt =====
-- http/routes.ts: which endpoint an authorized request reaches.
use the_room_backend.Base.{
  ◌≡◌, refl, ap, ◌∙◌, Bool, true, false, Option, some, String, ◌==◌, eq_iff, eq_refl, Bool-cases,
  inl, inr,
}
use package.text.Mathlib.Text.{starts_with}
use the_room_backend.Store.Memory.{text}
use the_room_backend.Http.Request.{Tokens, HttpRequest, Json}
use the_room_backend.Http.Effects.{returns, HttpWorld, pure, fits, read_json}
use the_room_backend.Http.Admin.{admin, admin_block, admin_unblock}
use the_room_backend.Http.Routes.{route, admin_page}
use the_room_backend.Http.Safety.{IsAuthorized}

-- A well-formed request to an endpoint, with the administration's token.
pub record Posts (tokens : Tokens) (path : String) (r : HttpRequest) : Type 0 where
  pub to_path : r.path ≡ path
  pub posts : r.method ≡ "POST"
  pub authorized : IsAuthorized tokens r
  pub has_type : r.payload.is_json ≡ true
  pub short : fits 0 r.payload.chunks ≡ true

token_is_set :
    (tokens : Tokens) (r : HttpRequest) → IsAuthorized tokens r → (tokens.admin_token == "") ≡ false
unfolding IsAuthorized
token_is_set tokens r h = elim (Bool-cases (tokens.admin_token == "")) [
  | inl none_set ↦ absurd (h.0 ((eq_iff tokens.admin_token "").0 none_set))
  | inr set ↦ set
]

admin_page_admits :
    (p : String → Bool) (tokens : Tokens) (r : HttpRequest)
    → IsAuthorized tokens r
    → admin_page p tokens r ≡ admin p r
unfolding admin_page IsAuthorized
admin_page_admits p tokens r h = rw (token_is_set tokens r h, h.1, eq_refl tokens.admin_token)

-- How a path compares to a text, by what it is.
test_of :
    (test : String → Bool) (path actual : String) (b : Bool)
    → actual ≡ path
    → test path ≡ b
    → test actual ≡ b
test_of test path actual b same holds = ap test same ∙ holds

module _ (p : String → Bool) (ping : Bool) (tokens : Tokens) (r : HttpRequest) (w : HttpWorld) where
  pub route-block : Posts tokens "/admin/block" r → route p ping tokens r w ≡ admin_block p r w
  unfolding route admin
  route-block h =
      let at : (test : String → Bool) (b : Bool) → test "/admin/block" ≡ b → test r.path ≡ b =
        λ test b. test_of test "/admin/block" r.path b h.to_path in
      rw (
        at (λ x. x == "/healthz") false refl,
        at (λ x. x == "/readyz") false refl,
        at (λ x. x == "/stats") false refl,
        at (λ x. x == "/metrics") false refl,
        at (λ x. starts_with x "/admin/") true refl,
        admin_page_admits p tokens r h.authorized,
        at (λ x. x == "/admin/reports") false refl,
        at (λ x. x == "/admin/stats") false refl,
        at (λ x. x == "/admin/block") true refl,
        h.posts,
      )

  pub route-unblock :
      Posts tokens "/admin/unblock" r → route p ping tokens r w ≡ admin_unblock p r w
  unfolding route admin
  route-unblock h =
      let at : (test : String → Bool) (b : Bool) → test "/admin/unblock" ≡ b → test r.path ≡ b =
        λ test b. test_of test "/admin/unblock" r.path b h.to_path in
      rw (
        at (λ x. x == "/healthz") false refl,
        at (λ x. x == "/readyz") false refl,
        at (λ x. x == "/stats") false refl,
        at (λ x. x == "/metrics") false refl,
        at (λ x. starts_with x "/admin/") true refl,
        admin_page_admits p tokens r h.authorized,
        at (λ x. x == "/admin/reports") false refl,
        at (λ x. x == "/admin/stats") false refl,
        at (λ x. x == "/admin/block") false refl,
        at (λ x. x == "/admin/unblock") true refl,
        h.posts,
      )

pub Posts-read_json :
    (tokens : Tokens) (path : String) (r : HttpRequest) (j : Option Json) (w : HttpWorld)
    → Posts tokens path r
    → r.payload.json ≡ some j
    → read_json r.payload w ≡ (returns j, w)
unfolding read_json pure
Posts-read_json tokens path r j w h json = rw (h.has_type, h.short, json)
