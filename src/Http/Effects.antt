-- ===== src/Http/Effects.antt =====
-- http/routes.ts: a handler's effects. It works on the server, its calls of the store and of the
-- bus may fail, and it returns or throws; what was written before a throw stays written. A request
-- runs without others between its waits.
use the_room_backend.Base.{
  ℕ, ◌+◌, Bool, true, false, not, Option, none, some, List, [], ◌∷◌, ◌++◌, String, ◌==◌, ltb,
  if◌then◌else◌,
}
use package.text.Mathlib.Text.{starts_with}
use Prim.Native.String
use the_room_backend.Store.{BusEvent}
use the_room_backend.Store.Memory.{MemoryStore}
use the_room_backend.Gateway.RoomServer.State.{RoomServer}
use the_room_backend.Http.Request.{Body, HttpRequest, Json}

-- `HttpError`, and whatever else a call throws.
pub data Thrown : Type 0 where
  http_error : (status : ℕ) → (code : String) → Thrown
  other_error : Thrown

pub data Attempt (A : Type 0) : Type 0 where
  returns : A → Attempt A
  throws : Thrown → Attempt A

-- The server, and which of the next calls of the store and of the bus fail.
pub record HttpWorld : Type 0 where
  pub server : RoomServer
  pub faults : List Bool

abbrev pub H : Type 0 → Type 0
H A = HttpWorld → Attempt A × HttpWorld

abbrev pub continue : {A B : Type 0} → Attempt A → (A → H B) → H B
continue (returns a) f w = f a w
continue (throws e) f w = (throws e, w)

unfoldable pub pure : {A : Type 0} → A → H A
pure a w = (returns a, w)

unfoldable pub throw : {A : Type 0} → Thrown → H A
throw e w = (throws e, w)

unfoldable pub server_now : H RoomServer
server_now w = (returns w.server, w)

infixl 5 ◌>>=◌ ◌>>◌
unfoldable pub ◌>>=◌ : {A B : Type 0} → H A → (A → H B) → H B
unfolding pure throw server_now
◌>>=◌ m f w = let (r, w') = m w in continue r f w'

abbrev pub ◌>>◌ : {A B : Type 0} → H A → H B → H B
m >> n = m >>= λ _. n

abbrev pub next_fault : List Bool → Bool × List Bool
next_fault [] = (false, [])
next_fault (f ∷ fs) = (f, fs)

-- A call of the store or the bus.
unfoldable pub call : {A : Type 0} → (RoomServer → A × RoomServer) → H A
unfolding next_fault
call op w =
    let (fails, rest) = next_fault w.faults in
    if fails
    then (throws other_error, record w { faults = rest })
    else let (a, s) = op w.server in (returns a, record { server = s; faults = rest })

abbrev pub on_store :
    {A : Type 0} → (ℕ → MemoryStore → A × MemoryStore) → RoomServer → A × RoomServer
on_store op s =
    let (a, store) = op s.srv.now s.srv.store in
    (a, record s { srv = record s.srv { store = store } })

abbrev pub publish : BusEvent → RoomServer → Unit {0} × RoomServer
publish evt s = (tt, record s { srv = record s.srv { published = s.srv.published ++ evt ∷ [] } })

-- `h.startsWith("Bearer ") ? h.slice(7) : ""`
unfoldable pub bearer : HttpRequest → String
bearer r =
    if starts_with r.authorization "Bearer "
    then String.slice r.authorization 7 (String.len r.authorization)
    else ""

-- `timingSafeEqual` on buffers of one length: whether the texts are the same.
abbrev pub safe_equal : (a b : String) → Bool
safe_equal a b = a == b

abbrev pub max_body : ℕ
max_body = 4096

-- The loop over the chunks: whether it comes to the end.
unfoldable pub fits : (size : ℕ) → List ℕ → Bool
fits size [] = true
fits size (chunk ∷ chunks) =
    let rest = fits (size + chunk) chunks in if ltb max_body (size + chunk) then false else rest

parsed : Option (Option Json) → H (Option Json)
unfolding pure throw
parsed none = throw (http_error 400 "bad_json")
parsed (some json) = pure json

unfoldable pub read_json : Body → H (Option Json)
unfolding pure throw parsed
read_json b =
    if not b.is_json
    then throw (http_error 415 "json_required")
    else if not (fits 0 b.chunks)
    then throw (http_error 413 "too_large")
    else parsed b.json
