-- ===== src/Abuse/Challenge.antt =====
-- abuse/challenge.ts: the challenge providers. The answer of the verification endpoint is an
-- argument: `none` where the request throws, otherwise `res.ok` and `data.success === true`.
use the_room_backend.Base.{
  Bool, false, ◌&&◌, ◌||◌, Option, none, some, String, ◌==◌, ltb, if◌then◌else◌,
}
use the_room_backend.Protocol.{Provider, turnstile, mock}
use Prim.Native.String.{count}

pub data Verifier : Type 0 where
  by_turnstile : (site_key : String) → (siteverify : String → Option (Bool × Bool)) → Verifier
  by_mock no_challenge : Verifier

abbrev pub provider : Verifier → Option Provider
provider (by_turnstile k f) = some turnstile
provider by_mock = some mock
provider no_challenge = none

abbrev pub site_key : Verifier → Option String
site_key (by_turnstile k f) = some k
site_key _ = none

accepted : Option (Bool × Bool) → Bool
accepted none = false
accepted (some (res_ok, success)) = res_ok && success

unfoldable pub verify : Verifier → (token : String) → Bool
unfolding accepted
verify (by_turnstile k siteverify) token =
    if token == "" || ltb 4096 (count token) then false else accepted (siteverify token)
verify by_mock token = token == "mock-human"
verify no_challenge token = false
