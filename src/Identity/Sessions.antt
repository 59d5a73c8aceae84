-- ===== src/Identity/Sessions.antt =====
-- identity/sessions.ts: the sessions of a day, created and resumed through the shared store.
use the_room_backend.Base.{
  ℕ, zero, suc, Bool, ◌||◌, Option, none, some, String, ◌==◌, ltb, if◌then◌else◌,
}
use the_room_backend.Room.Day.{DailyRoom}
use the_room_backend.Store.{SessionRecord}
use the_room_backend.Store.Memory.{
  claim_name, save_session, set_resume, get_session, resolve_resume,
}
use the_room_backend.Identity.Names.{generate_public_name}
use the_room_backend.Gateway.World.{M, ◌>>=◌, ◌>>◌, pure, throw, world, draw}
use the_room_backend.Gateway.Connection.Waiting.{await_store, no_result}
use Prim.Native.String.{count}

pub record NewSessionInput : Type 0 where
  pub ip_hash : String
  pub country : Option String
  pub now : ℕ
  pub suspicion : ℕ
  pub challenge_pending : Bool

-- A call of the store whose failure is not caught.
abbrev pub or_throw : {A : Type 0} → Option A → M A
or_throw none = throw
or_throw (some a) = pure a

unfoldable pub draw_name : M String
draw_name = do
  w ← world
  adj ← draw
  animal ← draw
  number ← draw
  pure (
      generate_public_name (w.srv.platform.random_int adj 67) (w.srv.platform.random_int animal 69)
        (w.srv.platform.random_int number 9000))

-- The loop of `create`: up to ten candidates, until one is free.
unfoldable pub claim_loop : (tries : ℕ) → DailyRoom → (sid : String) → M (Option String)
claim_loop zero room sid = pure none
claim_loop (suc tries) room sid = do
  candidate ← draw_name
  answer ← await_store (λ now. claim_name now room.room_id candidate sid room.ends_at)
  claimed ← or_throw answer
  let again = claim_loop tries room sid
  if claimed then pure (some candidate) else again

abbrev pub new_record : DailyRoom → NewSessionInput → (sid name : String) → SessionRecord
new_record room input sid name = record {
  sid = sid;
  room_id = room.room_id;
  name = name;
  country = input.country;
  ip_hash = input.ip_hash;
  created_at = input.now;
  suspicion = input.suspicion;
  suspicion_at = input.now;
  challenge_pending = input.challenge_pending;
  challenge_fails = 0;
  trusted_until = 0;
  blocks = 0;
}

-- The record and the token go to the store, the token too where the record fails.
unfoldable pub open_session : DailyRoom → SessionRecord → M (SessionRecord × String)
open_session room rec = do
  w ← world
  n ← draw
  let token = w.srv.platform.new_resume_token n
  saved ← await_store (no_result λ now. save_session rec room.ends_at)
  kept ←
      await_store
        (no_result λ now. set_resume (w.srv.platform.hash_token token) rec.sid room.ends_at)
  or_throw saved
  or_throw kept
  pure (rec, token)

unfoldable pub create : DailyRoom → NewSessionInput → M (SessionRecord × String)
create room input = do
  w ← world
  n ← draw
  let sid = w.srv.platform.new_session_id n
  found ← claim_loop 10 room sid
  name ← or_throw found
  open_session room (new_record room input sid name)

-- The session that the store has under an id, if it belongs to the room.
unfoldable pub belonging_to : DailyRoom → Option SessionRecord → Option SessionRecord
belonging_to room none = none
belonging_to room (some rec) = if rec.room_id == room.room_id then some rec else none

unfoldable pub resume_sid : DailyRoom → Option String → M (Option SessionRecord)
resume_sid room none = pure none
resume_sid room (some sid) =
    let look = (do
      answer ← await_store (λ now. get_session now sid)
      rec ← or_throw answer
      pure (belonging_to room rec)) in
    if sid == "" then pure none else look

unfoldable pub resume : DailyRoom → (token : String) → M (Option SessionRecord)
resume room token = do
  w ← world
  let look = (do
    answer ← await_store (λ now. resolve_resume now (w.srv.platform.hash_token token))
    sid ← or_throw answer
    resume_sid room sid)
  if token == "" || ltb 128 (count token) then pure none else look
