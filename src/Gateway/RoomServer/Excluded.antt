-- ===== src/Gateway/RoomServer/Excluded.antt =====
-- gateway/connection.ts: a session that is blocked does not enter the room.
use the_room_backend.Base.{
  ℕ, ◌<◌, ◌≡◌, ◌∙◌, Bool, false, Option, some, String, lt→ltb, arith, Bool-cases, Option-cases, inl,
  inr,
}
use the_room_backend.Base.Text.{◌^^◌}
use the_room_backend.Protocol.{ServerEvent, CloseCode}
use the_room_backend.Store.{SessionRecord}
use the_room_backend.Store.Memory.{block_ttl}
use the_room_backend.Gateway.World.{Connection, World, Turn, ◌>>=◌, world, on_conn}
use the_room_backend.Gateway.Connection.Transport.{send, close, send_raw_to, close_with, is_open}
use the_room_backend.Gateway.Connection.Enforcement.{blocked}
use the_room_backend.Gateway.Connection.Waiting.{
  await_store, next_turn, pass_turn, on_close, persist_now, persist_rec,
}
use the_room_backend.Gateway.Connection.Join.{admit_session}
use the_room_backend.Gateway.RoomServer.Cutting.{close_with-closed}

send_raw_to-joined :
    (frame : ServerEvent) (c : Connection) → (send_raw_to frame c).1.joined ≡ c.joined
unfolding send_raw_to
send_raw_to-joined frame c = ground arith

close_with-joined : (code : CloseCode) (c : Connection) → (close_with code c).joined ≡ c.joined
unfolding close_with
close_with-joined code c = ground arith

persist_now-joined : (fails : Bool) (w : World) → (persist_now fails w).conn.joined ≡ w.conn.joined
unfolding persist_now persist_rec
persist_now-joined fails w = elim (Option-cases w.conn.rec) [
  | inl h ↦ rw h
  | inr (rec, h) ↦ ground (arith, h)
]

on_close-joined : (w : World) → (on_close w).conn.joined ≡ w.conn.joined
unfolding on_close
on_close-joined w = elim (Bool-cases w.conn.closed) [
  | inl h ↦ rw h
  | inr h ↦ rw h (persist_now-joined false _)
]

pass_turn-joined : (t : Turn) (w : World) → (pass_turn t w).conn.joined ≡ w.conn.joined
unfolding pass_turn
pass_turn-joined t w = elim (Bool-cases t.hangs_up) [
  | inl h ↦ rw h (on_close-joined _)
  | inr h ↦ rw h
]

blocked-joined :
    (ttl : ℕ) (w : World)
    → ((blocked ttl w).1.conn.joined ≡ w.conn.joined)
      × (is_open (blocked ttl w).1.conn.ws.ready_state ≡ false)
unfolding blocked ◌>>=◌ send close on_conn world
blocked-joined ttl w = (close_with-joined _ _ ∙ send_raw_to-joined _ _, close_with-closed _ _)

-- A session under a block does not join, and its socket is closed, where the store answers.
pub admit_session-blocked :
    (now : ℕ) (rec : SessionRecord) (token : String) (verification : Option String) (w : World)
    → w.conn.closed ≡ false
    → (next_turn w.turns).0.fails ≡ false
    → 0 < block_ttl w.srv.now ("sess:" ^^ rec.sid) w.srv.store
    → let w' = (admit_session now (some (rec, token)) verification w).1 in
      (w'.conn.joined ≡ w.conn.joined) × (is_open w'.conn.ws.ready_state ≡ false)
unfolding admit_session ◌>>=◌ world await_store
admit_session-blocked now rec token verification w present answers held =
    rw (present, answers, lt→ltb 0 (block_ttl w.srv.now ("sess:" ^^ rec.sid) w.srv.store) held)
      ((blocked-joined _ _).0 ∙ pass_turn-joined _ _, (blocked-joined _ _).1)
