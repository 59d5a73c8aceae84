-- ===== src/Gateway/Answers/Rooms.antt =====
-- The rooms that the server is in while `decide` of gateway/connection.ts waits: what holds of the
-- present room and of those that the turns bring holds of the room at each later moment.
use the_room_backend.Base.{
  ℕ, ◌+◌, Bool, true, false, Option, none, some, List, [], ◌∷◌, String, ◌==◌, All, Bool-cases, inl,
  inr, or_else, if◌then◌else◌,
}
use the_room_backend.Protocol.{ServerEvent, CloseCode, Provider}
use the_room_backend.Abuse.Suspicion.{Signal}
use the_room_backend.Room.Day.{DailyRoom}
use the_room_backend.Store.{SessionRecord}
use the_room_backend.Store.Memory.{MemoryStore, save_session}
use the_room_backend.Identity.Sessions.{or_throw}
use the_room_backend.Gateway.World.{Connection, Turn, World, draw, on_conn}
use the_room_backend.Gateway.Keeps.{Keeps, Keeps-on_conn, keeps_rules}
use the_room_backend.Gateway.Connection.Transport.{send, close}
use the_room_backend.Gateway.Connection.Scoring.{signal}
use the_room_backend.Gateway.Connection.Waiting.{
  next_turn, with_snapshot, persist_rec, persist_now, on_close, pass_turn, await_store, persist,
  wait, store_later,
}
use the_room_backend.Gateway.Connection.Join.{count_hit}
use the_room_backend.Gateway.Connection.Enforcement.{
  the_rec, send_challenge_by, send_challenge, start_challenge, blocked, block_network, temp_block,
  escalate,
}
use the_room_backend.Gateway.Connection.Sending.{cross_duplicate, behave}

unfoldable pub OfRoom : (DailyRoom → Type 0) → Option DailyRoom → Type 0
OfRoom R none = Unit {0}
OfRoom R (some room) = R room

-- The present room has the property, and so has each room that comes.
pub record InRooms (R : DailyRoom → Type 0) (w : World) : Type 0 where
  pub present : R w.srv.room
  pub coming : All (λ (t : Turn). OfRoom R t.new_room) w.turns

module _ (R : DailyRoom → Type 0) where
  next_turn-OfRoom :
      (ts : List Turn)
      → All (λ (t : Turn). OfRoom R t.new_room) ts
      → OfRoom R (next_turn ts).0.new_room
        × All (λ (t : Turn). OfRoom R t.new_room) (next_turn ts).1
  unfolding OfRoom
  next_turn-OfRoom [] h = (tt, tt)
  next_turn-OfRoom (t ∷ ts) h = h

  moved : (o : Option DailyRoom) (room : DailyRoom) → OfRoom R o → R room → R (or_else o room)
  unfolding OfRoom
  moved none room o h = h
  moved (some next) room o h = o

  of_two : (P : World → Type 0) (b : Bool) (v w : World) → P v → P w → P (if b then v else w)
  of_two P true v w hv hw = hv
  of_two P false v w hv hw = hw

  persist_rec-InRooms :
      (fails : Bool) (rec : Option SessionRecord) (w : World)
      → InRooms R w
      → InRooms R (persist_rec fails rec w)
  unfolding persist_rec
  persist_rec-InRooms fails none w h = h
  persist_rec-InRooms fails (some rec) w h =
      let rec' = with_snapshot w.srv w.conn rec in
      let kept = if fails then w.srv.store else save_session rec' w.srv.room.ends_at w.srv.store in
      of_two (InRooms R) (rec.room_id == w.srv.room.room_id)
        (record w { conn = record w.conn { rec = some rec' }; srv = record w.srv { store = kept } })
        w (record { present = h.present; coming = h.coming }) h

  on_close-InRooms : (w : World) → InRooms R w → InRooms R (on_close w)
  unfolding on_close persist_now
  on_close-InRooms w h =
      let saved =
        persist_rec-InRooms false w.conn.rec _
          (record { present = h.present; coming = h.coming }) in
      of_two (InRooms R) w.conn.closed w _ h
        (record { present = saved.present; coming = saved.coming })

  pass_turn-InRooms :
      (t : Turn) (w : World) → OfRoom R t.new_room → InRooms R w → InRooms R (pass_turn t w)
  unfolding pass_turn
  pass_turn-InRooms t w o h =
      let there : InRooms R (record w {
        srv = record w.srv { now = w.srv.now + t.elapsed; room = or_else t.new_room w.srv.room };
      }) =
        record { present = moved t.new_room w.srv.room o h.present; coming = h.coming } in
      of_two (InRooms R) t.hangs_up _ _ (on_close-InRooms _ there) there

  pub await_store-InRooms :
      {A : Type 0} (op : ℕ → MemoryStore → A × MemoryStore) → Keeps (InRooms R) (await_store op)
  unfolding await_store
  await_store-InRooms op = record {
    at = λ w h.
        let (o, later) = next_turn-OfRoom w.turns h.coming in
        elim (Bool-cases (next_turn w.turns).0.fails) [
          | inl e ↦ rw e (pass_turn-InRooms _ _ o (record { present = h.present; coming = later }))
          | inr e ↦ rw e (pass_turn-InRooms _ _ o (record { present = h.present; coming = later }))
        ];
  }

  persist-InRooms : Keeps (InRooms R) persist
  unfolding persist persist_now
  persist-InRooms = record {
    at = λ w h.
        let (o, later) = next_turn-OfRoom w.turns h.coming in
        pass_turn-InRooms _ _ o
          (persist_rec-InRooms _ w.conn.rec _ (record { present = h.present; coming = later }));
  }

  wait-InRooms : Keeps (InRooms R) wait
  unfolding wait
  wait-InRooms = record {
    at = λ w h.
        let (o, later) = next_turn-OfRoom w.turns h.coming in
        pass_turn-InRooms _ _ o (record { present = h.present; coming = later });
  }

  store_later-InRooms : (op : ℕ → MemoryStore → MemoryStore) → Keeps (InRooms R) (store_later op)
  unfolding store_later
  store_later-InRooms op = record { at = λ w h. record { present = h.present; coming = h.coming } }

  pub draw-InRooms : Keeps (InRooms R) draw
  unfolding draw
  draw-InRooms = record { at = λ w h. record { present = h.present; coming = h.coming } }

  pub on_conn-InRooms : (f : Connection → Connection) → Keeps (InRooms R) (on_conn f)
  on_conn-InRooms f = Keeps-on_conn f (λ w h. record { present = h.present; coming = h.coming })

  send-InRooms : (evt : ServerEvent) → Keeps (InRooms R) (send evt)
  unfolding send
  send-InRooms evt = on_conn-InRooms _

  close-InRooms : (code : CloseCode) → Keeps (InRooms R) (close code)
  unfolding close
  close-InRooms code = on_conn-InRooms _

  or_throw-InRooms : {A : Type 0} (o : Option A) → Keeps (InRooms R) (or_throw o)
  or_throw-InRooms none = search keeps_rules
  or_throw-InRooms (some a) = search keeps_rules

  the_rec-InRooms : Keeps (InRooms R) the_rec
  the_rec-InRooms = record { at = λ w h. (or_throw-InRooms w.conn.rec).at w h }

ruleset in_rooms = (
  keeps_rules, await_store-InRooms, persist-InRooms, wait-InRooms, store_later-InRooms,
  draw-InRooms, on_conn-InRooms, send-InRooms, close-InRooms, the_rec-InRooms,
)

module _ (R : DailyRoom → Type 0) where
  pub signal-InRooms : (g : Signal) → Keeps (InRooms R) (signal g)
  unfolding signal
  signal-InRooms g = search in_rooms depth 24

  send_challenge_by-InRooms :
      (force : Bool) (p : Option Provider) → Keeps (InRooms R) (send_challenge_by force p)
  unfolding send_challenge_by
  send_challenge_by-InRooms force none = search in_rooms depth 24
  send_challenge_by-InRooms force (some p) = search in_rooms depth 24

  pub send_challenge-InRooms : (force : Bool) → Keeps (InRooms R) (send_challenge force)
  unfolding send_challenge
  send_challenge-InRooms force = search (in_rooms, send_challenge_by-InRooms) depth 24

  start_challenge-InRooms : (score : ℕ) → Keeps (InRooms R) (start_challenge score)
  unfolding start_challenge
  start_challenge-InRooms score = search (in_rooms, send_challenge-InRooms) depth 24

  blocked-InRooms : (ttl_ms : ℕ) → Keeps (InRooms R) (blocked ttl_ms)
  unfolding blocked
  blocked-InRooms ttl_ms = search in_rooms depth 24

  block_network-InRooms :
      (blocks score : ℕ) (reason : String) → Keeps (InRooms R) (block_network blocks score reason)
  unfolding block_network
  block_network-InRooms blocks score reason = search in_rooms depth 24

  temp_block-InRooms : (reason : String) → Keeps (InRooms R) (temp_block reason)
  unfolding temp_block
  temp_block-InRooms reason = search (in_rooms, blocked-InRooms, block_network-InRooms) depth 24

  pub escalate-InRooms : (now : ℕ) → Keeps (InRooms R) (escalate now)
  unfolding escalate
  escalate-InRooms now = search (in_rooms, start_challenge-InRooms, temp_block-InRooms) depth 24

  pub count_hit-InRooms :
      (key : String) (window_ms : ℕ) → Keeps (InRooms R) (count_hit key window_ms)
  unfolding count_hit
  count_hit-InRooms key window_ms = search in_rooms depth 24

  cross_duplicate-InRooms :
      (rec : SessionRecord) (fp : List ℕ) → Keeps (InRooms R) (cross_duplicate rec fp)
  unfolding cross_duplicate
  cross_duplicate-InRooms rec fp = search (in_rooms, signal-InRooms) depth 24

  pub behave-InRooms :
      (now : ℕ) (rec : SessionRecord) (text : List ℕ) → Keeps (InRooms R) (behave now rec text)
  unfolding behave
  behave-InRooms now rec text = search (in_rooms, signal-InRooms, cross_duplicate-InRooms) depth 24
