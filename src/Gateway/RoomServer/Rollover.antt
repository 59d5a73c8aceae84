-- ===== src/Gateway/RoomServer/Rollover.antt =====
-- gateway/room-server.ts: `recomputeRoom`, `checkRoom` and `rollover`. The turns of a connection's
-- rollover are its own: a list for each connection.
use the_room_backend.Base.{
  ℕ, Bool, false, ◌||◌, List, [], ◌∷◌, String, ◌==◌, eqb, if◌then◌else◌, length, keep, map,
}
use the_room_backend.Base.Text.{◌^^◌}
use the_room_backend.Protocol.{CloseCode}
use the_room_backend.Room.Day.{DailyRoom}
use the_room_backend.Store.{str}
use the_room_backend.Store.Memory.{MemoryStore, acquire_once, delete_room, add_abuse_event}
use the_room_backend.Gateway.World.{Connection, Turn, World, Outcome, returns, throws}
use the_room_backend.Gateway.Connection.Transport.{close_with}
use the_room_backend.Gateway.Connection.Join.{rollover}
use the_room_backend.Gateway.Connection.Sending.{room_of, check_room}
use the_room_backend.Gateway.RoomServer.State.{RoomServer, run_on}

-- Before the start only: nobody is connected.
unfoldable pub recompute_room : RoomServer → RoomServer
recompute_room s =
    if eqb (length s.conns) 0
    then record s { srv = record s.srv { room = room_of s.srv s.srv.now } }
    else s

-- Exactly one instance deletes yesterday's history.
unfoldable pub clean_up : (now : ℕ) → (previous next : String) → MemoryStore → MemoryStore
clean_up now previous next store =
    let (first, store') = acquire_once now ("reset:" ^^ previous) 3600000 store in
    if first
    then add_abuse_event now
        (("type", str "room_reset") ∷ ("from", str previous) ∷ ("to", str next) ∷ []) 604800000
        (delete_room previous store')
    else store'

-- A connection whose rollover throws is closed, so that it joins again.
unfoldable pub close_failed : Outcome (Unit {0}) × World → World
close_failed (returns a, w) = w
close_failed (throws, w) = record w { conn = close_with CloseCode.try_later w.conn }

unfoldable pub roll_one : DailyRoom → World → World
roll_one next w = close_failed (rollover next w)

-- Each live connection in turn. The batches of the source only space them out.
unfoldable pub roll_each :
    DailyRoom → (turns_of : String → List Turn) → List String → RoomServer → RoomServer
roll_each next turns_of [] s = s
roll_each next turns_of (key ∷ keys) s =
    roll_each next turns_of keys (run_on (roll_one next) (turns_of key) key s)

abbrev pub live_keys : List Connection → List String
live_keys cs = map (λ c. c.key) (keep (λ c. c.joined) cs)

-- What follows the switch of the room: the clean-up, and an identity for each live connection.
-- `fails` says that the clean-up's store call fails; the entries' own expiry is then left.
unfoldable pub finish_rollover :
    (fails : Bool) → (turns_of : String → List Turn) → (previous : String) → RoomServer → RoomServer
finish_rollover fails turns_of previous s =
    let next = s.srv.room in
    let store =
      if fails then s.srv.store else clean_up s.srv.now previous next.room_id s.srv.store in
    let s' =
      roll_each next turns_of (live_keys s.conns)
        (record s { srv = record s.srv { store = store } }) in
    record s' { srv = record s'.srv { rolling = false } }

-- The check of every second, to the end of the rollover that it may start.
unfoldable pub check_room_all :
    (fails : Bool) → (turns_of : String → List Turn) → RoomServer → RoomServer
check_room_all fails turns_of s =
    if s.srv.rolling || (room_of s.srv s.srv.now).room_id == s.srv.room.room_id
    then s
    else finish_rollover fails turns_of s.srv.room.room_id (record s { srv = check_room s.srv })
