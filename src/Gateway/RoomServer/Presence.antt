-- ===== src/Gateway/RoomServer/Presence.antt =====
-- gateway/room-server.ts: `heartbeat`, `refreshPresence` and `stop`.
use the_room_backend.Base.{ℕ, true, map, eqb, if◌then◌else◌}
use the_room_backend.Protocol.{presence, restart}
use the_room_backend.Store.Memory.{report_presence, remove_presence, total_presence}
use the_room_backend.Gateway.Connection.Transport.{heartbeat, close_with, terminated}
use the_room_backend.Gateway.RoomServer.State.{RoomServer}
use the_room_backend.Gateway.RoomServer.Fanout.{broadcast_local}

abbrev pub presence_stale_ms : ℕ
presence_stale_ms = 20000

unfoldable pub heartbeat_all : RoomServer → RoomServer
heartbeat_all s = record s { conns = map (heartbeat s.srv.now) s.conns }

-- The instance reports what it has; a total that is new to it is told to everybody here.
unfoldable pub refresh_presence : RoomServer → RoomServer
refresh_presence s =
    let reported = report_presence s.srv.instance_id s.srv.joined_count s.srv.now s.srv.store in
    let (total, store) = total_presence s.srv.now presence_stale_ms reported in
    let s' = record s { srv = record s.srv { store = store } } in
    if eqb total s.srv.online
    then s'
    else broadcast_local (presence total) (record s' { srv = record s'.srv { online = total } })

-- `stop`: no more admissions, the instance leaves the presence, and each socket is closed and, after
-- the drain, cut.
unfoldable pub stop : RoomServer → RoomServer
stop s = if s.shutting_down then s else record s {
  shutting_down = true;
  srv = record s.srv { store = remove_presence s.srv.instance_id s.srv.store };
  conns = map (λ c. terminated (close_with restart c)) s.conns;
}
