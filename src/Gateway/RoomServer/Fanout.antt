-- ===== src/Gateway/RoomServer/Fanout.antt =====
-- gateway/room-server.ts: `onBus`, `flushOutbox` and `broadcastLocal`.
use the_room_backend.Base.{
  Bool, true, false, not, ◌&&◌, Option, none, some, List, [], ◌∷◌, ◌++◌, map, String, ◌==◌,
  if◌then◌else◌, keep, any,
}
use the_room_backend.Protocol.{ChatMessage, ServerEvent, message, messages}
use the_room_backend.Store.{SessionRecord, BusEvent}
use the_room_backend.Gateway.World.{Connection}
use the_room_backend.Gateway.Connection.Transport.{send_raw_to}
use the_room_backend.Gateway.Connection.Enforcement.{blocked}
use the_room_backend.Gateway.RoomServer.State.{RoomServer, Posted, run_on, effect}

abbrev pub same : Option String → String → Bool
same none k = false
same (some j) k = j == k

abbrev pub sid_of : Option SessionRecord → Option String
sid_of none = none
sid_of (some rec) = some rec.sid

-- Every connection of the session is told and cut off.
unfoldable pub kick_all : (sid : String) → List Connection → RoomServer → RoomServer
kick_all sid [] s = s
kick_all sid (c ∷ cs) s =
    kick_all sid cs
      (if same (sid_of c.rec) sid then run_on (effect (blocked 60000)) [] c.key s else s)

unfoldable pub on_bus : BusEvent → RoomServer → RoomServer
on_bus (BusEvent.message origin room_id m exclude) s =
    if not (room_id == s.srv.room.room_id) then s else record s {
      outbox = s.outbox ++ record { room_id = room_id; message = m; exclude = exclude } ∷ [];
      flush_scheduled = true;
    }
on_bus (BusEvent.kick origin sid reason) s = kick_all sid s.conns s

abbrev pub texts : List Posted → List ChatMessage
texts ps = map (λ p. p.message) ps

-- One message goes as it is, several in one frame.
unfoldable pub encode : List ChatMessage → ServerEvent
encode (m ∷ []) = message m
encode ms = messages ms

-- The batch without the receiver's own messages; none where nothing is left.
unfoldable pub variant : (key : String) → List Posted → Option ServerEvent
variant key batch = elim (keep (λ p. not (same p.exclude key)) batch) [
  | [] ↦ none
  | p ∷ ps ↦ some (encode (texts (p ∷ ps)))
]

unfoldable pub frame_for : (key : String) → List Posted → Option ServerEvent
frame_for key batch =
    if any (λ p. same p.exclude key) batch then variant key batch else some (encode (texts batch))

unfoldable pub in_room : (room_id : String) → Option SessionRecord → Bool
in_room room_id none = false
in_room room_id (some rec) = rec.room_id == room_id

unfoldable pub send_frame : Option ServerEvent → Connection → Connection
send_frame none c = c
send_frame (some frame) c = (send_raw_to frame c).1

unfoldable pub deliver_to : (room_id : String) → List Posted → Connection → Connection
deliver_to room_id batch c =
    if c.joined && in_room room_id c.rec then send_frame (frame_for c.key batch) c else c

-- Nothing is sent where nothing is left of the batch.
unfoldable pub flush_batch : List Posted → RoomServer → RoomServer
flush_batch [] s = record s { flush_scheduled = false; outbox = [] }
flush_batch (p ∷ ps) s = record s {
  flush_scheduled = false;
  outbox = [];
  conns = map (deliver_to s.srv.room.room_id (p ∷ ps)) s.conns;
}

-- The events of another room than the present one are dropped here too.
unfoldable pub flush_outbox : RoomServer → RoomServer
flush_outbox s = flush_batch (keep (λ p. p.room_id == s.srv.room.room_id) s.outbox) s

unfoldable pub broadcast_local : ServerEvent → RoomServer → RoomServer
broadcast_local evt s = record s {
  conns = map (λ c. if c.joined then (send_raw_to evt c).1 else c) s.conns;
}
