-- ===== src/Gateway/Connection/Life.antt =====
-- The life of a connection of gateway/connection.ts: what can happen to it between two waits.
use the_room_backend.Base.{ℕ, Bool, Option, List, String}
use the_room_backend.Protocol.{ClientEvent, ServerEvent, CloseCode}
use the_room_backend.Room.Day.{DailyRoom}
use the_room_backend.Gateway.World.{AdmitInfo, Server, Turn, World}
use the_room_backend.Gateway.Connection.Transport.{heartbeat, send, close, terminate}
use the_room_backend.Gateway.Connection.Waiting.{on_close}
use the_room_backend.Gateway.Connection.Join.{rollover, verified}
use the_room_backend.Gateway.Connection.Enforcement.{blocked}
use the_room_backend.Gateway.Connection.Frames.{
  new_connection, join_timeout, persist_timeout, on_frame, run_queue, on_pong,
}

-- One event, handled to its end. What others do meanwhile is in the turns of the world; an event of
-- the connection itself that comes meanwhile counts as coming before it or after it.
pub data Step : World → World → Type 0 where
  receives :
      (w : World) (data_frame : Option (Option ClientEvent)) → Step w (on_frame data_frame w).1
  handles : (w : World) → Step w (run_queue w)
  answers_ping : (w : World) → Step w (on_pong w).1
  joins_late : (w : World) → Step w (join_timeout w).1
  persists : (w : World) → Step w (persist_timeout w).1
  rolls : (w : World) (next : DailyRoom) → Step w (rollover next w).1
  beats : (w : World) → Step w (record w { conn = heartbeat w.srv.now w.conn })
  closes : (w : World) → Step w (on_close w)
  -- The verifier's answer to the verification of `join`, and a kick.
  verifies : (w : World) (ok : Bool) → Step w (verified ok w).1
  kicked : (w : World) (ttl_ms : ℕ) → Step w (blocked ttl_ms w).1
  -- What the server writes, and that it closes or cuts the socket.
  is_sent : (w : World) (evt : ServerEvent) → Step w (send evt w).1
  is_shut : (w : World) (code : CloseCode) → Step w (close code w).1
  is_cut : (w : World) → Step w (terminate w).1
  idles :
      (w : World) (srv : Server) (turns : List Turn)
      → Step w (record w { srv = srv; turns = turns })

-- The worlds that a connection can be in between two events, from the upgrade on.
pub data Reachable (key : String) (info : AdmitInfo) : World → Type 0 where
  opened :
      (srv : Server) (turns : List Turn)
      → Reachable key info (record {
        conn = new_connection srv.platform.decay key info srv.now;
        srv = srv;
        turns = turns;
      })
  steps : {w w' : World} → Reachable key info w → Step w w' → Reachable key info w'
