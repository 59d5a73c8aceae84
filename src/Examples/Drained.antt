-- ===== src/Examples/Drained.antt =====
-- The theorem on the queue of gateway/connection.ts where three frames wait.
use the_room_backend.Base.{none, some, [], ◌∷◌}
use the_room_backend.Protocol.{ClientEvent}
use the_room_backend.Gateway.World.{World, quiet}
use the_room_backend.Gateway.Connection.Frames.{new_connection, on_frame}
use the_room_backend.Examples.Connected.{server, visitor}

abbrev waiting : World
waiting =
    let w0 : World = record {
      conn = new_connection server.platform.decay "k1" visitor server.now;
      srv = server;
      turns = quiet ∷ [];
    } in
    (on_frame (some (some (ClientEvent.ping 2)))
      (on_frame (some none) (on_frame (some (some (ClientEvent.ping 1))) w0).1).1).1
