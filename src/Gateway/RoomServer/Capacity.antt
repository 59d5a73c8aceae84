-- ===== src/Gateway/RoomServer/Capacity.antt =====
-- gateway/room-server.ts: how many connections the limits of `admit` let in.
use the_room_backend.Base.{◌≤◌, String, length}
use the_room_backend.Gateway.RoomServer.State.{RoomServer, network_count}
use the_room_backend.Gateway.RoomServer.Admission.{Admission}

-- No more connections than the limits allow, in all and of one network.
pub record IsWithinLimits (s : RoomServer) : Type 0 where
  pub all_of_them : length s.conns ≤ s.limits.max_connections
  pub of_network : (hash : String) → network_count hash s ≤ s.limits.max_connections_per_ip
