-- ===== src/Examples/Served.antt =====
-- The theorems on messaging/validate.ts and gateway/room-server.ts at concrete values.
use the_room_backend.Base.{List}
use the_room_backend.Base.{◌≡◌, refl, true, false, none, some, [], ◌∷◌, arith, is_some}
use the_room_backend.Base.Text.{decimal}
use the_room_backend.Base.Dict.{lookup}
use the_room_backend.Messaging.Validate.{
  TextLimits, normalize_text, is_control, is_invisible, is_surrogate, is_space,
}
use the_room_backend.Messaging.Validate.Accepted.{IsAcceptable, normalize_text-IsAcceptable}
use the_room_backend.Store.Memory.{empty, hit, block_ttl}
use the_room_backend.Gateway.RoomServer.State.{Posted, RoomServer, accept, on_closed}
use the_room_backend.Gateway.RoomServer.Counting.{IsCounted, counting-IsCounted}
use the_room_backend.Gateway.RoomServer.Fanout.{flush_outbox, in_room}
use the_room_backend.Gateway.RoomServer.Delivery.{received, flush_outbox-received}
use the_room_backend.Gateway.Connection.Frames.{bare_connection, new_connection}
use the_room_backend.Protocol.{ChatMessage}
use the_room_backend.Gateway.RoomServer.Admission.{
  Request, no_faults, admit, admit_info, check_local, check_store, count_attempt, refuse_flood,
  answer_of, admit_by, admits,
}
use the_room_backend.Gateway.RoomServer.Handshakes.{Door}
use the_room_backend.Gateway.RoomServer.Backoff.{check_store-flood}
use the_room_backend.Examples.Connected.{ascii, server, visitor, joined_world}

abbrev limits : TextLimits
limits = record { max_length = 500; max_lines = 12 }

normalize_text-IsAcceptable_example : IsAcceptable ascii limits (104 ∷ 105 ∷ [])
unfolding normalize_text is_control is_invisible is_surrogate is_space
normalize_text-IsAcceptable_example =
    normalize_text-IsAcceptable ascii limits (104 ∷ 0 ∷ 105 ∷ 32 ∷ []) (104 ∷ 105 ∷ []) refl

abbrev pub new_server : RoomServer
new_server = record {
  srv = server;
  limits = record {
    max_connections = 100;
    max_connections_per_ip = 5;
    connect_attempts_per_min = 0;
    expose_country = false;
    trust_proxy = false;
  };
  shutting_down = false;
  conns = [];
  per_network = [];
  outbox = [];
  flush_scheduled = false;
}

abbrev generous : RoomServer
generous = record new_server { limits = record new_server.limits { connect_attempts_per_min = 60 } }

abbrev hello_message : ChatMessage
hello_message = record { id = "m1"; author = "Calm Otter"; text = 104 ∷ []; ts = 5; country = none }

abbrev other_message : ChatMessage
other_message = record { id = "m2"; author = "Bold Wren"; text = 105 ∷ []; ts = 6; country = none }

abbrev request : Request
request = record {
  origin = some "https://room.example";
  origin_allowed = true;
  net = visitor.net;
  automated_ua = false;
  edge_country = none;
}

admitted : (admit no_faults request generous generous).0 ≡ admits (admit_info request generous)
unfolding admit admit_by check_local check_store count_attempt answer_of lookup hit block_ttl
    decimal
admitted = refl

abbrev at_the_door : Door
at_the_door = record { server = generous; waiting = request ∷ [] }

-- Two requests at once: the first enters while the second waits.
abbrev one_inside : Door
one_inside =
    let (a, s) = admit_by no_faults request none generous in
    record { server = accept "k1" (admit_info request generous) s; waiting = request ∷ [] }

check_store-flood_example :
    is_some
      (check_store no_faults 1500 0 visitor.net
        (check_store no_faults 1000 0 visitor.net empty).1).0
    ≡ true
unfolding check_store count_attempt refuse_flood lookup hit block_ttl decimal
check_store-flood_example = check_store-flood 1000 1500 0 visitor.net empty refl (omega arith)

abbrev posted : List Posted
posted =
    record { room_id = "1970-01-01"; message = hello_message; exclude = some "k1" }
    ∷ record { room_id = "1970-01-01"; message = other_message; exclude = some "k2" }
    ∷ record { room_id = "1969-12-31"; message = hello_message; exclude = some "k3" }
    ∷ []

abbrev busy : RoomServer
busy = record new_server { conns = joined_world.conn ∷ []; outbox = posted }

-- The sender of one of two messages receives the other.
flush_outbox-received_example :
    (received (flush_outbox busy).conns ≡ (other_message ∷ []) ∷ [])
    × ((flush_outbox busy).outbox ≡ [])
unfolding in_room bare_connection
flush_outbox-received_example = flush_outbox-received busy

abbrev pub crowded : RoomServer
crowded = accept "k1" visitor new_server

nobody-IsCounted : IsCounted new_server
unfolding lookup
nobody-IsCounted = record { distinct = tt; counted = λ hash. refl }

pub crowded-IsCounted : IsCounted crowded
crowded-IsCounted = (counting-IsCounted new_server "k1" "k1" visitor nobody-IsCounted refl).0

counting-IsCounted_example :
    IsCounted (accept "k2" visitor crowded) × IsCounted (on_closed "k1" crowded)
unfolding accept new_connection bare_connection
counting-IsCounted_example = counting-IsCounted crowded "k2" "k1" visitor crowded-IsCounted refl
