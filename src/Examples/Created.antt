-- ===== src/Examples/Created.antt =====
-- The theorem on the ten names of identity/sessions.ts, where the first two are taken.
use the_room_backend.Base.{◌≡◌, refl, true, false, none, [], ◌∷◌, String, arith}
use the_room_backend.Base.Dict.{lookup}
use the_room_backend.Base.Text.{decimal}
use the_room_backend.Store.{SessionRecord}
use the_room_backend.Store.Memory.{text, name_key, empty}
use the_room_backend.Gateway.World.{Server, World, quiet, returns}
use the_room_backend.Gateway.Connection.Frames.{bare_connection}
use the_room_backend.Identity.Names.{generate_public_name}
use the_room_backend.Identity.Sessions.{NewSessionInput, create}
use the_room_backend.Identity.Steady.{IsWorking}
use the_room_backend.Identity.Creating.{name_at, IsFree, create_returns}
use the_room_backend.Examples.Connected.{server, visitor}

-- A server whose draws give their number.
abbrev drawing : Server
drawing = record server {
  platform = record server.platform { random_int = λ n bound. n };
  store = record empty {
    kv =
        (name_key server.room.room_id "MoonPanda_1003", record { v = text "s1"; exp = 86400000 })
        ∷ (name_key server.room.room_id "AmberKoala_1006", record { v = text "s2"; exp = 86400000 })
        ∷ [];
  };
}

abbrev crowded : World
crowded = record {
  conn = bare_connection "k1" visitor 100000;
  srv = drawing;
  turns = quiet ∷ record { fails = false; elapsed = 40; new_room = none; hangs_up = true } ∷ [];
}

abbrev input : NewSessionInput
input = record {
  ip_hash = "d";
  country = none;
  now = 100000;
  suspicion = 0;
  challenge_pending = false;
}

third-IsFree : IsFree server.room (name_at drawing.platform 7) drawing.store
unfolding IsFree name_at generate_public_name decimal lookup
third-IsFree = refl

crowded_unsaved : crowded.conn.rec ≡ none
unfolding bare_connection
crowded_unsaved = refl

create_returns_example :
    (made : SessionRecord × String) × ((create server.room input crowded).0 ≡ returns made)
unfolding IsWorking
create_returns_example =
    create_returns crowded server.room input 2 (omega arith) crowded_unsaved (refl, (refl, tt))
      third-IsFree
