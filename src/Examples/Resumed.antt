-- ===== src/Examples/Resumed.antt =====
-- The theorem on identity/sessions.ts for a first visit whose socket closes meanwhile.
use the_room_backend.Base.{◌≡◌, refl, true, false, none, some, [], ◌∷◌}
use the_room_backend.Store.{SessionRecord}
use the_room_backend.Store.Memory.{claim_name, put_if_free, save_session, set_resume, get}
use the_room_backend.Base.Dict.{lookup, insert}
use the_room_backend.Base.Text.{decimal}
use the_room_backend.Gateway.World.{World, quiet, returns, ◌>>=◌, draw, pure, world}
use the_room_backend.Gateway.Connection.Frames.{new_connection, bare_connection}
use the_room_backend.Gateway.Connection.Waiting.{
  await_store, pass_turn, on_close, persist_now, persist_rec,
}
use the_room_backend.Identity.Names.{generate_public_name}
use the_room_backend.Identity.Sessions.{
  NewSessionInput, create, resume, draw_name, claim_loop, open_session,
}
use the_room_backend.Identity.Resuming.{HasTokens, at_rest, resume-create}
use the_room_backend.Examples.Connected.{server, visitor}

abbrev arriving : World
arriving = record {
  conn = new_connection server.platform.decay "k1" visitor 100000;
  srv = server;
  turns = quiet ∷ record { fails = false; elapsed = 40; new_room = none; hangs_up = true } ∷ [];
}

abbrev input : NewSessionInput
input = record {
  ip_hash = "d";
  country = none;
  now = 100000;
  suspicion = 0;
  challenge_pending = false;
}

abbrev made : SessionRecord
made = record {
  sid = "sid";
  room_id = "1970-01-01";
  name = "BlueTiger_1000";
  country = none;
  ip_hash = "d";
  created_at = 100000;
  suspicion = 0;
  suspicion_at = 100000;
  challenge_pending = false;
  challenge_fails = 0;
  trusted_until = 0;
  blocks = 0;
}

server-HasTokens : HasTokens server.platform
server-HasTokens = record {
  sid_given = λ n. refl;
  token_given = λ n. refl;
  token_short = λ n. refl;
}

arriving_unsaved : arriving.conn.rec ≡ none
unfolding new_connection bare_connection
arriving_unsaved = refl

created : (create server.room input arriving).0 ≡ returns (made, "token")
unfolding create draw_name claim_loop open_session ◌>>=◌ draw pure world await_store pass_turn
    on_close persist_now persist_rec new_connection bare_connection claim_name put_if_free get
    lookup insert save_session set_resume generate_public_name decimal
created = refl

resume-create_example :
    (resume server.room "token" (at_rest 5000 (create server.room input arriving).1)).0
    ≡ returns (some made)
resume-create_example =
    resume-create arriving server.room server.room input made "token" 5000 server-HasTokens
      arriving_unsaved created
