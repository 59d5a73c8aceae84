-- ===== src/Gateway/RoomServer/State.antt =====
-- gateway/room-server.ts: the fields of `RoomServer`, `accept`, `onClosed`, and how an event of
-- one connection runs.
use the_room_backend.Base.{
  ℕ, ◌+◌, ◌-◌, Bool, Option, none, some, List, [], ◌∷◌, ◌++◌, String, ◌==◌, leb, if◌then◌else◌,
  or_else, find, keep, not,
}
use the_room_backend.Base.Dict.{Dict, lookup, insert, delete}
use the_room_backend.Protocol.{ChatMessage}
use the_room_backend.Gateway.World.{AdmitInfo, Connection, Server, Turn, World, M}
use the_room_backend.Gateway.Connection.Waiting.{on_close}
use the_room_backend.Gateway.Connection.Frames.{new_connection}

-- A message event of the bus, as the outbox keeps it.
pub record Posted : Type 0 where
  pub room_id : String
  pub message : ChatMessage
  pub exclude : Option String

-- The settings of config.ts for admission.
pub record Limits : Type 0 where
  pub max_connections : ℕ
  pub max_connections_per_ip : ℕ
  pub connect_attempts_per_min : ℕ
  pub expose_country : Bool
  pub trust_proxy : Bool

pub record RoomServer : Type 0 where
  pub srv : Server
  pub limits : Limits
  pub shutting_down : Bool
  pub conns : List Connection
  pub per_network : Dict ℕ
  pub outbox : List Posted
  pub flush_scheduled : Bool

abbrev pub has_key : String → Connection → Bool
has_key key c = c.key == key

unfoldable pub replace : Connection → List Connection → List Connection
replace c [] = []
replace c (x ∷ xs) = if x.key == c.key then c ∷ xs else x ∷ replace c xs

-- An event of the connection with the key; nothing happens where there is none.
unfoldable pub run_at : (World → World) → List Turn → Option Connection → RoomServer → RoomServer
run_at f turns none s = s
run_at f turns (some c) s =
    let w = f (record { conn = c; srv = s.srv; turns = turns }) in
    record s { srv = w.srv; conns = replace w.conn s.conns }

unfoldable pub run_on : (World → World) → List Turn → (key : String) → RoomServer → RoomServer
run_on f turns key s = run_at f turns (find (has_key key) s.conns) s

-- A handler's effect, whether it returns or throws.
abbrev pub effect : {A : Type 0} → M A → World → World
effect m w = (m w).1

abbrev pub network_count : (hash : String) → RoomServer → ℕ
network_count hash s = or_else (lookup hash s.per_network) 0

unfoldable pub accept : (key : String) → AdmitInfo → RoomServer → RoomServer
accept key info s = record s {
  conns = s.conns ++ new_connection s.srv.platform.decay key info s.srv.now ∷ [];
  per_network = insert info.net.daily_hash (network_count info.net.daily_hash s + 1) s.per_network;
}

-- One connection less of the network; a count that reaches 0 is deleted.
unfoldable pub release_network : (hash : String) → Dict ℕ → Dict ℕ
release_network hash counts =
    let n = or_else (lookup hash counts) 1 - 1 in
    if leb n 0 then delete hash counts else insert hash n counts

unfoldable pub drop_at : (key : String) → Option Connection → RoomServer → RoomServer
drop_at key none s = s
drop_at key (some c) s = record s {
  conns = keep (λ x. not (has_key key x)) s.conns;
  per_network = release_network c.info.net.daily_hash s.per_network;
}

-- The socket's `close` event: the connection persists what it has and leaves the server.
unfoldable pub on_closed : (key : String) → RoomServer → RoomServer
on_closed key s = let s' = run_on on_close [] key s in drop_at key (find (has_key key) s'.conns) s'
