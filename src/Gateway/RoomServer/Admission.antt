-- ===== src/Gateway/RoomServer/Admission.antt =====
-- gateway/room-server.ts: `admit`. The request is what the modules of net/ and the headers say of
-- it; each call of the store may fail, and then the admission goes on without it.
use the_room_backend.Base.{
  ℕ, ◌*◌, ◌^◌, min, Bool, false, not, ◌&&◌, ◌||◌, Option, none, some, String, ◌==◌, ltb, leb,
  if◌then◌else◌, length, is_some,
}
use the_room_backend.Base.Text.{◌^^◌}
use the_room_backend.Store.Memory.{MemoryStore, hit, set_block, block_ttl}
use the_room_backend.Gateway.World.{AdmitInfo, NetworkIdentity}
use the_room_backend.Gateway.RoomServer.State.{RoomServer, network_count}

pub record Request : Type 0 where
  pub origin : Option String
  pub origin_allowed : Bool
  pub net : NetworkIdentity
  pub automated_ua : Bool
  -- The header `cf-ipcountry`, where it is two capital letters.
  pub edge_country : Option String

pub record StoreFaults : Type 0 where
  pub on_blocks : Bool
  pub on_attempts : Bool
  pub on_floods : Bool
  pub on_backoff : Bool

abbrev pub no_faults : StoreFaults
no_faults = record { on_blocks = false; on_attempts = false; on_floods = false; on_backoff = false }

pub data Refusal : Type 0 where
  shutting_down origin capacity per_network blocked backoff connect_flood : Refusal

abbrev pub status : Refusal → ℕ
status shutting_down = 503
status origin = 403
status capacity = 503
status per_network = 429
status blocked = 403
status backoff = 429
status connect_flood = 429

pub data Admission : Type 0 where
  admits : AdmitInfo → Admission
  refuses : Refusal → Admission

abbrev pub net_key : NetworkIdentity → String
net_key net = "net:" ^^ net.block_hash

abbrev pub backoff_key : NetworkIdentity → String
backoff_key net = "cbo:" ^^ net.daily_hash

-- Two seconds, then twice as long for each refused attempt, up to ten minutes.
unfoldable pub backoff_ms : (n : ℕ) → ℕ
backoff_ms n = min 600000 (1000 * 2 ^ min n 10)

-- Too many attempts: the backoff is set, and the attempt refused.
unfoldable pub refuse_flood :
    StoreFaults → (now : ℕ) → NetworkIdentity → MemoryStore → Option Refusal × MemoryStore
refuse_flood f now net s =
    if f.on_floods
    then (none, s)
    else let (n, s') = hit now ("connx:" ^^ net.daily_hash) 3600000 1 s in
      if f.on_backoff
      then (none, s')
      else (some connect_flood, set_block now (backoff_key net) (backoff_ms n) "connect_flood" s')

unfoldable pub count_attempt :
    StoreFaults → (now most : ℕ) → NetworkIdentity → MemoryStore → Option Refusal × MemoryStore
count_attempt f now most net s =
    if f.on_attempts
    then (none, s)
    else let (attempts, s') = hit now ("conn:" ^^ net.daily_hash) 60000 1 s in
      if ltb most attempts then refuse_flood f now net s' else (none, s')

-- The checks against the shared store; a fault means that nothing refuses.
unfoldable pub check_store :
    StoreFaults → (now most : ℕ) → NetworkIdentity → MemoryStore → Option Refusal × MemoryStore
check_store f now most net s =
    if f.on_blocks
    then (none, s)
    else if ltb 0 (block_ttl now (net_key net) s)
    then (some blocked, s)
    else if ltb 0 (block_ttl now (backoff_key net) s)
    then (some backoff, s)
    else count_attempt f now most net s

-- The checks that need no store.
unfoldable pub check_local : Request → RoomServer → Option Refusal
check_local r s =
    if s.shutting_down
    then some shutting_down
    else if is_some r.origin && not r.origin_allowed
    then some origin
    else if leb s.limits.max_connections (length s.conns)
    then some capacity
    else if leb s.limits.max_connections_per_ip (network_count r.net.daily_hash s)
    then some per_network
    else none

-- The country of a trusted edge; "XX" and "T1" stand for none.
unfoldable pub country_of : Request → RoomServer → Option String
country_of r s =
    if s.limits.expose_country && s.limits.trust_proxy then shown r.edge_country else none
  where
    shown : Option String → Option String
    shown none = none
    shown (some h) = if h == "XX" || h == "T1" then none else some h

abbrev pub admit_info : Request → RoomServer → AdmitInfo
admit_info r s = record {
  net = r.net;
  has_origin = is_some r.origin;
  automated_ua = r.automated_ua;
  country = country_of r s;
}

unfoldable pub answer_of : Option Refusal → AdmitInfo → Admission
answer_of none info = admits info
answer_of (some why) info = refuses why

unfoldable pub admit_by :
    StoreFaults → Request → Option Refusal → RoomServer → Admission × RoomServer
admit_by f r (some why) s = (refuses why, s)
admit_by f r none s =
    let (why, store) =
      check_store f s.srv.now s.limits.connect_attempts_per_min r.net s.srv.store in
    (answer_of why (admit_info r s), record s { srv = record s.srv { store = store } })

-- `asked` is the server when the request comes, `later` when the store has answered: other requests
-- and other connections come between.
unfoldable pub admit : StoreFaults → Request → (asked later : RoomServer) → Admission × RoomServer
admit f r asked later = admit_by f r (check_local r asked) later
