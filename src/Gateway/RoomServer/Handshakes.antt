-- ===== src/Gateway/RoomServer/Handshakes.antt =====
-- gateway/room-server.ts: `onUpgrade`, as the handshakes that are under way at once. The limits are
-- looked at before the store is asked, and the connection is added after it has answered.
pub mod AddsNone
pub mod Within
use the_room_backend.Base.{ℕ, ◌≤◌, ◌≡◌, none, List, [], ◌∷◌, ◌++◌, String, length}
use the_room_backend.Gateway.World.{AdmitInfo, Turn, World}
use the_room_backend.Gateway.RoomServer.State.{RoomServer, accept, on_closed, run_on}
use the_room_backend.Gateway.RoomServer.Admission.{
  Request, StoreFaults, Refusal, admits, refuses, check_local, admit_by,
}

-- The server, and the requests that have passed its own checks and wait for the store.
pub record Door : Type 0 where
  pub server : RoomServer
  pub waiting : List Request

-- One request less waits.
abbrev pub served : (before after : List Request) → RoomServer → Door
served before after s = record { server = s; waiting = before ++ after }

abbrev pub serving : (before : List Request) → Request → (after : List Request) → RoomServer → Door
serving before r after s = record { server = s; waiting = before ++ r ∷ after }

-- What happens at the door, where at most `k` other requests wait when one comes.
pub data Handshake (k : ℕ) : Door → Door → Type 0 where
  -- A request passes the checks of the server's own state.
  asks :
      (r : Request) (d : Door)
      → check_local r d.server ≡ none
      → length d.waiting ≤ k
      → Handshake k d (record d { waiting = r ∷ d.waiting })
  -- The store has answered, and the socket is taken over.
  enters :
      (before after : List Request) (r : Request) (f : StoreFaults) (key : String)
      (info : AdmitInfo) (s s' : RoomServer)
      → admit_by f r none s ≡ (admits info, s')
      → Handshake k (serving before r after s) (served before after (accept key info s'))
  -- The store has answered, and the socket is gone.
  gone :
      (before after : List Request) (r : Request) (f : StoreFaults) (info : AdmitInfo)
      (s s' : RoomServer)
      → admit_by f r none s ≡ (admits info, s')
      → Handshake k (serving before r after s) (served before after s')
  refused :
      (before after : List Request) (r : Request) (f : StoreFaults) (why : Refusal)
      (s s' : RoomServer)
      → admit_by f r none s ≡ (refuses why, s')
      → Handshake k (serving before r after s) (served before after s')
  -- A connection closes, or anything else happens to one.
  closes : (key : String) (d : Door) → Handshake k d (record d { server = on_closed key d.server })
  runs :
      (f : World → World) (turns : List Turn) (key : String) (d : Door)
      → Handshake k d (record d { server = run_on f turns key d.server })

-- What the door can come to.
pub data Doors (k : ℕ) (s : RoomServer) : Door → Type 0 where
  at_first : Doors k s (record { server = s; waiting = [] })
  then_next : (d d' : Door) → Doors k s d → Handshake k d d' → Doors k s d'
