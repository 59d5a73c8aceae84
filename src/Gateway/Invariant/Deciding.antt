-- ===== src/Gateway/Invariant/Deciding.antt =====
-- The steps of `decide` before a message is published keep a connection sound and publish nothing.
use the_room_backend.Base.{ℕ, Option, List, String, arith}
use the_room_backend.Protocol.{ClientEvent}
use the_room_backend.Store.{SessionRecord}
use the_room_backend.Gateway.World.{AdmitInfo, Server, on_srv}
use the_room_backend.Gateway.Keeps.{Keeps}
use the_room_backend.Gateway.Invariant.{Serving}
use the_room_backend.Gateway.Invariant.Steps.{waits, Keeps-srv}
use the_room_backend.Gateway.Invariant.Updates.{updates}
use the_room_backend.Gateway.Connection.Sending.{check_room, cross_duplicate, behave}

module _ (k : String) (i : AdmitInfo) (n : ℕ) (q : List (Option ClientEvent)) (s : Server) where
  pub cross_duplicate-Keeps :
      (rec : SessionRecord) (fp : List ℕ) → Keeps (Serving k i n q s) (cross_duplicate rec fp)
  unfolding cross_duplicate
  cross_duplicate-Keeps rec fp = search (waits, updates) depth 24

  pub behave-Keeps :
      (now : ℕ) (rec : SessionRecord) (text : List ℕ)
      → Keeps (Serving k i n q s) (behave now rec text)
  unfolding behave
  behave-Keeps now rec text = search (waits, updates, cross_duplicate-Keeps) depth 24

  pub check_room-Keeps : Keeps (Serving k i n q s) (on_srv check_room)
  unfolding check_room
  check_room-Keeps = Keeps-srv k i n q s _ (λ s' h. ground arith)
