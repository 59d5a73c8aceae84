-- ===== src/Gateway/Invariant/Enforcing.antt =====
-- The enforcement of gateway/connection.ts keeps a connection sound, whatever
-- happens while it waits.
use the_room_backend.Base.{ℕ, Bool, Option, none, some, List, String}
use the_room_backend.Protocol.{ClientEvent, Provider}
use the_room_backend.Identity.Sessions.{or_throw}
use the_room_backend.Gateway.World.{AdmitInfo, Server}
use the_room_backend.Gateway.Keeps.{Keeps, keeps_rules}
use the_room_backend.Gateway.Connection.Enforcement.{
  the_rec, send_challenge_by, send_challenge, start_challenge, blocked, block_network, temp_block,
  escalate, fail_challenge, answer_challenge, challenge_response,
}
use the_room_backend.Gateway.Invariant.{Serving}
use the_room_backend.Gateway.Invariant.Steps.{waits}
use the_room_backend.Gateway.Invariant.Updates.{updates}

module _ (k : String) (i : AdmitInfo) (n : ℕ) (q : List (Option ClientEvent)) (s : Server) where
  pub or_throw-Keeps : {A : Type 0} (o : Option A) → Keeps (Serving k i n q s) (or_throw o)
  unfolding or_throw
  or_throw-Keeps none = search keeps_rules
  or_throw-Keeps (some a) = search keeps_rules

  pub the_rec-Keeps : Keeps (Serving k i n q s) the_rec
  the_rec-Keeps = record { at = λ w h. (or_throw-Keeps w.conn.rec).at w h }

  pub send_challenge_by-Keeps :
      (force : Bool) (p : Option Provider) → Keeps (Serving k i n q s) (send_challenge_by force p)
  unfolding send_challenge_by
  send_challenge_by-Keeps force none = search (waits, updates) depth 24
  send_challenge_by-Keeps force (some p) = search (waits, updates) depth 24

  pub send_challenge-Keeps : (force : Bool) → Keeps (Serving k i n q s) (send_challenge force)
  unfolding send_challenge
  send_challenge-Keeps force = search (waits, updates, send_challenge_by-Keeps) depth 24

  pub start_challenge-Keeps : (score : ℕ) → Keeps (Serving k i n q s) (start_challenge score)
  unfolding start_challenge
  start_challenge-Keeps score =
      search (waits, updates, the_rec-Keeps, send_challenge-Keeps) depth 24

  pub blocked-Keeps : (ttl_ms : ℕ) → Keeps (Serving k i n q s) (blocked ttl_ms)
  unfolding blocked
  blocked-Keeps ttl_ms = search (waits, updates) depth 24

  pub block_network-Keeps :
      (blocks score : ℕ) (reason : String)
      → Keeps (Serving k i n q s) (block_network blocks score reason)
  unfolding block_network
  block_network-Keeps blocks score reason = search (waits, updates) depth 24

  pub temp_block-Keeps : (reason : String) → Keeps (Serving k i n q s) (temp_block reason)
  unfolding temp_block
  temp_block-Keeps reason =
      search (waits, updates, the_rec-Keeps, blocked-Keeps, block_network-Keeps) depth 24

  pub escalate-Keeps : (now : ℕ) → Keeps (Serving k i n q s) (escalate now)
  unfolding escalate
  escalate-Keeps now = search (waits, updates, start_challenge-Keeps, temp_block-Keeps) depth 24

  pub fail_challenge-Keeps : Keeps (Serving k i n q s) (fail_challenge)
  unfolding fail_challenge
  fail_challenge-Keeps = search (waits, updates, the_rec-Keeps, temp_block-Keeps) depth 24

  pub answer_challenge-Keeps :
      (token : String) (now : ℕ) → Keeps (Serving k i n q s) (answer_challenge token now)
  unfolding answer_challenge
  answer_challenge-Keeps token now = search (waits, updates, fail_challenge-Keeps) depth 24

  pub challenge_response-Keeps :
      (token : String) → Keeps (Serving k i n q s) (challenge_response token)
  unfolding challenge_response
  challenge_response-Keeps token = search (waits, updates, answer_challenge-Keeps) depth 24
