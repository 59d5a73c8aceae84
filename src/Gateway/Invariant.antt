-- ===== src/Gateway/Invariant.antt =====
-- What holds of every connection between two events, and what no handler changes.
pub mod Steps
pub mod Updates
pub mod Enforcing
pub mod Joining
pub mod Deciding
pub mod Events
pub mod Queue
pub mod Draining
use the_room_backend.Base.{
  ℕ, suc, ◌+◌, ◌*◌, ◌≤◌, ◌≡◌, refl, Bool, true, false, Option, none, some, List, [], ◌∷◌, ◌++◌,
  String, arith, length,
}
use the_room_backend.Abuse.RateLimit.{unit}
use the_room_backend.Abuse.Suspicion.Thresholds
use the_room_backend.Protocol.{ClientEvent}
use the_room_backend.Gateway.World.{AdmitInfo, Connection, tier_of, Server, World}

-- The bounds on what a client can make the server keep, and the tier in force.
pub record IsSound (c : Connection) : Type 0 where
  pub few_replies : length c.replies ≤ 64
  pub few_own : length c.recent_own ≤ 8
  pub score_within : c.score.score ≤ Thresholds.most
  pub tokens_within : c.bucket.tokens ≤ c.bucket.capacity * unit
  pub tier_applied : c.bucket.tier ≡ tier_of c.tier
  pub gaps_within : length c.timing.gaps ≤ c.timing.window

-- The same, of a connection whose identity and queue are given.
pub record IsSoundAs (k : String) (i : AdmitInfo) (n : ℕ) (q : List (Option ClientEvent))
    (c : Connection) : Type 0 where
  pub sound : IsSound c
  pub same_key : c.key ≡ k
  pub same_info : c.info ≡ i
  pub same_queued : c.queued ≡ n
  pub same_queue : c.queue ≡ q

-- What of the server no handler of a connection changes, but the messages that `decide` publishes.
pub record SameService (s s' : Server) : Type 0 where
  pub same_published : s'.published ≡ s.published
  pub same_instance : s'.instance_id ≡ s.instance_id
  pub same_platform : s'.platform ≡ s.platform
  pub same_config : s'.config ≡ s.config

abbrev pub Sound :
    (k : String) → (i : AdmitInfo) → (n : ℕ) → (q : List (Option ClientEvent)) → World → Type 0
Sound k i n q w = IsSoundAs k i n q w.conn

-- A sound connection of a server that goes on as `s` did.
abbrev pub Serving :
    (k : String)
    → (i : AdmitInfo) → (n : ℕ) → (q : List (Option ClientEvent)) → (s : Server) → World
    → Type 0
Serving k i n q s w = IsSoundAs k i n q w.conn × SameService s w.srv
