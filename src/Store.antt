-- ===== src/Store.antt =====
-- store/types.ts: what the shared store keeps, and the events of the bus. Suspicion is counted in
-- thousandths of a point.
pub mod Memory
pub mod Redis
use the_room_backend.Base.{ℕ, Bool, Option, List, String}
use the_room_backend.Protocol.{ChatMessage}

pub record SessionRecord : Type 0 where
  pub sid : String
  pub room_id : String
  pub name : String
  pub country : Option String
  pub ip_hash : String
  pub created_at : ℕ
  pub suspicion : ℕ
  pub suspicion_at : ℕ
  pub challenge_pending : Bool
  pub challenge_fails : ℕ
  pub trusted_until : ℕ
  pub blocks : ℕ

pub record StoredMessage : Type 0 where
  pub public : ChatMessage
  pub open public use *
  pub sid : String

-- The value of a field of the abuse log: text that the program builds, or the text of a message.
pub data Field : Type 0 where
  str : String → Field
  body : List ℕ → Field

pub record AbuseEvent : Type 0 where
  pub id : String
  pub fields : List (String × Field)

pub data BusEvent : Type 0 where
  message : (origin room_id : String) → ChatMessage → (exclude : Option String) → BusEvent
  kick : (origin sid reason : String) → BusEvent
