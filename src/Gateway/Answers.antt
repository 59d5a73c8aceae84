-- ===== src/Gateway/Answers.antt =====
-- What the answer to a sent message means (gateway/connection.ts `decide`), and a rule for each way
-- to build an action that gives such an answer.
pub mod Rooms
pub mod Sending
pub mod Replays
use the_room_backend.Base.{
  ℕ, ◌≡◌, refl, Bool, true, false, Option, none, some, List, [], ◌∷◌, ◌++◌, String, ◌==◌,
  if◌then◌else◌,
}
use the_room_backend.Messaging.Validate.{accepts, normalize_text}
use the_room_backend.Protocol.{ClientEvent, ServerEvent, ack, reject, RejectReason, ChatMessage}
use the_room_backend.Store.{SessionRecord, BusEvent}
use the_room_backend.Gateway.World.{
  AdmitInfo, Connection, Server, World, Outcome, returns, throws, M, ◌>>=◌, pure, world, continue,
}
use the_room_backend.Room.Day.{DailyRoom}
use the_room_backend.Gateway.Keeps.{Keeps}
use the_room_backend.Gateway.Answers.Rooms.{InRooms}
use the_room_backend.Gateway.Connection.Sending.{SendEvent, rejects, room_of, stale_day, limits_of}
use the_room_backend.Gateway.Invariant.{IsSoundAs, SameService, Serving}

-- What the three guards on the day have let through.
pub record IsToday (w : World) (e : SendEvent) (rec : SessionRecord) : Type 0 where
  pub same_room : ((room_of w.srv w.srv.now).room_id == w.srv.room.room_id) ≡ true
  pub same_day : stale_day w.srv.now e.day w.conn w.srv.room ≡ false
  pub own_room : (rec.room_id == w.srv.room.room_id) ≡ true

-- The message of an acknowledgement, decided from `w`.
pub record IsAccepted (w : World) (e : SendEvent) (rec : SessionRecord) (m : ChatMessage)
    : Type 0 where
  pub today : IsToday w e rec
  pub unchallenged : rec.challenge_pending ≡ false
  pub stamped : m.ts ≡ w.srv.now
  pub signed : m.author ≡ rec.name
  pub placed : m.country ≡ rec.country
  pub validated : normalize_text w.srv.platform.unicode (limits_of w.srv) e.text ≡ accepts m.text

-- The server once the message is on the bus, for everyone but the sender.
abbrev pub after_publish : (key room_id : String) → ChatMessage → Server → Server
after_publish key room_id m s = record s {
  published = s.published ++ BusEvent.message s.instance_id room_id m (some key) ∷ [];
}

module _ (k : String) (i : AdmitInfo) (n : ℕ) (q : List (Option ClientEvent)) (w0 : World)
    (e : SendEvent) (rec : SessionRecord) (R : DailyRoom → Type 0) where
  -- An acknowledgement goes with one event on the bus that carries the same message to a room that is
  -- as `R` says, a rejection with none, and there is no other answer.
  pub IsAnswered : Outcome ServerEvent → World → Type 0
  IsAnswered (returns (ack id m)) w =
      (id ≡ e.client_id)
      × IsAccepted w0 e rec m
      × ((room : DailyRoom) × R room × Serving k i n q (after_publish k room.room_id m w0.srv) w)
  IsAnswered (returns (reject id reason retry)) w = (id ≡ e.client_id) × Serving k i n q w0.srv w
  IsAnswered (returns _) w = ⊥
  IsAnswered throws w = Serving k i n q w0.srv w

  -- `m` answers so, from any world that serves as `w0` and whose rooms are as `R` says.
  pub record Answers (m : M ServerEvent) : Type 0 where
    pub at : (w : World) → Serving k i n q w0.srv w → InRooms R w → IsAnswered (m w).0 (m w).1

-- Before a rejection the room may change.
Answers-rejected :
    (k : String) (i : AdmitInfo) (n : ℕ) (q : List (Option ClientEvent)) (w0 : World)
    (e : SendEvent) (rec : SessionRecord) (R : DailyRoom → Type 0) {A : Type 0} (o : Outcome A)
    (r : RejectReason) (t : ℕ) (w : World)
    → Serving k i n q w0.srv w
    → IsAnswered k i n q w0 e rec R
        (continue o (λ a. pure (rejects e r t)) w).0
        (continue o (λ a. pure (rejects e r t)) w).1
unfolding IsAnswered pure
Answers-rejected k i n q w0 e rec R (returns a) r t w h = (refl, h)
Answers-rejected k i n q w0 e rec R throws r t w h = h

module _ {k : String} {i : AdmitInfo} {n : ℕ} {q : List (Option ClientEvent)} {w0 : World}
    {e : SendEvent} {rec : SessionRecord} {R : DailyRoom → Type 0} where
  pub Answers-rejects :
      (r : RejectReason) (t : ℕ) → Answers k i n q w0 e rec R (pure (rejects e r t))
  unfolding pure IsAnswered
  Answers-rejects r t = record { at = λ w h rooms. (refl, h) }

  pub Answers-if :
      (b : Bool) (m m' : M ServerEvent)
      → Answers k i n q w0 e rec R m
      → Answers k i n q w0 e rec R m'
      → Answers k i n q w0 e rec R (if b then m else m')
  Answers-if true m m' a a' = a
  Answers-if false m m' a a' = a'

  pub Answers-if' :
      (b : Bool) (m m' : M ServerEvent)
      → (b ≡ true → Answers k i n q w0 e rec R m)
      → (b ≡ false → Answers k i n q w0 e rec R m')
      → Answers k i n q w0 e rec R (if b then m else m')
  Answers-if' true m m' a a' = a refl
  Answers-if' false m m' a a' = a' refl

  Answers-continue :
      {A : Type 0} (r : Outcome A) (f : A → M ServerEvent) (w : World)
      → ((a : A) → Answers k i n q w0 e rec R (f a))
      → Serving k i n q w0.srv w
      → InRooms R w
      → IsAnswered k i n q w0 e rec R (continue r f w).0 (continue r f w).1
  unfolding IsAnswered
  Answers-continue (returns a) f w kf h rooms = (kf a).at w h rooms
  Answers-continue throws f w kf h rooms = h

  pub Answers-bind :
      {A : Type 0} (m : M A) (f : A → M ServerEvent)
      → Keeps (Serving k i n q w0.srv) m
      → Keeps (InRooms R) m
      → ((a : A) → Answers k i n q w0 e rec R (f a))
      → Answers k i n q w0 e rec R (m >>= f)
  unfolding ◌>>=◌
  Answers-bind m f km kr kf = record {
    at = λ w h rooms. Answers-continue (m w).0 f (m w).1 kf (km.at w h) (kr.at w rooms);
  }

  pub Answers-rejects_after :
      {A : Type 0} (m : M A) (r : RejectReason) (t : ℕ)
      → Keeps (Serving k i n q w0.srv) m
      → Answers k i n q w0 e rec R (m >>= λ a. pure (rejects e r t))
  unfolding ◌>>=◌
  Answers-rejects_after m r t km = record {
    at = λ w h rooms. Answers-rejected k i n q w0 e rec R (m w).0 r t (m w).1 (km.at w h);
  }

  -- Of the world that is read it is known that it serves.
  pub Answers-world :
      (f : World → M ServerEvent)
      → ((w : World) → Serving k i n q w0.srv w → InRooms R w → Answers k i n q w0 e rec R (f w))
      → Answers k i n q w0 e rec R (world >>= f)
  unfolding ◌>>=◌
  Answers-world f kf = record { at = λ w h rooms. (kf w h rooms).at w h rooms }

pub ruleset answers_rules = (Answers-rejects, Answers-if, Answers-bind)
