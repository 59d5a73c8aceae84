-- ===== src/Gateway/Answers/Sending.antt =====
-- Every step of `decide` in gateway/connection.ts answers as `IsAnswered` says.
use the_room_backend.Base.{
  ℕ, ◌-◌, ◌≡◌, refl, sym, subst, Bool, true, false, not, Option, none, some, List, [], ◌∷◌, ◌++◌,
  String, arith, Option-cases, Bool-cases, is_some, if◌then◌else◌, All, inl, inr,
}
use the_room_backend.Messaging.Validate.{ValidationResult, accepts, refuses, normalize_text}
use the_room_backend.Protocol.{
  ClientEvent, ServerEvent, welcome, messages, presence, reset, challenge, challenge_result,
  reported, error, pong, ack, reject, RejectReason, invalid, rate_limited, blocked,
  challenge_required, stale_room, ChatMessage,
}
use the_room_backend.Store.{SessionRecord, BusEvent}
use the_room_backend.Identity.Sessions.{or_throw}
use the_room_backend.Gateway.World.{
  AdmitInfo, Server, Turn, World, Outcome, returns, throws, M, ◌>>=◌, pure, continue,
}
use the_room_backend.Gateway.Keeps.{Keeps}
use the_room_backend.Gateway.Connection.Waiting.{await_publish, next_turn}
use the_room_backend.Gateway.Connection.Sending.{
  SendEvent, deliver, unless_stopped, unless_escalated, network_and_on, in_cooldown, out_of_tokens,
  rate_and_on, checked_and_on, content_and_on, limits_of, enforce_and_on, today_and_on, decide,
  reason_of, rejects,
}
use the_room_backend.Gateway.Invariant.{IsSound, SameService, Sound, Serving}
use the_room_backend.Gateway.Invariant.Steps.{signal-Keeps, await_store-Keeps, pass_turn-Serving}
use the_room_backend.Gateway.Invariant.Updates.{ignored-Keeps, strike-Keeps, take_token-Keeps}
use the_room_backend.Gateway.Invariant.Enforcing.{escalate-Keeps, send_challenge-Keeps}
use the_room_backend.Gateway.Invariant.Joining.{draw-Keeps, count_hit-Keeps}
use the_room_backend.Gateway.Invariant.Deciding.{behave-Keeps, check_room-Keeps}
use the_room_backend.Room.Day.{DailyRoom}
use the_room_backend.Gateway.Answers.Rooms.{
  OfRoom, InRooms, draw-InRooms, await_store-InRooms, escalate-InRooms, count_hit-InRooms,
  signal-InRooms, behave-InRooms, on_conn-InRooms, send_challenge-InRooms,
}
use the_room_backend.Gateway.Answers.{
  IsToday, IsAccepted, after_publish, IsAnswered, Answers, Answers-rejects, Answers-rejects_after,
  Answers-if, Answers-if', Answers-bind, Answers-world,
}

published_lem :
    (k : String) (i : AdmitInfo) (n : ℕ) (q : List (Option ClientEvent)) (s : Server)
    (instance key room_id : String) (m : ChatMessage) (w : World)
    → key ≡ k
    → instance ≡ s.instance_id
    → Serving k i n q s w
    → Serving k i n q (after_publish k room_id m s) (record w {
      srv = record w.srv {
        published = w.srv.published ++ BusEvent.message instance room_id m (some key) ∷ [];
      };
    })
published_lem k i n q s instance key room_id m w same here h = (
  h.0,
  record {
    same_published = cc;
    same_instance = h.1.same_instance;
    same_platform = h.1.same_platform;
    same_config = h.1.same_config;
  },
)

normalize_text-same :
    (s s' : Server) (text : List ℕ)
    → SameService s s'
    → normalize_text s.platform.unicode (limits_of s) text
      ≡ normalize_text s'.platform.unicode (limits_of s') text
normalize_text-same s s' text h = cc

of_not : (b : Bool) → not b ≡ false → b ≡ true
of_not true h = refl
of_not false h = cc

module _ {k : String} {i : AdmitInfo} {n : ℕ} {q : List (Option ClientEvent)} {w0 : World}
    {e : SendEvent} {rec : SessionRecord} {R : DailyRoom → Type 0} where
  publish-Answers :
      (instance key : String) (room : DailyRoom) (m : ChatMessage)
      → key ≡ k
      → instance ≡ w0.srv.instance_id
      → R room
      → IsAccepted w0 e rec m
      → Answers k i n q w0 e rec R (
          await_publish (BusEvent.message instance room.room_id m (some key)) >>= λ published.
          if not (is_some published) then pure (rejects e invalid 0) else pure (ack e.client_id m))
  unfolding ◌>>=◌ await_publish IsAnswered
  publish-Answers instance key room m same here in_room accepted = record {
    at = λ w h rooms.
        let (t, ts) = next_turn w.turns in
        let waiting = record w { turns = ts } in
        elim (Bool-cases (next_turn w.turns).0.fails) [
          | inl fails ↦ rw fails (refl, pass_turn-Serving k i n q w0.srv t waiting h)
          | inr works ↦
              let on_bus =
                published_lem k i n q w0.srv instance key room.room_id m waiting same here h in
              rw works (
                refl,
                accepted,
                (
                  room,
                  in_room,
                  pass_turn-Serving k i n q (after_publish k room.room_id m w0.srv) t _ on_bus,
                ),
              )
        ];
  }

  deliver-Answers :
      (text : List ℕ)
      → ((m : ChatMessage)
          → m.ts ≡ w0.srv.now
          → m.author ≡ rec.name
          → m.country ≡ rec.country
          → m.text ≡ text
          → IsAccepted w0 e rec m)
      → Answers k i n q w0 e rec R (deliver w0.srv.now e rec text)
  unfolding deliver
  deliver-Answers text accepted =
      Answers-bind _ _ (draw-Keeps k i n q w0.srv) (draw-InRooms R) (λ d.
        Answers-world _ (λ w h rooms.
          let m : ChatMessage = record {
            id = w.srv.platform.new_message_id w0.srv.now d;
            author = rec.name;
            text = text;
            ts = w0.srv.now;
            country = rec.country;
          } in
          Answers-bind _ _ (await_store-Keeps k i n q w0.srv _) (await_store-InRooms R _) (λ stored.
            Answers-if _ _ _ (Answers-rejects invalid 0) (
              publish-Answers w.srv.instance_id w.conn.key w.srv.room m h.0.same_key
                h.1.same_instance rooms.present (accepted m refl refl refl refl)))))

  unless_escalated-Answers :
      (now : ℕ) (m : M ServerEvent)
      → Answers k i n q w0 e rec R m
      → Answers k i n q w0 e rec R (unless_escalated now e m)
  unfolding unless_escalated unless_stopped
  unless_escalated-Answers now m a =
      Answers-bind _ _ (escalate-Keeps k i n q w0.srv now) (escalate-InRooms R now)
        (λ r. by_reason r)
    where
      by_reason : (r : Option RejectReason) → Answers k i n q w0 e rec R (unless_stopped r e m)
      by_reason none = a
      by_reason (some r) = Answers-rejects r 0

  network_and_on-Answers :
      (text : List ℕ)
      → Answers k i n q w0 e rec R (deliver w0.srv.now e rec text)
      → Answers k i n q w0 e rec R (network_and_on w0.srv.now e rec text)
  unfolding network_and_on
  network_and_on-Answers text a = Answers-world _ (λ w h rooms.
      Answers-bind _ _ (count_hit-Keeps k i n q w0.srv _ _) (count_hit-InRooms R _ _) (λ hits.
        Answers-if _ _ _
          (Answers-bind _ _ (signal-Keeps k i n q w0.srv _) (signal-InRooms R _)
            (λ u. Answers-rejects rate_limited 5000))
          (Answers-bind _ _ (behave-Keeps k i n q w0.srv _ rec text) (behave-InRooms R _ rec text)
            (λ u. unless_escalated-Answers _ _ a))))

  in_cooldown-Answers : Answers k i n q w0 e rec R (in_cooldown w0.srv.now e)
  unfolding in_cooldown
  in_cooldown-Answers = Answers-world _ (λ w h rooms.
      let refuse = Answers-rejects rate_limited (w.conn.cooldown_until - w0.srv.now) in
      Answers-if _ _ _
        (Answers-bind _ _ (ignored-Keeps k i n q w0.srv _) (on_conn-InRooms R _) (λ u.
          Answers-bind _ _ (signal-Keeps k i n q w0.srv _) (signal-InRooms R _)
            (λ u. unless_escalated-Answers _ _ refuse)))
        refuse)

  out_of_tokens-Answers : (t : ℕ) → Answers k i n q w0 e rec R (out_of_tokens w0.srv.now t e)
  unfolding out_of_tokens
  out_of_tokens-Answers t =
      Answers-bind _ _ (strike-Keeps k i n q w0.srv _ t) (on_conn-InRooms R _) (λ u.
        Answers-bind _ _ (signal-Keeps k i n q w0.srv _) (signal-InRooms R _) (λ u.
          Answers-world _ (λ w h rooms.
            unless_escalated-Answers _ _
              (Answers-world _ (λ w' h' rooms'. Answers-rejects rate_limited _)))))

  rate_and_on-Answers :
      (text : List ℕ)
      → Answers k i n q w0 e rec R (deliver w0.srv.now e rec text)
      → Answers k i n q w0 e rec R (rate_and_on w0.srv.now e rec text)
  unfolding rate_and_on
  rate_and_on-Answers text a = Answers-world _ (λ w h rooms. Answers-if _ _ _ in_cooldown-Answers (
      Answers-bind _ _ (take_token-Keeps k i n q w0.srv _ _) (on_conn-InRooms R _)
        (λ u. Answers-if _ _ _ (out_of_tokens-Answers _) (network_and_on-Answers text a))))

  content_and_on-Answers :
      IsToday w0 e rec
      → rec.challenge_pending ≡ false
      → Answers k i n q w0 e rec R (content_and_on w0.srv.now e rec)
  unfolding content_and_on checked_and_on
  content_and_on-Answers today unchallenged = Answers-world _ (λ w h rooms.
      by_result (normalize_text w.srv.platform.unicode (limits_of w.srv) e.text)
        (normalize_text-same w0.srv w.srv e.text h.1))
    where
      by_result :
          (r : ValidationResult)
          → normalize_text w0.srv.platform.unicode (limits_of w0.srv) e.text ≡ r
          → Answers k i n q w0 e rec R (checked_and_on w0.srv.now e rec r)
      by_result (refuses r) eq = Answers-rejects (reason_of r) 0
      by_result (accepts text) eq = rate_and_on-Answers text (
          deliver-Answers text (λ m stamped signed placed same. record {
            today = today;
            unchallenged = unchallenged;
            stamped = stamped;
            signed = signed;
            placed = placed;
            validated = cc;
          }))

  enforce_and_on-Answers :
      IsToday w0 e rec → Answers k i n q w0 e rec R (enforce_and_on w0.srv.now e rec)
  unfolding enforce_and_on
  enforce_and_on-Answers today = Answers-world _ (λ w h rooms.
      Answers-if _ _ _ (Answers-rejects blocked _) (
        Answers-if' _ _ _
          (λ eq.
            Answers-bind _ _ (send_challenge-Keeps k i n q w0.srv false)
              (send_challenge-InRooms R false) (λ u. Answers-rejects challenge_required 0))
          (λ eq. content_and_on-Answers today eq)))

  today_and_on-Answers : Answers k i n q w0 e rec R (today_and_on w0 e rec)
  unfolding today_and_on
  today_and_on-Answers =
      let stale = Answers-rejects stale_room 0 in
      Answers-if' _ _ _ (λ eq. Answers-rejects_after _ _ 0 (check_room-Keeps k i n q w0.srv))
        (λ same_room.
          Answers-if' _ _ _ (λ eq. stale)
            (λ same_day.
              Answers-if' _ _ _ (λ eq. stale)
                (λ own_room. enforce_and_on-Answers (record {
                  same_room = of_not _ same_room;
                  same_day = same_day;
                  own_room = of_not _ own_room;
                }))))

-- The reply to a sent message, of a sound connection with a session, whatever happens while it
-- waits: the handler answers with an acknowledgement or a rejection of that client id, or it
-- throws. With an acknowledgement exactly one event has gone to the bus, the acknowledged message
-- for everyone but the sender; otherwise none has. The event is for a room that has every property
-- of the server's room at first and of those that it changes to meanwhile. The acknowledged message
-- carries the server's time, the session's name and country and the text that validation accepts,
-- and at that time the server's room, the client's day and the session's room were today's and no
-- challenge was pending.
pub decide-IsAnswered :
    (w : World) (e : SendEvent) (rec : SessionRecord) (R : DailyRoom → Type 0)
    → w.conn.rec ≡ some rec
    → IsSound w.conn
    → InRooms R w
    → IsAnswered w.conn.key w.conn.info w.conn.queued w.conn.queue w e rec R
        (decide e w).0
        (decide e w).1
unfolding decide ◌>>=◌ or_throw
decide-IsAnswered w e rec R eq sound rooms =
    let answers : Outcome ServerEvent × World → Type 0 =
      λ r. IsAnswered w.conn.key w.conn.info w.conn.queued w.conn.queue w e rec R r.0 r.1 in
    let serving : Serving w.conn.key w.conn.info w.conn.queued w.conn.queue w.srv w = (
      record {
        sound = sound;
        same_key = refl;
        same_info = refl;
        same_queued = refl;
        same_queue = refl;
      },
      record {
        same_published = refl;
        same_instance = refl;
        same_platform = refl;
        same_config = refl;
      },
    ) in
    subst (λ o. answers (continue (or_throw o w).0 (today_and_on w e) (or_throw o w).1)) (sym eq)
      (today_and_on-Answers.at w serving rooms)

IsAnswered-Sound :
    (k : String) (i : AdmitInfo) (n : ℕ) (q : List (Option ClientEvent)) (w0 : World)
    (e : SendEvent) (rec : SessionRecord) (R : DailyRoom → Type 0) (r : Outcome ServerEvent)
    (w : World)
    → IsAnswered k i n q w0 e rec R r w
    → Sound k i n q w
unfolding IsAnswered
IsAnswered-Sound k i n q w0 e rec R (returns (ack id m)) w h = h.2.2.0
IsAnswered-Sound k i n q w0 e rec R (returns (reject id r t)) w h = h.1.0
IsAnswered-Sound k i n q w0 e rec R throws w h = h.0
IsAnswered-Sound k i n q w0 e rec R (returns (welcome x)) w h = absurd h
IsAnswered-Sound k i n q w0 e rec R (returns (ServerEvent.message m)) w h = absurd h
IsAnswered-Sound k i n q w0 e rec R (returns (messages ms)) w h = absurd h
IsAnswered-Sound k i n q w0 e rec R (returns (presence x)) w h = absurd h
IsAnswered-Sound k i n q w0 e rec R (returns (reset d t x y)) w h = absurd h
IsAnswered-Sound k i n q w0 e rec R (returns (challenge p s)) w h = absurd h
IsAnswered-Sound k i n q w0 e rec R (returns (challenge_result b)) w h = absurd h
IsAnswered-Sound k i n q w0 e rec R (returns (reported x)) w h = absurd h
IsAnswered-Sound k i n q w0 e rec R (returns (error c)) w h = absurd h
IsAnswered-Sound k i n q w0 e rec R (returns (pong t)) w h = absurd h

unfoldable AnyRoom : DailyRoom → Type 0
AnyRoom room = Unit {0}

any_room : (o : Option DailyRoom) → OfRoom AnyRoom o
unfolding OfRoom AnyRoom
any_room none = tt
any_room (some room) = tt

any_rooms : (ts : List Turn) → All (λ (t : Turn). OfRoom AnyRoom t.new_room) ts
any_rooms [] = tt
any_rooms (t ∷ ts) = (any_room t.new_room, any_rooms ts)

any_world : (w : World) → InRooms AnyRoom w
unfolding AnyRoom
any_world w = record { present = tt; coming = any_rooms w.turns }

decide-Sound :
    (k : String) (i : AdmitInfo) (n : ℕ) (q : List (Option ClientEvent)) (e : SendEvent) (w : World)
    → Sound k i n q w
    → Sound k i n q (decide e w).1
unfolding decide ◌>>=◌ or_throw
decide-Sound k i n q e w h = elim (Option-cases w.conn.rec) [
  | inl eq ↦
      subst (λ o. Sound k i n q (continue (or_throw o w).0 (today_and_on w e) (or_throw o w).1).1)
        (sym eq) h
  | inr (rec, eq) ↦
      let s =
        IsAnswered-Sound _ _ _ _ w e rec AnyRoom _ _
          (decide-IsAnswered w e rec AnyRoom eq h.sound (any_world w)) in
      ground (arith, s)
]

pub decide-Keeps :
    (k : String) (i : AdmitInfo) (n : ℕ) (q : List (Option ClientEvent)) (e : SendEvent)
    → Keeps (Sound k i n q) (decide e)
decide-Keeps k i n q e = record { at = λ w h. decide-Sound k i n q e w h }
