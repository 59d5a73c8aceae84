-- ===== src/Gateway/Invariant/Joining.antt =====
-- `join` and `rollover` keep a connection sound, and so do the sessions that they open.
use the_room_backend.Base.{ℕ, zero, suc, Bool, true, false, Option, none, some, List, String, arith}
use the_room_backend.Protocol.{ClientEvent, Provider, turnstile, mock}
use the_room_backend.Room.Day.{DailyRoom}
use the_room_backend.Store.{SessionRecord}
use the_room_backend.Gateway.World.{
  AdmitInfo, Server, World, Outcome, returns, throws, M, draw, on_srv,
}
use the_room_backend.Gateway.Keeps.{
  Keeps, Keeps-pure, Keeps-if, Keeps-bind, Keeps-world, keeps_rules,
}
use the_room_backend.Gateway.Invariant.{Serving}
use the_room_backend.Gateway.Invariant.Steps.{waits, Keeps-srv, await_store-Keeps}
use the_room_backend.Gateway.Invariant.Updates.{updates}
use the_room_backend.Identity.Sessions.{
  NewSessionInput, draw_name, claim_loop, open_session, create, resume_sid, resume,
}
use the_room_backend.Gateway.Connection.Join.{
  catch_none, count_hit, resume_by, fresh_session, session_for, join_loop, ask_verification,
  verified, enter, admit_session, join, roll_session, roll_by, unless_moved, rollover,
}
use the_room_backend.Gateway.Invariant.Enforcing.{
  or_throw-Keeps, send_challenge-Keeps, blocked-Keeps,
}

module _ (k : String) (i : AdmitInfo) (n : ℕ) (q : List (Option ClientEvent)) (s : Server) where
  pub draw-Keeps : Keeps (Serving k i n q s) draw
  unfolding draw
  draw-Keeps = record {
    at = λ w h. (
      h.0,
      record {
        same_published = h.1.same_published;
        same_instance = h.1.same_instance;
        same_platform = h.1.same_platform;
        same_config = h.1.same_config;
      },
    );
  }

  joined_count-Keeps :
      Keeps (Serving k i n q s) (on_srv (λ s'. record s' { joined_count = suc s'.joined_count }))
  joined_count-Keeps = Keeps-srv k i n q s _ (λ s' h. ground arith)

  pub draw_name-Keeps : Keeps (Serving k i n q s) (draw_name)
  unfolding draw_name
  draw_name-Keeps = search (waits, updates, draw-Keeps) depth 24

  claim_loop-Keeps :
      (tries : ℕ) (room : DailyRoom) (sid : String)
      → Keeps (Serving k i n q s) (claim_loop tries room sid)
  unfolding claim_loop
  claim_loop-Keeps zero room sid = search keeps_rules
  claim_loop-Keeps (suc tries) room sid = Keeps-bind _ _ draw_name-Keeps (λ candidate.
      Keeps-bind _ _ (await_store-Keeps k i n q s _) (λ answer.
        Keeps-bind _ _ (or_throw-Keeps k i n q s answer)
          (λ claimed. Keeps-if _ _ _ (Keeps-pure _) (claim_loop-Keeps tries room sid))))

  pub open_session-Keeps :
      (room : DailyRoom) (rec : SessionRecord) → Keeps (Serving k i n q s) (open_session room rec)
  unfolding open_session
  open_session-Keeps room rec = search (waits, updates, draw-Keeps, or_throw-Keeps) depth 24

  pub create-Keeps :
      (room : DailyRoom) (input : NewSessionInput) → Keeps (Serving k i n q s) (create room input)
  unfolding create
  create-Keeps room input =
      search (waits, updates, draw-Keeps, or_throw-Keeps, claim_loop-Keeps, open_session-Keeps)
        depth 24

  pub resume_sid-Keeps :
      (room : DailyRoom) (sid : Option String) → Keeps (Serving k i n q s) (resume_sid room sid)
  unfolding resume_sid
  resume_sid-Keeps room none = search (waits, updates, or_throw-Keeps) depth 24
  resume_sid-Keeps room (some sid) = search (waits, updates, or_throw-Keeps) depth 24

  pub resume-Keeps :
      (room : DailyRoom) (token : String) → Keeps (Serving k i n q s) (resume room token)
  unfolding resume
  resume-Keeps room token = search (waits, updates, or_throw-Keeps, resume_sid-Keeps) depth 24

  catch_none-Keeps :
      {A : Type 0} (m : M (Option A))
      → Keeps (Serving k i n q s) m
      → Keeps (Serving k i n q s) (catch_none m)
  unfolding catch_none
  catch_none-Keeps {A} m km = record { at = λ w h. by_outcome (m w).0 (m w).1 (km.at w h) }
    where
      by_outcome :
          (r : Outcome (Option A)) (w : World)
          → Serving k i n q s w
          → Serving k i n q s (
              let x : Outcome (Option A) × World = elim r [
                | returns a ↦ (returns a, w)
                | throws ↦ (returns none, w)
              ] in
              x.1)
      by_outcome (returns a) w h = h
      by_outcome throws w h = h

  pub count_hit-Keeps :
      (key : String) (window_ms : ℕ) → Keeps (Serving k i n q s) (count_hit key window_ms)
  unfolding count_hit
  count_hit-Keeps key window_ms = search (waits, updates) depth 24

  pub resume_by-Keeps :
      (room : DailyRoom) (token : Option String) → Keeps (Serving k i n q s) (resume_by room token)
  unfolding resume_by
  resume_by-Keeps room none = search (waits, updates, resume-Keeps, catch_none-Keeps) depth 24
  resume_by-Keeps room (some token) =
      search (waits, updates, resume-Keeps, catch_none-Keeps) depth 24

  pub fresh_session-Keeps :
      (now : ℕ) (room : DailyRoom) → Keeps (Serving k i n q s) (fresh_session now room)
  unfolding fresh_session
  fresh_session-Keeps now room = search (waits, updates, count_hit-Keeps, create-Keeps) depth 24

  pub session_for-Keeps :
      (now : ℕ) (room : DailyRoom) (found : Option SessionRecord) (token : Option String)
      → Keeps (Serving k i n q s) (session_for now room found token)
  unfolding session_for
  session_for-Keeps now room (some rec) (some token) =
      search (waits, updates, count_hit-Keeps, fresh_session-Keeps) depth 24
  session_for-Keeps now room (some rec) none =
      search (waits, updates, count_hit-Keeps, fresh_session-Keeps) depth 24
  session_for-Keeps now room none token =
      search (waits, updates, count_hit-Keeps, fresh_session-Keeps) depth 24

  then_again-Keeps :
      (session : Option (SessionRecord × String)) (w : World)
      (again : M (Option (SessionRecord × String)))
      → Keeps (Serving k i n q s) again
      → Keeps (Serving k i n q s) (unless_moved session w again)
  unfolding unless_moved
  then_again-Keeps none w again ka = Keeps-pure _
  then_again-Keeps (some (rec, t)) w again ka = Keeps-if _ _ _ (Keeps-pure _) ka

  join_loop-Keeps :
      (attempts now : ℕ) (token : Option String)
      → Keeps (Serving k i n q s) (join_loop attempts now token)
  unfolding join_loop
  join_loop-Keeps zero now token = search keeps_rules
  join_loop-Keeps (suc attempts) now token = Keeps-bind _ _ Keeps-world (λ w.
      Keeps-bind _ _ (resume_by-Keeps w.srv.room token) (λ found.
        Keeps-bind _ _ (session_for-Keeps now w.srv.room found token) (λ s.
          Keeps-bind _ _ Keeps-world
            (λ w'. then_again-Keeps s w' _ (join_loop-Keeps attempts now none)))))

  pub ask_verification-Keeps :
      (p : Option Provider) (verification : Option String)
      → Keeps (Serving k i n q s) (ask_verification p verification)
  unfolding ask_verification
  ask_verification-Keeps (some turnstile) none = search (waits, updates) depth 24
  ask_verification-Keeps (some turnstile) (some v) = search (waits, updates) depth 24
  ask_verification-Keeps (some mock) v = search (waits, updates) depth 24
  ask_verification-Keeps none v = search (waits, updates) depth 24

  pub verified-Keeps : (ok : Bool) → Keeps (Serving k i n q s) (verified ok)
  unfolding verified
  verified-Keeps true = search (waits, updates) depth 24
  verified-Keeps false = search (waits, updates) depth 24

  pub enter-Keeps :
      (now : ℕ) (rec : SessionRecord) (token : String) (verification : Option String)
      → Keeps (Serving k i n q s) (enter now rec token verification)
  unfolding enter
  enter-Keeps now rec token verification =
      search (waits, updates, joined_count-Keeps, send_challenge-Keeps, ask_verification-Keeps)
        depth 24

  pub admit_session-Keeps :
      (now : ℕ) (session : Option (SessionRecord × String)) (verification : Option String)
      → Keeps (Serving k i n q s) (admit_session now session verification)
  unfolding admit_session
  admit_session-Keeps now none verification =
      search (waits, updates, blocked-Keeps, enter-Keeps) depth 24
  admit_session-Keeps now (some (rec, token)) verification =
      search (waits, updates, blocked-Keeps, enter-Keeps) depth 24

  pub join-Keeps :
      (token verification : Option String) → Keeps (Serving k i n q s) (join token verification)
  unfolding join
  join-Keeps token verification =
      search (waits, updates, join_loop-Keeps, admit_session-Keeps) depth 24

  pub roll_session-Keeps :
      (next : DailyRoom) (old : SessionRecord) → Keeps (Serving k i n q s) (roll_session next old)
  unfolding roll_session
  roll_session-Keeps next old = search (waits, updates, create-Keeps, send_challenge-Keeps) depth 24

  pub roll_by-Keeps :
      (next : DailyRoom) (w : World) (rec : Option SessionRecord)
      → Keeps (Serving k i n q s) (roll_by next w rec)
  unfolding roll_by
  roll_by-Keeps next w none = search (waits, updates, roll_session-Keeps) depth 24
  roll_by-Keeps next w (some rec) = search (waits, updates, roll_session-Keeps) depth 24

  pub rollover-Keeps : (next : DailyRoom) → Keeps (Serving k i n q s) (rollover next)
  unfolding rollover
  rollover-Keeps next = search (waits, roll_by-Keeps) depth 12
