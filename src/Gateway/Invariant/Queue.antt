-- ===== src/Gateway/Invariant/Queue.antt =====
-- The queue of frames in gateway/connection.ts (`onFrame` and `chain`), and all that holds of a
-- connection between two events.
use the_room_backend.Base.{
  ℕ, suc, ◌-◌, ◌≤◌, ◌≡◌, refl, sym, subst, true, Option, none, some, List, [], ◌∷◌, String, arith,
  length, length-append, leb, Bool-cases, inl, inr,
}
use the_room_backend.Abuse.RateLimit.{new_bucket}
use the_room_backend.Abuse.Suspicion.{automation_user_agent, missing_origin}
use the_room_backend.Protocol.{ClientEvent}
use the_room_backend.Gateway.World.{AdmitInfo, Server, Turn, World, Outcome, returns, throws, ◌>>=◌}
use the_room_backend.Gateway.Connection.Transport.{heartbeat}
use the_room_backend.Gateway.Connection.Frames.{
  bare_connection, new_connection, touch, on_frame, receive, enqueue, handle, settle, handle_first,
  run_queue, on_pong,
}
use the_room_backend.Gateway.Connection.Life.{
  Step, receives, handles, answers_ping, joins_late, persists, rolls, beats, closes, verifies,
  kicked, is_sent, is_shut, is_cut, idles, Reachable, opened, steps,
}
use the_room_backend.Gateway.Invariant.{IsSoundAs, Sound}
use the_room_backend.Gateway.Invariant.Steps.{
  signal_at-IsSoundAs, on_close-Sound, Keeps-Sound, send-Keeps, close-Keeps, terminate-Keeps,
}
use the_room_backend.Gateway.Invariant.Joining.{rollover-Keeps}
use the_room_backend.Gateway.Invariant.Joining.{verified-Keeps as answer-Keeps}
use the_room_backend.Gateway.Invariant.Enforcing.{blocked-Keeps}
use the_room_backend.Gateway.Invariant.Events.{
  invalid-Keeps, overflow-Keeps, handle-Keeps, join_timeout-Keeps, persist_timeout-Keeps,
}

-- Sound, with a queue of at most 16 frames that `queued` counts.
pub record IsOrderly (key : String) (info : AdmitInfo) (w : World) : Type 0 where
  pub sound : IsSoundAs key info w.conn.queued w.conn.queue w.conn
  pub counted : w.conn.queued ≡ length w.conn.queue
  pub short : w.conn.queued ≤ 16

-- Whether the handler threw or not, the frame is done.
pub settle_lem :
    (r : Outcome (Unit {0})) (w : World)
    → settle r w ≡ record w { conn = record w.conn { queued = w.conn.queued - 1 } }
unfolding settle
settle_lem (returns u) w = refl
settle_lem throws w = refl

same_length : {p q : List (Option ClientEvent)} → p ≡ q → length p ≡ length q
same_length e = cc

module _ (key : String) (info : AdmitInfo) where
  -- What keeps a connection sound with any queue keeps it orderly.
  orderly :
      (w w' : World)
      → ((n : ℕ) (q : List (Option ClientEvent)) → Sound key info n q w → Sound key info n q w')
      → IsOrderly key info w
      → IsOrderly key info w'
  orderly w w' keeps h =
      let s = keeps w.conn.queued w.conn.queue h.sound in
      ground (arith, s, same_length s.same_queue)

  receive-IsOrderly :
      (data_frame : Option (Option ClientEvent)) (w : World)
      → IsOrderly key info w
      → IsOrderly key info (receive data_frame w.conn.queued w).1
  unfolding receive ◌>>=◌ enqueue
  receive-IsOrderly none w h =
      orderly w _
        (λ n q. (Keeps-Sound key info n q _ (λ s. invalid-Keeps key info n q s true)).at w) h
  receive-IsOrderly (some frame) w h = elim (Bool-cases (leb 16 w.conn.queued)) [
    | inl e ↦ rw e (
        orderly w _ (λ n q. (Keeps-Sound key info n q _ (λ s. overflow-Keeps key info n q s)).at w)
          h)
    | inr e ↦ rw e (ground (arith, length-append w.conn.queue (frame ∷ [])))
  ]

  touched :
      (w : World) (t : ℕ)
      → IsOrderly key info w
      → IsOrderly key info (record w { conn = touch t w.conn })
  touched w t h = ground arith

  handle_first-IsOrderly :
      (q : List (Option ClientEvent)) (w : World)
      → q ≡ w.conn.queue
      → IsOrderly key info w
      → IsOrderly key info (handle_first q w)
  unfolding handle_first
  handle_first-IsOrderly [] w e h = h
  handle_first-IsOrderly (frame ∷ rest) w e h =
      let started = record w { conn = record w.conn { queue = rest } } in
      let sound : Sound key info w.conn.queued rest started = ground arith in
      let done = (handle-Keeps key info w.conn.queued rest frame).at started sound in
      let counted : w.conn.queued ≡ suc (length rest) = ground (arith, e) in
      let (r, w') = handle frame started in
      subst (IsOrderly key info) (sym (settle_lem r w'))
        (ground (arith, done, same_length done.same_queue))

  pub opened-IsOrderly :
      (srv : Server) (turns : List Turn)
      → IsOrderly key info (record {
        conn = new_connection srv.platform.decay key info srv.now;
        srv = srv;
        turns = turns;
      })
  unfolding new_connection
  opened-IsOrderly srv turns =
      let decay = srv.platform.decay in
      let bare : IsSoundAs key info 0 [] (bare_connection key info srv.now) =
        unfold bare_connection new_bucket in ground arith in
      let c = bare_connection key info srv.now in
      let marked = signal_at-IsSoundAs key info 0 [] decay srv.now automation_user_agent c bare in
      ground (
        arith,
        bare,
        marked,
        signal_at-IsSoundAs key info 0 [] decay srv.now missing_origin c bare,
        signal_at-IsSoundAs key info 0 [] decay srv.now missing_origin _ marked,
      )

  heartbeat-IsOrderly :
      (w : World)
      → IsOrderly key info w
      → IsOrderly key info (record w { conn = heartbeat w.srv.now w.conn })
  unfolding heartbeat
  heartbeat-IsOrderly w h = ground arith

  Step-IsOrderly : {w w' : World} → Step w w' → IsOrderly key info w → IsOrderly key info w'
  unfolding on_frame on_pong run_queue ◌>>=◌
  Step-IsOrderly (receives w d) h = receive-IsOrderly d _ (touched w w.srv.now h)
  Step-IsOrderly (handles w) h = handle_first-IsOrderly w.conn.queue w refl h
  Step-IsOrderly (answers_ping w) h = touched w w.srv.now h
  Step-IsOrderly (joins_late w) h =
      orderly w _
        (λ n q. (Keeps-Sound key info n q _ (λ s. join_timeout-Keeps key info n q s)).at w) h
  Step-IsOrderly (persists w) h =
      orderly w _
        (λ n q. (Keeps-Sound key info n q _ (λ s. persist_timeout-Keeps key info n q s)).at w) h
  Step-IsOrderly (rolls w next) h =
      orderly w _
        (λ n q. (Keeps-Sound key info n q _ (λ s. rollover-Keeps key info n q s next)).at w) h
  Step-IsOrderly (beats w) h = heartbeat-IsOrderly w h
  Step-IsOrderly (closes w) h = orderly w _ (λ n q. on_close-Sound key info n q w) h
  Step-IsOrderly (verifies w ok) h =
      orderly w _ (λ n q. (Keeps-Sound key info n q _ (λ s. answer-Keeps key info n q s ok)).at w) h
  Step-IsOrderly (kicked w ttl) h =
      orderly w _ (λ n q. (Keeps-Sound key info n q _ (λ s. blocked-Keeps key info n q s ttl)).at w)
        h
  Step-IsOrderly (is_sent w evt) h =
      orderly w _ (λ n q. (Keeps-Sound key info n q _ (λ s. send-Keeps key info n q s evt)).at w) h
  Step-IsOrderly (is_shut w code) h =
      orderly w _ (λ n q. (Keeps-Sound key info n q _ (λ s. close-Keeps key info n q s code)).at w)
        h
  Step-IsOrderly (is_cut w) h =
      orderly w _ (λ n q. (Keeps-Sound key info n q _ (λ s. terminate-Keeps key info n q s)).at w) h
  Step-IsOrderly (idles w srv turns) h = ground arith

-- Between two events of a connection, in every world that they lead to, those that the client, the
-- verifier, the server and the other connections cause: at most 16 frames wait, and `queued` counts them; at most 64 replies
-- and eight own messages are kept; the score is at most the most, the bucket holds no more than
-- its capacity and stands at the tier in force; the timing window is not exceeded; and the key and
-- what the upgrade found of the client have not changed.
pub Reachable-IsOrderly :
    (key : String) (info : AdmitInfo) {w : World} → Reachable key info w → IsOrderly key info w
Reachable-IsOrderly key info (opened srv turns) = opened-IsOrderly key info srv turns
Reachable-IsOrderly key info (steps r s) =
    Step-IsOrderly key info s (Reachable-IsOrderly key info r)
