-- ===== src/Gateway/Invariant/Updates.antt =====
-- Each write of a handler to its connection keeps it sound.
use the_room_backend.Base.{
  ℕ, ltb, suc, ◌-◌, ◌*◌, ◌≤◌, ◌≡◌, Bool, false, Option, List, [], ◌∷◌, ◌++◌, String, arith, length,
  length-keep-le, length-append, length-drop,
}
use the_room_backend.Base.Int.{ℤ, pos}
use the_room_backend.Base.Dict.{Dict, insert, length-insert-le}
use the_room_backend.Abuse.RateLimit.{TokenBucket, unit, new_bucket, take_tokens, Waits}
use the_room_backend.Abuse.Suspicion.{SuspicionScore, value, add, reset}
use the_room_backend.Abuse.Suspicion.Thresholds
use the_room_backend.Abuse.Suspicion.Cadence.{record_message_lem}
use the_room_backend.Protocol.{ClientEvent, ServerEvent}
use the_room_backend.Store.{SessionRecord}
use the_room_backend.Gateway.World.{AdmitInfo, Connection, Server, OwnMessage, on_conn}
use the_room_backend.Gateway.Keeps.{Keeps}
use the_room_backend.Gateway.Connection.Scoring.{persist_soon}
use the_room_backend.Gateway.Connection.Enforcement.{with_rec, cleared, pass_challenge}
use the_room_backend.Gateway.Connection.Join.{carry_over, take_session, take_identity}
use the_room_backend.Gateway.Connection.Sending.{
  strike, note_own, recent, remember, record_time, take_token,
}
use the_room_backend.Gateway.Connection.Frames.{count_ping, touch}
use the_room_backend.Gateway.Invariant.{IsSoundAs, Serving}
use the_room_backend.Gateway.Invariant.Steps.{apply_tier-IsSoundAs, Keeps-conn}

take_tokens_lem :
    (waits : Waits) (now : ℕ) (b : TokenBucket)
    → ((take_tokens waits now 1 b).1.tokens ≤ (take_tokens waits now 1 b).1.capacity * unit)
      × ((take_tokens waits now 1 b).1.tier ≡ b.tier)
unfolding take_tokens
take_tokens_lem waits now b = ground arith

add-le_most :
    (decay : ℕ → ℕ → ℕ) (p : ℤ) (now : ℕ) (trusted : Bool) (s : SuspicionScore)
    → (add decay p now trusted s).score ≤ Thresholds.most
unfolding add
add-le_most decay p now trusted s = omega arith

length-remember :
    (client_id : String) (reply : ServerEvent) (replies : Dict ServerEvent)
    → length replies ≤ 64
    → length (remember client_id reply replies) ≤ 64
unfolding remember
length-remember client_id reply replies h = ground (
  arith,
  length-insert-le client_id reply replies,
  length-drop 1 (insert client_id reply replies),
)

length-note_own :
    (now : ℕ) (fp : List ℕ) (c : Connection)
    → length c.recent_own ≤ 8
    → length (note_own now fp c).recent_own ≤ 8
unfolding note_own
length-note_own now fp c h =
    let own = recent now c.recent_own in
    let new : OwnMessage = record { fp = fp; t = now } in
    ground (
      arith,
      length-keep-le (λ (m : OwnMessage). ltb (now - m.t) 60000) c.recent_own,
      length-append own (new ∷ []),
      length-drop 1 (own ++ new ∷ []),
    )

module _ (k : String) (i : AdmitInfo) (n : ℕ) (q : List (Option ClientEvent)) where
  cleared-IsSoundAs :
      (now : ℕ) (c : Connection) → IsSoundAs k i n q c → IsSoundAs k i n q (cleared now c)
  unfolding cleared reset
  cleared-IsSoundAs now c h = ground arith

  pass_challenge-IsSoundAs :
      (decay : ℕ → ℕ → ℕ) (now : ℕ) (c : Connection)
      → IsSoundAs k i n q c
      → IsSoundAs k i n q (pass_challenge decay now c)
  unfolding pass_challenge new_bucket
  pass_challenge-IsSoundAs decay now c h =
      let tiered = apply_tier-IsSoundAs k i n q decay now _ (cleared-IsSoundAs now c h) in
      ground (arith, tiered)

  carry_over-IsSoundAs :
      (decay : ℕ → ℕ → ℕ) (now : ℕ) (rec : SessionRecord) (c : Connection)
      → IsSoundAs k i n q c
      → IsSoundAs k i n q (carry_over decay now rec c)
  unfolding carry_over
  carry_over-IsSoundAs decay now rec c h =
      let stored = value decay now (record { score = rec.suspicion; at = rec.suspicion_at }) in
      ground (arith, add-le_most decay (pos (stored - value decay now c.score)) now false c.score)

  take_session-IsSoundAs :
      (decay : ℕ → ℕ → ℕ) (now : ℕ) (rec : SessionRecord) (token : String) (c : Connection)
      → IsSoundAs k i n q c
      → IsSoundAs k i n q (take_session decay now rec token c)
  unfolding take_session
  take_session-IsSoundAs decay now rec token c h =
      let carried = carry_over-IsSoundAs decay now rec c h in
      apply_tier-IsSoundAs k i n q decay now _ (ground (arith, carried))

module _ (k : String) (i : AdmitInfo) (n : ℕ) (q : List (Option ClientEvent)) (s : Server) where
  pub challenge_sent-Keeps :
      (t : ℕ) → Keeps (Serving k i n q s) (on_conn (λ c. record c { last_challenge_sent = t }))
  challenge_sent-Keeps t = Keeps-conn k i n q s _ (λ c h. ground arith)

  pub challenge_tried-Keeps :
      (t : ℕ) → Keeps (Serving k i n q s) (on_conn (λ c. record c { last_challenge_attempt = t }))
  challenge_tried-Keeps t = Keeps-conn k i n q s _ (λ c h. ground arith)

  pub blocked_until-Keeps :
      (t : ℕ) → Keeps (Serving k i n q s) (on_conn (λ c. record c { blocked_until = t }))
  blocked_until-Keeps t = Keeps-conn k i n q s _ (λ c h. ground arith)

  pub ignored-Keeps :
      (t : ℕ) → Keeps (Serving k i n q s) (on_conn (λ c. record c { last_ignored_signal = t }))
  ignored-Keeps t = Keeps-conn k i n q s _ (λ c h. ground arith)

  pub timer_off-Keeps :
      Keeps (Serving k i n q s) (on_conn (λ c. record c { persist_timer = false }))
  timer_off-Keeps = Keeps-conn k i n q s _ (λ c h. ground arith)

  pub invalid_frames-Keeps :
      Keeps (Serving k i n q s) (on_conn (λ c. record c { invalid_frames = suc c.invalid_frames }))
  invalid_frames-Keeps = Keeps-conn k i n q s _ (λ c h. ground arith)

  pub with_rec-Keeps :
      (f : SessionRecord → SessionRecord) → Keeps (Serving k i n q s) (on_conn (with_rec f))
  with_rec-Keeps f = Keeps-conn k i n q s _ (λ c h. ground arith)

  pub persist_soon-Keeps : Keeps (Serving k i n q s) (on_conn persist_soon)
  persist_soon-Keeps = Keeps-conn k i n q s _ (λ c h. ground arith)

  pub pass_challenge-Keeps :
      (decay : ℕ → ℕ → ℕ) (now : ℕ) → Keeps (Serving k i n q s) (on_conn (pass_challenge decay now))
  pass_challenge-Keeps decay now =
      Keeps-conn k i n q s _ (λ c h. pass_challenge-IsSoundAs k i n q decay now c h)

  pub take_session-Keeps :
      (decay : ℕ → ℕ → ℕ) (now : ℕ) (rec : SessionRecord) (token : String)
      → Keeps (Serving k i n q s) (on_conn (take_session decay now rec token))
  take_session-Keeps decay now rec token =
      Keeps-conn k i n q s _ (λ c h. take_session-IsSoundAs k i n q decay now rec token c h)

  pub take_identity-Keeps :
      (now : ℕ) (rec : SessionRecord) (token : String)
      → Keeps (Serving k i n q s) (on_conn (take_identity now rec token))
  unfolding take_identity
  take_identity-Keeps now rec token = Keeps-conn k i n q s _ (λ c h. ground arith)

  pub verified-Keeps :
      (decay : ℕ → ℕ → ℕ) (p : ℤ) (now : ℕ)
      → Keeps
          (Serving k i n q s)
          (on_conn (λ c. record c { score = add decay p now false c.score }))
  verified-Keeps decay p now =
      Keeps-conn k i n q s _ (λ c h. ground (arith, add-le_most decay p now false c.score))

  pub strike-Keeps : (now wait : ℕ) → Keeps (Serving k i n q s) (on_conn (strike now wait))
  unfolding strike
  strike-Keeps now wait = Keeps-conn k i n q s _ (λ c h. ground arith)

  pub take_token-Keeps :
      (waits : Waits) (now : ℕ) → Keeps (Serving k i n q s) (on_conn (take_token waits now))
  unfolding take_token
  take_token-Keeps waits now =
      Keeps-conn k i n q s _ (λ c h. ground (arith, take_tokens_lem waits now c.bucket))

  pub record_time-Keeps : (now : ℕ) → Keeps (Serving k i n q s) (on_conn (record_time now))
  unfolding record_time
  record_time-Keeps now =
      Keeps-conn k i n q s _
        (λ c h. ground (arith, record_message_lem now c.timing h.sound.gaps_within))

  pub note_own-Keeps :
      (now : ℕ) (fp : List ℕ) → Keeps (Serving k i n q s) (on_conn (note_own now fp))
  note_own-Keeps now fp =
      Keeps-conn k i n q s _
        (λ c h. unfold note_own in ground (arith, length-note_own now fp c h.sound.few_own))

  pub remember-Keeps :
      (client_id : String) (reply : ServerEvent)
      → Keeps
          (Serving k i n q s)
          (on_conn (λ c. record c { replies = remember client_id reply c.replies }))
  remember-Keeps client_id reply =
      Keeps-conn k i n q s _
        (λ c h. ground (arith, length-remember client_id reply c.replies h.sound.few_replies))

  pub count_ping-Keeps : (now : ℕ) → Keeps (Serving k i n q s) (on_conn (count_ping now))
  unfolding count_ping
  count_ping-Keeps now = Keeps-conn k i n q s _ (λ c h. ground arith)

  pub touch-Keeps : (now : ℕ) → Keeps (Serving k i n q s) (on_conn (touch now))
  touch-Keeps now = Keeps-conn k i n q s _ (λ c h. ground arith)

pub ruleset updates = (
  challenge_sent-Keeps, challenge_tried-Keeps, blocked_until-Keeps, ignored-Keeps, timer_off-Keeps,
  invalid_frames-Keeps, with_rec-Keeps, persist_soon-Keeps, pass_challenge-Keeps,
  take_session-Keeps, take_identity-Keeps, verified-Keeps, strike-Keeps, take_token-Keeps,
  record_time-Keeps, note_own-Keeps, remember-Keeps, count_ping-Keeps, touch-Keeps,
)
