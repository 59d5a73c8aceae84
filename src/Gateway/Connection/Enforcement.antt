-- ===== src/Gateway/Connection/Enforcement.antt =====
-- gateway/connection.ts: escalation, challenges and temporary blocks.
use the_room_backend.Base.{
  ℕ, suc, ◌+◌, ◌-◌, ◌*◌, ◌/◌, min, max, Bool, true, false, not, ◌&&◌, ◌||◌, Option, none, some, [],
  ◌∷◌, String, ltb, leb, eqb, if◌then◌else◌, is_some,
}
use the_room_backend.Base.Text.{◌^^◌, decimal}
use the_room_backend.Abuse.RateLimit.{new_bucket}
use the_room_backend.Abuse.Suspicion.{value, reset}
use the_room_backend.Abuse.Suspicion.Thresholds
use the_room_backend.Abuse.Challenge.{Verifier, provider, site_key, verify}
use the_room_backend.Protocol.{
  Provider, ServerEvent, challenge, challenge_result, error, is_blocked, no_entry, RejectReason,
  challenge_required, blocked as blocked_reason,
}
use the_room_backend.Store.{SessionRecord, str}
use the_room_backend.Store.Memory.{set_block, add_abuse_event}
use the_room_backend.Identity.Sessions.{or_throw}
use the_room_backend.Gateway.World.{
  Connection, tier_of, M, ◌>>=◌, ◌>>◌, pure, skip, world, on_conn, when,
}
use the_room_backend.Gateway.Connection.Transport.{send, close}
use the_room_backend.Gateway.Connection.Scoring.{trusted, apply_tier}
use the_room_backend.Gateway.Connection.Waiting.{await_store, persist, wait, store_later, no_result}

abbrev pub event_retention_ms : ℕ
event_retention_ms = 604800000

abbrev pub trust_window_ms : ℕ
trust_window_ms = 1800000

-- Writes to the session record, which the connection and its handlers share.
abbrev pub with_rec : (SessionRecord → SessionRecord) → Connection → Connection
with_rec f c = elim c.rec [ none ↦ c | some rec ↦ record c { rec = some (f rec) } ]

abbrev pub pending : Option SessionRecord → Bool
pending none = false
pending (some rec) = rec.challenge_pending

-- `this.rec!`
abbrev pub the_rec : M SessionRecord
the_rec w = or_throw w.conn.rec w

unfoldable pub challenge_frame : Provider → Verifier → ServerEvent
challenge_frame p v = challenge p (site_key v)

unfoldable pub send_challenge_by : (force : Bool) → Option Provider → M (Unit {0})
send_challenge_by force none = skip
send_challenge_by force (some p) = do
  w ← world
  when (force || not (ltb (w.srv.now - w.conn.last_challenge_sent) 5000)) (
      on_conn (λ c. record c { last_challenge_sent = w.srv.now })
      >> send (challenge p (site_key w.srv.verifier)))

unfoldable pub send_challenge : (force : Bool) → M (Unit {0})
send_challenge force = do w ← world; send_challenge_by force (provider w.srv.verifier)

-- `Math.round(score)`, in whole points.
abbrev rounded : ℕ → ℕ
rounded v = (v + 500) / 1000

unfoldable pub start_challenge : (score : ℕ) → M (Unit {0})
start_challenge score = do
  w ← world
  rec ← the_rec
  if rec.challenge_pending then skip else do
    on_conn (with_rec (λ r. record r { challenge_pending = true }))
    store_later (λ now.
        add_abuse_event now
          (("type", str "challenge_issued")
            ∷ ("session", str (w.srv.platform.log_tag rec.sid))
            ∷ ("score", str (decimal (rounded score)))
            ∷ [])
          event_retention_ms)
    persist
    send_challenge true

unfoldable pub blocked : (ttl_ms : ℕ) → M (Unit {0})
blocked ttl_ms = do
  w ← world
  on_conn (λ c. record c { blocked_until = w.srv.now + ttl_ms })
  send (error is_blocked)
  close no_entry

-- Ten minutes, then an hour, then what is left of the day.
unfoldable pub block_ttl_ms : (blocks ends_at now : ℕ) → ℕ
block_ttl_ms blocks ends_at now =
    if eqb blocks 1 then 600000 else if eqb blocks 2 then 3600000 else max 60000 (ends_at - now)

unfoldable pub net_ttl_ms : (blocks : ℕ) → ℕ
net_ttl_ms blocks = min 86400000 (900000 * blocks)

-- The block of the whole network, for repeated or severe cases.
unfoldable pub block_network : (blocks score : ℕ) → (reason : String) → M (Unit {0})
block_network blocks score reason = when (leb 2 blocks || leb Thresholds.severe score) (do
  w ← world
  await_store (
      no_result
        λ now. set_block now ("net:" ^^ w.conn.info.net.block_hash) (net_ttl_ms blocks) reason)
  skip)

unfoldable pub temp_block : (reason : String) → M (Unit {0})
temp_block reason = do
  w ← world
  rec ← the_rec
  let blocks = suc rec.blocks
  let ttl = block_ttl_ms blocks w.srv.room.ends_at w.srv.now
  on_conn (with_rec (λ r. record r { blocks = blocks }))
  await_store (no_result λ now. set_block now ("sess:" ^^ rec.sid) ttl reason)
  w' ← world
  block_network blocks (value w.srv.platform.decay w.srv.now w'.conn.score) reason
  store_later (λ now.
      add_abuse_event now
        (("type", str "block")
          ∷ ("reason", str reason)
          ∷ ("session", str (w.srv.platform.log_tag rec.sid))
          ∷ ("ttlMs", str (decimal ttl))
          ∷ ("blocks", str (decimal blocks))
          ∷ [])
        event_retention_ms)
  persist
  blocked ttl

-- A reason to reject if the session must stop sending now.
unfoldable pub escalate : (now : ℕ) → M (Option RejectReason)
escalate now = do
  w ← world
  let v = value w.srv.platform.decay now w.conn.score
  if ltb v Thresholds.challenge
      then pure none
      else if trusted now w.conn && ltb v Thresholds.severe
      then pure none
      else if is_some (provider w.srv.verifier)
      then (do start_challenge v; pure (some challenge_required))
      else if leb Thresholds.severe v
      then (do temp_block "severe_automation"; pure (some blocked_reason))
      else pure none

-- A passed challenge: the score, the strikes and the cooldown go, and the session is trusted.
unfoldable pub cleared : (now : ℕ) → Connection → Connection
cleared now c =
    with_rec
      (λ r. record r {
        challenge_pending = false;
        challenge_fails = 0;
        trusted_until = now + trust_window_ms;
      })
      (record c { score = reset now c.score; strikes = 0; cooldown_until = 0 })

-- With a full bucket of the tier that applies then.
unfoldable pub pass_challenge : (decay : ℕ → ℕ → ℕ) → (now : ℕ) → Connection → Connection
pass_challenge decay now c =
    let c' = apply_tier decay now (cleared now c) in
    record c' { bucket = new_bucket (tier_of c'.tier) now }

-- After the third failure the session is blocked.
unfoldable pub fail_challenge : M (Unit {0})
fail_challenge = do
  on_conn (with_rec (λ r. record r { challenge_fails = suc r.challenge_fails }))
  send (challenge_result false)
  rec ← the_rec
  if leb 3 rec.challenge_fails then temp_block "challenge_failed" else persist

-- The answer of the verifier, once it is there.
unfoldable pub answer_challenge : (token : String) → (now : ℕ) → M (Unit {0})
answer_challenge token now = do
  w ← world
  if w.conn.closed
      then skip
      else if verify w.srv.verifier token
      then (do
        on_conn (pass_challenge w.srv.platform.decay now)
        persist
        send (challenge_result true))
      else fail_challenge

unfoldable pub challenge_response : (token : String) → M (Unit {0})
challenge_response token = do
  w ← world
  if not (pending w.conn.rec)
      then skip
      else if ltb (w.srv.now - w.conn.last_challenge_attempt) 1000
      then skip
      else do
        on_conn (λ c. record c { last_challenge_attempt = w.srv.now })
        wait
        answer_challenge token w.srv.now
