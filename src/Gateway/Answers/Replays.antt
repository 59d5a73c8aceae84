-- ===== src/Gateway/Answers/Replays.antt =====
-- gateway/connection.ts `handleSend`: a message that is sent again gets the reply of the first time.
use the_room_backend.Base.{
  ℕ, suc, ◌+◌, ◌<◌, ◌≤◌, refl, ◌≡◌, ap, sym, subst, ◌∙◌, true, false, none, some, List, [], ◌∷◌,
  ◌++◌, All, if◌then◌else◌, eq_iff, String, ◌==◌, arith, Bool-cases, inl, inr, length, drop, ltb,
  eq_refl,
}
use the_room_backend.Base.Dict.{Dict, lookup, insert, length-insert-le}
use the_room_backend.Protocol.{ServerEvent}
use the_room_backend.Store.{SessionRecord}
use the_room_backend.Gateway.World.{Outcome, World, returns, ◌>>=◌}
use the_room_backend.Gateway.Connection.Transport.{send, send_raw_to}
use the_room_backend.Gateway.Connection.Sending.{
  SendEvent, decide, remember, answer, answer_once, handle_send,
}
use the_room_backend.Gateway.Invariant.{IsSound}
use the_room_backend.Gateway.Answers.Sending.{decide-Keeps}

-- The reply has its place in the map, with at most `n` replies after it.
record IsKept (id : String) (reply : ServerEvent) (n : ℕ) (d : Dict ServerEvent) : Type 0 where
  before : Dict ServerEvent
  after : Dict ServerEvent
  shape : d ≡ before ++ (id, reply) ∷ after
  absent : lookup id before ≡ none
  few_after : length after ≤ n
  few : length d ≤ 64

lookup-append :
    (id : String) (reply : ServerEvent) (before after : Dict ServerEvent)
    → lookup id before ≡ none
    → lookup id (before ++ (id, reply) ∷ after) ≡ some reply
unfolding lookup
lookup-append id reply [] after h = ground (arith, eq_refl id)
lookup-append id reply ((j, r) ∷ before) after h = elim (Bool-cases (j == id)) [
  | inl e ↦ absurd (ground (arith, h, e))
  | inr e ↦ rw e (lookup-append id reply before after (ground (arith, h, e)))
]

IsKept-found :
    (id : String) (reply : ServerEvent) (n : ℕ) (d : Dict ServerEvent)
    → IsKept id reply n d
    → lookup id d ≡ some reply
IsKept-found id reply n d h =
    ap (lookup id) h.shape ∙ lookup-append id reply h.before h.after h.absent

-- A new id is put last.
insert-new :
    (id : String) (reply : ServerEvent) (d : Dict ServerEvent)
    → lookup id d ≡ none
    → insert id reply d ≡ d ++ (id, reply) ∷ []
unfolding lookup insert
insert-new id reply [] h = refl
insert-new id reply ((j, r) ∷ d) h = elim (Bool-cases (j == id)) [
  | inl e ↦ absurd (ground (arith, h, e))
  | inr e ↦ rw e (ap (λ rest. (j, r) ∷ rest) (insert-new id reply d (ground (arith, h, e))))
]

-- Where another id is put, the place of the reply stays.
record IsPut (id : String) (reply : ServerEvent) (n : ℕ) (d : Dict ServerEvent) : Type 0 where
  before : Dict ServerEvent
  after : Dict ServerEvent
  shape : d ≡ before ++ (id, reply) ∷ after
  absent : lookup id before ≡ none
  few_after : length after ≤ n

insert-other :
    (id other : String) (reply r : ServerEvent) (before after : Dict ServerEvent)
    → (other == id) ≡ false
    → lookup id before ≡ none
    → IsPut id reply (suc (length after)) (insert other r (before ++ (id, reply) ∷ after))
unfolding lookup insert
insert-other id other reply r [] after differ absent = elim (Bool-cases (id == other)) [
  | inl e ↦ absurd (ground (arith, differ, e, eq_iff id other, eq_iff other id))
  | inr e ↦ record {
    before = [];
    after = insert other r after;
    shape = rw e refl;
    absent = refl;
    few_after = omega (arith, length-insert-le other r after);
  }
]
insert-other id other reply r ((j, q) ∷ before) after differ absent =
    let there : (j == id) ≡ false = ground (arith, absent) in
    let rest_absent : lookup id before ≡ none = ground (arith, absent, there) in
    elim (Bool-cases (j == other)) [
      | inl e ↦ record {
        before = (j, r) ∷ before;
        after = after;
        shape = rw e refl;
        absent = rw there rest_absent;
        few_after = omega arith;
      }
      | inr e ↦
          let later = insert-other id other reply r before after differ rest_absent in
          record {
            before = (j, q) ∷ later.before;
            after = later.after;
            shape = rw e (ap (λ rest. (j, q) ∷ rest) later.shape);
            absent = rw there later.absent;
            few_after = later.few_after;
          }
    ]

-- The oldest reply goes, which is not this one where fewer than 64 stand after it.
dropped-IsKept :
    (id : String) (reply : ServerEvent) (n : ℕ) (before after : Dict ServerEvent)
    → lookup id before ≡ none
    → length after ≤ n
    → n < 64
    → 64 < length (before ++ (id, reply) ∷ after)
    → length (before ++ (id, reply) ∷ after) ≤ 65
    → IsKept id reply n (drop 1 (before ++ (id, reply) ∷ after))
unfolding lookup
dropped-IsKept id reply n [] after absent few lt over most = absurd (omega (arith, few, lt, over))
dropped-IsKept id reply n ((j, r) ∷ before) after absent few lt over most = record {
  before = before;
  after = after;
  shape = refl;
  absent = ground (arith, absent);
  few_after = few;
  few = omega (arith, most);
}

IsPut-IsKept :
    (id : String) (reply : ServerEvent) (n : ℕ) (d : Dict ServerEvent)
    → IsPut id reply n d
    → n < 64
    → length d ≤ 65
    → IsKept id reply n (if ltb 64 (length d) then drop 1 d else d)
IsPut-IsKept id reply n d h lt most = elim (Bool-cases (ltb 64 (length d))) [
  | inl over ↦ rw over (
      subst (λ e. IsKept id reply n (drop 1 e)) (sym h.shape)
        (dropped-IsKept id reply n h.before h.after h.absent h.few_after lt
          (subst (λ e. 64 < length e) h.shape (ground (arith, over)))
          (subst (λ e. length e ≤ 65) h.shape most)))
  | inr short ↦ rw short (record {
    before = h.before;
    after = h.after;
    shape = h.shape;
    absent = h.absent;
    few_after = h.few_after;
    few = ground (arith, short);
  })
]

remember-new :
    (id : String) (reply : ServerEvent) (d : Dict ServerEvent)
    → lookup id d ≡ none
    → length d ≤ 64
    → IsKept id reply 0 (remember id reply d)
unfolding remember
remember-new id reply d new few =
    IsPut-IsKept id reply 0 (insert id reply d)
      (record {
        before = d;
        after = [];
        shape = insert-new id reply d new;
        absent = new;
        few_after = omega arith;
      })
      (omega arith) (omega (arith, few, length-insert-le id reply d))

remember-other :
    (id other : String) (reply r : ServerEvent) (n : ℕ) (d : Dict ServerEvent)
    → (other == id) ≡ false
    → suc n < 64
    → IsKept id reply n d
    → IsKept id reply (suc n) (remember other r d)
unfolding remember
remember-other id other reply r n d differ lt h =
    let put = insert-other id other reply r h.before h.after differ h.absent in
    IsPut-IsKept id reply (suc n) (insert other r d)
      (subst (λ e. IsPut id reply (suc n) (insert other r e)) (sym h.shape)
        (record {
          before = put.before;
          after = put.after;
          shape = put.shape;
          absent = put.absent;
          few_after = omega (arith, put.few_after, h.few_after);
        }))
      lt (omega (arith, h.few, length-insert-le other r d))

-- The replies after further answers.
unfoldable pub remember_all : List (String × ServerEvent) → Dict ServerEvent → Dict ServerEvent
remember_all [] d = d
remember_all ((other, r) ∷ later) d = remember_all later (remember other r d)

remember_all-IsKept :
    (id : String) (reply : ServerEvent) (later : List (String × ServerEvent)) (n : ℕ)
    (d : Dict ServerEvent)
    → All (λ p. (p.0 == id) ≡ false) later
    → n + length later < 64
    → IsKept id reply n d
    → lookup id (remember_all later d) ≡ some reply
unfolding remember_all
remember_all-IsKept id reply [] n d differ lt h = IsKept-found id reply n d h
remember_all-IsKept id reply ((other, r) ∷ later) n d differ lt h =
    remember_all-IsKept id reply later (suc n) (remember other r d) differ.1 (omega (arith, lt))
      (remember-other id other reply r n d differ.0 (omega (arith, lt)) h)

answer_lem :
    (w w1 : World) (e : SendEvent) (reply : ServerEvent)
    → decide e w ≡ (returns reply, w1)
    → answer e w
      ≡ send reply (record w1 {
        conn = record w1.conn { replies = remember e.client_id reply w1.conn.replies };
      })
unfolding answer ◌>>=◌
answer_lem w w1 e reply eq = rw eq refl

-- `send` leaves what decides about a replay.
send_lem :
    (evt : ServerEvent) (w : World)
    → ((send evt w).1.conn.replies ≡ w.conn.replies)
      × ((send evt w).1.conn.joined ≡ w.conn.joined)
      × ((send evt w).1.conn.rec ≡ w.conn.rec)
unfolding send send_raw_to ◌>>=◌
send_lem evt w = ground arith

handle_send_lem :
    (e : SendEvent) (w : World) (rec : SessionRecord) (prior : ServerEvent)
    → w.conn.joined ≡ true
    → w.conn.rec ≡ some rec
    → lookup e.client_id w.conn.replies ≡ some prior
    → handle_send e w ≡ send prior w
unfolding handle_send answer_once ◌>>=◌
handle_send_lem e w rec prior joined has known = simp (joined, has, known) refl

decided-IsSound :
    (w w1 : World) (e : SendEvent) (reply : ServerEvent)
    → IsSound w.conn
    → decide e w ≡ (returns reply, w1)
    → IsSound w1.conn
decided-IsSound w w1 e reply sound eq =
    let kept = (decide-Keeps w.conn.key w.conn.info w.conn.queued w.conn.queue e).at w (record {
      sound = sound;
      same_key = refl;
      same_info = refl;
      same_queued = refl;
      same_queue = refl;
    }) in
    subst (λ (r : Outcome ServerEvent × World). IsSound r.1.conn) eq kept.sound

-- A message whose client id was new and that was answered is answered the same when it comes again,
-- whatever its text and its day are then, in every later world where the connection has a session
-- and its replies are those that the first answer left and up to 63 further answers, to other
-- client ids: the same reply is written, and nothing else happens.
pub handle_send-answer :
    (w w1 later : World) (e again : SendEvent) (rec : SessionRecord) (reply : ServerEvent)
    (others : List (String × ServerEvent))
    → IsSound w.conn
    → decide e w ≡ (returns reply, w1)
    → lookup e.client_id w1.conn.replies ≡ none
    → All (λ p. (p.0 == e.client_id) ≡ false) others
    → length others < 64
    → later.conn.replies ≡ remember_all others (answer e w).1.conn.replies
    → later.conn.joined ≡ true
    → later.conn.rec ≡ some rec
    → again.client_id ≡ e.client_id
    → handle_send again later ≡ send reply later
handle_send-answer w w1 later e again rec reply others sound eq new differ few replies joined has
      same =
    let c = record w1.conn { replies = remember e.client_id reply w1.conn.replies } in
    let left : (answer e w).1.conn.replies ≡ c.replies =
      ap (λ r. r.1.conn.replies) (answer_lem w w1 e reply eq)
      ∙ (send_lem reply (record w1 { conn = c })).0 in
    let kept =
      remember-new e.client_id reply w1.conn.replies new
        (decided-IsSound w w1 e reply sound eq).few_replies in
    let known =
      remember_all-IsKept e.client_id reply others 0 c.replies differ (omega (arith, few)) kept in
    handle_send_lem again later rec reply joined has (
      ap (lookup again.client_id) (replies ∙ ap (remember_all others) left)
      ∙ (ap (λ k. lookup k (remember_all others c.replies)) same ∙ known))
