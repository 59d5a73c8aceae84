-- ===== src/Identity/Resuming.antt =====
-- identity/sessions.ts: a session that `create` makes is the one that its token resumes.
use the_room_backend.Base.{
  ℕ, zero, suc, ◌+◌, ◌≤◌, ◌<◌, ◌≡◌, refl, sym, ap, subst, false, ◌&&◌, none, some, String, ◌==◌,
  ltb, arith, if◌then◌else◌, Bool-cases, inl, inr, [], ltb→lt, Option,
}
use the_room_backend.Base.Dict.{lookup, lookup-insert}
use the_room_backend.Room.Day.{DailyRoom}
use the_room_backend.Store.{SessionRecord}
use the_room_backend.Store.Memory.{
  MemoryStore, text, session, session_key, resume_key, put, save_session, set_resume, get_session,
  resolve_resume, get, as_text,
}
use the_room_backend.Store.Memory.Claims.{lookup-put_self, get_live, get_expired}
use the_room_backend.Store.Memory.Owners.{get_as_missing, resume_key≢session_key}
use the_room_backend.Gateway.World.{Platform, World, ◌>>=◌, pure, world, returns}
use the_room_backend.Gateway.Returns.{
  Returns, Returns-any, Returns-nowhere, Returns-weaken, Returns-pure, Returns-world, Returns-if,
  Returns-given, Returns-bind,
}
use the_room_backend.Gateway.Connection.Waiting.{await_store, no_result, pass_turn}
use the_room_backend.Identity.Sessions.{
  NewSessionInput, draw_name, claim_loop, new_record, open_session, create, belonging_to,
  resume_sid, resume, or_throw,
}
use the_room_backend.Identity.Unsaved.{
  Serves, Any, Answered, or_throw-Returns, or_throw-none, or_throw-same, await_store-Returns,
  draw-Returns,
}
use Prim.Native.String.{count}

-- Ids and tokens of `randomBytes` have 22 and 32 characters.
pub record HasTokens (p : Platform) : Type 0 where
  pub sid_given : (n : ℕ) → (p.new_session_id n == "") ≡ false
  pub token_given : (n : ℕ) → (p.new_resume_token n == "") ≡ false
  pub token_short : (n : ℕ) → ltb 128 (count (p.new_resume_token n)) ≡ false

record IsKept (room : DailyRoom) (rec : SessionRecord) (hash : String) (s : MemoryStore)
    : Type 0 where
  pub saved :
      lookup (session_key rec.sid) s.kv ≡ some (record { v = session rec; exp = room.ends_at })
  pub named : lookup (resume_key hash) s.kv ≡ some (record { v = text rec.sid; exp = room.ends_at })

record IsMade (p : Platform) (room : DailyRoom) (made : SessionRecord × String) (w : World)
    : Type 0 where
  pub of_room : made.0.room_id ≡ room.room_id
  pub sid_given : (made.0.sid == "") ≡ false
  pub token_given : (made.1 == "") ≡ false
  pub token_short : ltb 128 (count made.1) ≡ false
  pub serves : Serves p (IsKept room made.0 (p.hash_token made.1)) w

set_resume-IsKept :
    (room : DailyRoom) (rec : SessionRecord) (hash : String) (s : MemoryStore)
    → lookup (session_key rec.sid) s.kv ≡ some (record { v = session rec; exp = room.ends_at })
    → IsKept room rec hash (set_resume hash rec.sid room.ends_at s)
unfolding set_resume put
set_resume-IsKept room rec hash s h = record {
  saved =
      rw
        (
          lookup-insert (resume_key hash) (session_key rec.sid) _ s.kv,
          resume_key≢session_key hash rec.sid,
        )
        h;
  named = lookup-put_self (resume_key hash) (text rec.sid) room.ends_at s;
}

module _ {p : Platform} where
  draw_name-Returns : Returns (Serves p Any) draw_name (λ name. Serves p Any)
  unfolding draw_name
  draw_name-Returns = Returns-bind Returns-world (λ seen. Returns-given (λ known.
      Returns-bind draw-Returns (λ adj.
        Returns-bind draw-Returns
          (λ animal. Returns-bind draw-Returns (λ number. Returns-pure _ (λ w h. h))))))

  claim_loop-Returns :
      (tries : ℕ) (room : DailyRoom) (sid : String)
      → Returns (Serves p Any) (claim_loop tries room sid) (λ found. Serves p Any)
  unfolding claim_loop Any
  claim_loop-Returns zero room sid = Returns-pure _ (λ w h. h)
  claim_loop-Returns (suc tries) room sid = Returns-bind draw_name-Returns (λ candidate.
      Returns-bind (await_store-Returns (λ claimed. Any) _ (λ now s h. tt)) (λ answer.
        Returns-bind (or_throw-Returns (λ claimed. Any) answer) (λ claimed.
          Returns-if _ _ _ (Returns-pure _ (λ w h. h)) (claim_loop-Returns tries room sid))))

  module _ (fit : HasTokens p) where
    -- The token's write, whatever became of the record's.
    second-Returns :
        (room : DailyRoom) (rec : SessionRecord) (hash token : String) (first : Option (Unit {0}))
        → Returns {A = SessionRecord × String}
            (Answered p
              (λ done s.
                lookup (session_key rec.sid) s.kv
                ≡ some (record { v = session rec; exp = room.ends_at }))
              first)
            (await_store (no_result (λ now. set_resume hash rec.sid room.ends_at)) >>= λ second.
              or_throw first >>= λ done. or_throw second >>= λ done. pure (rec, token))
            (λ made w. (made ≡ (rec, token)) × Serves p (IsKept room rec hash) w)
    unfolding Answered
    second-Returns room rec hash token none =
        Returns-bind (Returns-any _)
          (λ second. Returns-bind (or_throw-none _) (λ done. Returns-nowhere _ _))
    second-Returns room rec hash token (some done) =
        let kept = IsKept room rec hash in
        Returns-bind
          (await_store-Returns (λ done. kept) _ (λ now s h. set_resume-IsKept room rec hash s h))
          (λ second.
            Returns-bind (or_throw-same (Answered p (λ done. kept) second) (some done)) (λ done.
              Returns-bind (or_throw-Returns (λ done. kept) second)
                (λ done. Returns-pure _ (λ w h. (refl, h)))))

    made_lem :
        (room : DailyRoom) (rec : SessionRecord) (n : ℕ) (seen : Platform)
        (made : SessionRecord × String) (w : World)
        → rec.room_id ≡ room.room_id
        → (rec.sid == "") ≡ false
        → seen ≡ p
        → made ≡ (rec, seen.new_resume_token n)
        → Serves p (IsKept room rec (seen.hash_token (seen.new_resume_token n))) w
        → IsMade p room made w
    made_lem room rec n seen made w of_room sid_given same equal serves =
        let token = seen.new_resume_token n in
        let there : IsMade p room (rec, token) w = record {
          of_room = of_room;
          sid_given = sid_given;
          token_given =
              subst (λ q. (q.new_resume_token n == "") ≡ false) (sym same) (fit.token_given n);
          token_short =
              subst (λ q. ltb 128 (count (q.new_resume_token n)) ≡ false) (sym same)
                (fit.token_short n);
          serves = subst (λ q. Serves p (IsKept room rec (q.hash_token token)) w) same serves;
        } in
        subst (λ m. IsMade p room m w) (sym equal) there

    open_session-Returns :
        (room : DailyRoom) (rec : SessionRecord)
        → rec.room_id ≡ room.room_id
        → (rec.sid == "") ≡ false
        → Returns (Serves p Any) (open_session room rec) (IsMade p room)
    unfolding open_session save_session
    open_session-Returns room rec of_room sid_given = Returns-bind Returns-world (λ seen.
        Returns-given (λ known. Returns-bind draw-Returns (λ n.
          Returns-bind
            (await_store-Returns
              (λ done s.
                lookup (session_key rec.sid) s.kv
                ≡ some (record { v = session rec; exp = room.ends_at }))
              _ (λ now s h. lookup-put_self (session_key rec.sid) (session rec) room.ends_at s))
            (λ first.
              Returns-weaken
                (λ made w h.
                  made_lem room rec n seen.srv.platform made w of_room sid_given known.same_platform
                    h.0 h.1)
                (second-Returns room rec _ _ first)))))

    create-Returns :
        (room : DailyRoom) (input : NewSessionInput)
        → Returns (Serves p Any) (create room input) (IsMade p room)
    unfolding create
    create-Returns room input = Returns-bind Returns-world (λ seen. Returns-given (λ known.
        Returns-bind draw-Returns (λ n. Returns-bind (claim_loop-Returns 10 room _) (λ found.
          Returns-bind (or_throw-same (Serves p Any) found) (λ name.
            open_session-Returns room (new_record room input _ name) refl (
              subst (λ q. (q.new_session_id n == "") ≡ false) (sym known.same_platform)
                (fit.sid_given n)))))))

-- The same place later, with nobody else about.
abbrev pub at_rest : (later : ℕ) → World → World
at_rest later w = record w { srv = record w.srv { now = later }; turns = [] }

belonging_to_lem :
    (room other : DailyRoom) (rec : SessionRecord)
    → rec.room_id ≡ room.room_id
    → belonging_to other (some rec) ≡ (if room.room_id == other.room_id then some rec else none)
unfolding belonging_to
belonging_to_lem room other rec same = ap (λ r. if r == other.room_id then some rec else none) same

abbrev with_store : MemoryStore → World → World
with_store s w = record w { srv = record w.srv { store = s } }

await_store-at_rest :
    {A : Type 0} (op : ℕ → MemoryStore → A × MemoryStore) (later : ℕ) (w : World)
    → let (a, s) = op later w.srv.store in
      await_store op (at_rest later w) ≡ (returns (some a), at_rest later (with_store s w))
unfolding await_store pass_turn
await_store-at_rest op later w =
    let (a, s) = op later w.srv.store in
    let same : later + 0 ≡ later = omega arith in
    ap (λ n. (returns (some a), at_rest n (with_store s w))) same

-- Both reads find what was put, and change nothing.
module _ (room : DailyRoom) (rec : SessionRecord) (hash : String) (s : MemoryStore) (later : ℕ)
    (h : IsKept room rec hash s) where
  resolve_resume_live : later < room.ends_at → resolve_resume later hash s ≡ (some rec.sid, s)
  unfolding resolve_resume
  resolve_resume_live early = rw (get_live later (resume_key hash) _ s h.named early)

  resolve_resume_expired : room.ends_at ≤ later → (resolve_resume later hash s).0 ≡ none
  unfolding resolve_resume
  resolve_resume_expired late =
      get_as_missing as_text (get later (resume_key hash) s)
        (get_expired later (resume_key hash) _ s h.named late)

  get_session_live : later < room.ends_at → get_session later rec.sid s ≡ (some rec, s)
  unfolding get_session
  get_session_live early = rw (get_live later (session_key rec.sid) _ s h.saved early)

resume-IsMade :
    (p : Platform) (room other : DailyRoom) (made : SessionRecord × String) (later : ℕ) (w : World)
    → IsMade p room made w
    → (resume other made.1 (at_rest later w)).0
      ≡ returns
          (if ltb later room.ends_at && (room.room_id == other.room_id) then some made.0 else none)
unfolding resume resume_sid ◌>>=◌ pure world
resume-IsMade p room other (rec, token) later w h =
    let hash = w.srv.platform.hash_token token in
    let kept : IsKept room rec hash w.srv.store =
      subst (λ q. IsKept room rec (q.hash_token token) w.srv.store) (sym h.serves.same_platform)
        h.serves.stored in
    let look = await_store-at_rest (λ now. resolve_resume now hash) later w in
    let read = await_store-at_rest (λ now. get_session now rec.sid) later w in
    elim (Bool-cases (ltb later room.ends_at)) [
      | inl early ↦
          let live = ltb→lt later room.ends_at early in
          rw (
            h.token_given,
            h.token_short,
            look,
            resolve_resume_live room rec hash w.srv.store later kept live,
            h.sid_given,
            read,
            get_session_live room rec hash w.srv.store later kept live,
            belonging_to_lem room other rec h.of_room,
            early,
          )
      | inr late ↦ rw (
        h.token_given,
        h.token_short,
        look,
        resolve_resume_expired room rec hash w.srv.store later kept (ground (arith, late)),
        late,
      )
    ]

-- For a connection without a session, whatever happens while `create` waits: the token that it
-- returns resumes, at any later time, the session that it made, where the room has the same id and
-- the day of the session has not ended, and nothing in other rooms or from the day's end on.
pub resume-create :
    (w : World) (room other : DailyRoom) (input : NewSessionInput) (rec : SessionRecord)
    (token : String) (later : ℕ)
    → HasTokens w.srv.platform
    → w.conn.rec ≡ none
    → (create room input w).0 ≡ returns (rec, token)
    → (resume other token (at_rest later (create room input w).1)).0
      ≡ returns
          (if ltb later room.ends_at && (room.room_id == other.room_id) then some rec else none)
unfolding Any
resume-create w room other input rec token later fit unsaved made =
    let serves : Serves w.srv.platform Any w = record {
      no_session = unsaved;
      same_platform = refl;
      stored = tt;
    } in
    resume-IsMade w.srv.platform room other (rec, token) later (create room input w).1
      ((create-Returns fit room input).at w serves (rec, token) made)
