-- ===== src/Identity/Creating.antt =====
-- identity/sessions.ts: `create` returns where no call fails and one of its ten names is free.
use the_room_backend.Base.{
  ℕ, zero, suc, ◌+◌, ◌*◌, ◌<◌, ◌≡◌, refl, sym, ap, subst, ◌∙◌, Bool, true, false, Option, none,
  some, String, leb, arith, is_some, Bool-cases, Option-cases, inl, inr, All,
}
use the_room_backend.Base.Dict.{lookup}
use the_room_backend.Room.Day.{DailyRoom}
use the_room_backend.Store.{SessionRecord}
use the_room_backend.Store.Memory.{
  MemoryStore, Value, name_key, put_if_free, get, claim_name, set_resume,
}
use the_room_backend.Gateway.World.{Platform, World, Outcome, M, returns, throws, ◌>>=◌, pure}
use the_room_backend.Gateway.Works.{
  Ends, Works, Works-nowhere, Works-pure, Works-if, Works-weaken, Works-world, Works-given,
  Works-bind,
}
use the_room_backend.Gateway.Connection.Waiting.{await_store, no_result}
use the_room_backend.Identity.Names.{generate_public_name}
use the_room_backend.Identity.Sessions.{
  NewSessionInput, or_throw, draw_name, claim_loop, open_session, create,
}
use the_room_backend.Identity.Steady.{
  IsWorking, IsReady, await_store-Works, draw-Works, or_throw-Works, Answers,
}

-- The name that is made from the draw `d` on.
unfoldable pub name_at : Platform → (d : ℕ) → String
name_at p d =
    generate_public_name (p.random_int d 67) (p.random_int (suc d) 69)
      (p.random_int (suc (suc d)) 9000)

-- Nobody has the name.
unfoldable pub IsFree : DailyRoom → (name : String) → MemoryStore → Type 0
IsFree room name s = lookup (name_key room.room_id name) s.kv ≡ none

put_if_free-none :
    (now : ℕ) (k : String) (v : Value) (exp : ℕ) (s : MemoryStore)
    → lookup k s.kv ≡ none
    → (put_if_free now k v exp s).0 ≡ true
unfolding put_if_free get
put_if_free-none now k v exp s h = rw h

-- A refused claim leaves free what was free.
put_if_free_refused :
    (now : ℕ) (k j : String) (v : Value) (exp : ℕ) (s : MemoryStore)
    → (put_if_free now k v exp s).0 ≡ false
    → lookup j s.kv ≡ none
    → lookup j (put_if_free now k v exp s).1.kv ≡ none
unfolding put_if_free get
put_if_free_refused now k j v exp s refused free = elim (Option-cases (lookup k s.kv)) [
  | inl h ↦ absurd (ground (arith, h, refused))
  | inr (e, h) ↦ elim (Bool-cases (leb e.exp now)) [
    | inl late ↦ absurd (ground (arith, h, late, refused))
    | inr early ↦ rw (h, early) free
  ]
]

Any : MemoryStore → Type 0
Any s = Unit {0}

module _ {p : Platform} {S : MemoryStore → Type 0} where
  draw_name-Works :
      (d : ℕ)
      → Works
          (IsReady p S (λ m. m ≡ d))
          draw_name
          (λ name w. (name ≡ name_at p d) × IsReady p S (λ m. m ≡ 3 + d) w)
  unfolding draw_name name_at
  draw_name-Works d = Works-bind Works-world (λ seen. Works-given (λ known.
      Works-bind draw-Works (λ adj. Works-given (λ at_adj. Works-bind draw-Works (λ animal.
        Works-given (λ at_animal. Works-bind draw-Works (λ number. Works-given (λ at_number.
          Works-pure _ (λ w h. (
            cc (known.same_platform, at_adj, at_animal, at_number),
            record {
              no_session = h.no_session;
              same_platform = h.same_platform;
              stored = h.stored;
              drawn = omega (arith, h.drawn, at_adj, at_animal, at_number);
              works = h.works;
            },
          ))))))))))

-- A claim that is refused leaves another of the names to come free.
abbrev Claimed : DailyRoom → (i : ℕ) → (name : String) → (claimed : Bool) → MemoryStore → Type 0
Claimed room i name claimed s = claimed ≡ false → (0 < i) × IsFree room name s

module _ (p : Platform) where
  claim-Claimed :
      (room : DailyRoom) (sid : String) (i d now : ℕ) (s : MemoryStore)
      → IsFree room (name_at p (d + 3 * i)) s
      → let (claimed, s') = claim_name now room.room_id (name_at p d) sid room.ends_at s in
        Claimed room i (name_at p (d + 3 * i)) claimed s'
  unfolding claim_name IsFree
  claim-Claimed room sid zero d now s free refused =
      let same : d + 3 * 0 ≡ d = omega arith in
      let here = subst (λ n. lookup (name_key room.room_id (name_at p n)) s.kv ≡ none) same free in
      absurd (
        cc (
          refused,
          put_if_free-none now (name_key room.room_id (name_at p d)) (Value.text sid) room.ends_at s
              here,
        ))
  claim-Claimed room sid (suc i) d now s free refused =
      (omega arith, put_if_free_refused now _ _ _ _ s refused free)

  again-Works :
      (tries i d : ℕ) (room : DailyRoom) (claimed : Bool) {m : M (Option String)}
      {Q : Option String → World → Type 0}
      → claimed ≡ false
      → i < suc tries
      → ((j : ℕ)
          → j < tries
          → Works (IsReady p (IsFree room (name_at p (3 + d + 3 * j))) (λ n. n ≡ 3 + d)) m Q)
      → Works (IsReady p (Claimed room i (name_at p (d + 3 * i)) claimed) (λ n. n ≡ 3 + d)) m Q
  again-Works tries zero d room claimed refused lt again = record {
    at = λ w h. absurd (omega (arith, (h.stored refused).0));
  }
  again-Works tries (suc j) d room claimed refused lt again =
      let same : d + 3 * suc j ≡ 3 + d + 3 * j = omega arith in
      Works-weaken
        (λ w h. record {
          no_session = h.no_session;
          same_platform = h.same_platform;
          stored = subst (λ n. IsFree room (name_at p n) w.srv.store) same (h.stored refused).1;
          drawn = h.drawn;
          works = h.works;
        })
        (again j (omega (arith, lt)))

  claim_loop-Works :
      (tries i d : ℕ) (room : DailyRoom) (sid : String)
      → i < tries
      → Works
          (IsReady p (IsFree room (name_at p (d + 3 * i))) (λ m. m ≡ d))
          (claim_loop tries room sid)
          (λ found w. (is_some found ≡ true) × IsReady p Any (λ m. Unit {0}) w)
  unfolding claim_loop Any
  claim_loop-Works zero i d room sid lt = absurd (omega (arith, lt))
  claim_loop-Works (suc tries) i d room sid lt = Works-bind (draw_name-Works d) (λ candidate.
      Works-given (λ named.
        Works-bind
          (await_store-Works (Claimed room i (name_at p (d + 3 * i))) _ (λ now s free.
            subst
              (λ name.
                let (claimed, s') = claim_name now room.room_id name sid room.ends_at s in
                Claimed room i (name_at p (d + 3 * i)) claimed s')
              (sym named) (claim-Claimed room sid i d now s free)))
          (λ answer. Works-bind (or_throw-Works _ _ answer) (λ claimed.
            Works-if _ _ _
              (λ granted. Works-pure _ (λ w h. (
                refl,
                record {
                  no_session = h.no_session;
                  same_platform = h.same_platform;
                  stored = tt;
                  drawn = tt;
                  works = h.works;
                },
              )))
              (λ refused.
                again-Works tries i d room claimed refused lt
                  (λ j le. claim_loop-Works tries j (3 + d) room sid le))))))

  second-Works :
      (room : DailyRoom) (rec : SessionRecord) (hash token : String) (first : Option (Unit {0}))
      → Works {A = SessionRecord × String}
          (Answers p (λ done. Any) (λ m. Unit {0}) first)
          (await_store (no_result (λ now. set_resume hash rec.sid room.ends_at)) >>= λ second.
            or_throw first >>= λ done. or_throw second >>= λ done. pure (rec, token))
          (λ made w. Unit {0})
  unfolding Answers Any
  second-Works room rec hash token none = Works-nowhere _ _
  second-Works room rec hash token (some done) =
      Works-bind (await_store-Works (λ done. Any) _ (λ now s h. tt)) (λ second.
        Works-bind (Works-pure done (λ w h. h)) (λ done.
          Works-bind (or_throw-Works {p = p} (λ done. Any) (λ m. Unit {0}) second)
            (λ done. Works-pure _ (λ w h. tt))))

  open_session-Works :
      (room : DailyRoom) (rec : SessionRecord)
      → Works (IsReady p Any (λ m. Unit {0})) (open_session room rec) (λ made w. Unit {0})
  unfolding open_session Any
  open_session-Works room rec = Works-bind Works-world (λ seen. Works-given (λ known.
      Works-bind draw-Works (λ n. Works-given (λ at_n.
        Works-bind
          (Works-weaken
            (λ w h. record {
              no_session = h.no_session;
              same_platform = h.same_platform;
              stored = tt;
              drawn = tt;
              works = h.works;
            })
            (await_store-Works (λ done. Any) _ (λ now s h. tt)))
          (λ first. second-Works room rec _ _ first)))))

  found-Works :
      (found : Option String)
      → Works
          (λ w. (is_some found ≡ true) × IsReady p Any (λ m. Unit {0}) w)
          (or_throw found)
          (λ name. IsReady p Any (λ m. Unit {0}))
  found-Works none = record { at = λ w h. absurd (cc h.0) }
  found-Works (some name) = Works-pure name (λ w h. h.1)

  create-Works :
      (i d : ℕ) (room : DailyRoom) (input : NewSessionInput)
      → i < 10
      → Works
          (IsReady p (IsFree room (name_at p (suc d + 3 * i))) (λ m. m ≡ d))
          (create room input)
          (λ made w. Unit {0})
  unfolding create
  create-Works i d room input lt = Works-bind Works-world (λ seen. Works-given (λ known.
      Works-bind draw-Works (λ n. Works-given (λ at_n.
        Works-bind
          (Works-weaken
            (λ w h. record {
              no_session = h.no_session;
              same_platform = h.same_platform;
              stored = h.stored;
              drawn = h.drawn ∙ ap suc at_n;
              works = h.works;
            })
            (claim_loop-Works 10 i (suc d) room _ lt))
          (λ found. Works-bind (found-Works found) (λ name. open_session-Works room _))))))

Ends-returns :
    {A : Type 0} (Q : A → World → Type 0) (r : Outcome A) (w : World)
    → Ends Q r w
    → (a : A) × (r ≡ returns a)
unfolding Ends
Ends-returns Q (returns a) w h = (a, refl)
Ends-returns Q throws w h = absurd (cc h)

-- For a connection without a session, where no call of the store fails and nobody else writes the
-- store meanwhile, whatever time passes, also if the room changes or the client hangs up: if one of
-- the ten names that the next draws make is free, `create` returns.
pub create_returns :
    (w : World) (room : DailyRoom) (input : NewSessionInput) (i : ℕ)
    → i < 10
    → w.conn.rec ≡ none
    → All IsWorking w.turns
    → IsFree room (name_at w.srv.platform (suc w.srv.draws + 3 * i)) w.srv.store
    → (made : SessionRecord × String) × ((create room input w).0 ≡ returns made)
create_returns w room input i lt unsaved works free =
    Ends-returns (λ made v. Unit {0}) (create room input w).0 (create room input w).1
      ((create-Works w.srv.platform i w.srv.draws room input lt).at w (record {
        no_session = unsaved;
        same_platform = refl;
        stored = free;
        drawn = refl;
        works = works;
      }))
