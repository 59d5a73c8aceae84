-- ===== src/Identity/Steady.antt =====
-- identity/sessions.ts for a connection that has no session yet, where no call of the store fails.
use the_room_backend.Base.{
  ℕ, suc, ◌+◌, ◌≡◌, refl, sym, ap, subst, ◌∙◌, true, false, Option, none, some, List, [], ◌∷◌,
  or_else, All,
}
use the_room_backend.Store.Memory.{MemoryStore}
use the_room_backend.Gateway.World.{Platform, Turn, World, draw}
use the_room_backend.Gateway.Works.{Ends, Works, Works-pure}
use the_room_backend.Gateway.Connection.Waiting.{
  await_store, next_turn, pass_turn, shut_down, on_close,
}
use the_room_backend.Identity.Sessions.{or_throw}
use the_room_backend.Identity.Unsaved.{if_keeps, persist_now-none}

unfoldable pub IsWorking : Turn → Type 0
IsWorking t = t.fails ≡ false

-- A connection that has no session yet, whose calls of the store work; the store and the number of
-- the draws so far are as `S` and `D` say.
pub record IsReady (p : Platform) (S : MemoryStore → Type 0) (D : ℕ → Type 0) (w : World)
    : Type 0 where
  pub no_session : w.conn.rec ≡ none
  pub same_platform : w.srv.platform ≡ p
  pub stored : S w.srv.store
  pub drawn : D w.srv.draws
  pub works : All IsWorking w.turns

module _ (p : Platform) (S : MemoryStore → Type 0) (D : ℕ → Type 0) where
  on_close-IsReady : (w : World) → IsReady p S D w → IsReady p S D (on_close w)
  unfolding on_close
  on_close-IsReady w h =
      let shut = record w { conn = shut_down w.conn } in
      let same = persist_now-none false shut h.no_session in
      if_keeps (IsReady p S D) w.conn.closed _ _ h (record {
        no_session = ap (λ v. v.conn.rec) same ∙ h.no_session;
        same_platform = ap (λ v. v.srv.platform) same ∙ h.same_platform;
        stored = subst (λ v. S v.srv.store) (sym same) h.stored;
        drawn = subst (λ v. D v.srv.draws) (sym same) h.drawn;
        works = subst (λ v. All IsWorking v.turns) (sym same) h.works;
      })

  pass_turn-IsReady : (t : Turn) (w : World) → IsReady p S D w → IsReady p S D (pass_turn t w)
  unfolding pass_turn
  pass_turn-IsReady t w h =
      let moved = record w {
        srv = record w.srv { now = w.srv.now + t.elapsed; room = or_else t.new_room w.srv.room };
      } in
      let ready : IsReady p S D moved = record {
        no_session = h.no_session;
        same_platform = h.same_platform;
        stored = h.stored;
        drawn = h.drawn;
        works = h.works;
      } in
      if_keeps (IsReady p S D) t.hangs_up _ _ (on_close-IsReady moved ready) ready

next_turn-works :
    (ts : List Turn)
    → All IsWorking ts
    → ((next_turn ts).0.fails ≡ false) × All IsWorking (next_turn ts).1
unfolding IsWorking
next_turn-works [] h = (refl, tt)
next_turn-works (t ∷ ts) h = h

unfoldable pub Answers :
    {A : Type 0} → Platform → (A → MemoryStore → Type 0) → (ℕ → Type 0) → Option A → World → Type 0
Answers p T D none w = true ≡ false
Answers p T D (some a) w = IsReady p (T a) D w

module _ {p : Platform} {S : MemoryStore → Type 0} {D : ℕ → Type 0} where
  pub await_store-Works :
      {A : Type 0} (T : A → MemoryStore → Type 0) (op : ℕ → MemoryStore → A × MemoryStore)
      → ((now : ℕ) (s : MemoryStore) → S s → T (op now s).0 (op now s).1)
      → Works (IsReady p S D) (await_store op) (Answers p T D)
  unfolding await_store Answers Ends
  await_store-Works T op k = record {
    at = λ w h.
        let (t, ts) = next_turn w.turns in
        let (a, kept) = op w.srv.now w.srv.store in
        let (works, later) = next_turn-works w.turns h.works in
        rw works (
          pass_turn-IsReady p (T a) D t
            (record w { turns = ts; srv = record w.srv { store = kept } })
            (record {
              no_session = h.no_session;
              same_platform = h.same_platform;
              stored = k w.srv.now w.srv.store h.stored;
              drawn = h.drawn;
              works = later;
            }));
  }

  pub draw-Works : Works (IsReady p S D) draw (λ n w. D n × IsReady p S (λ m. m ≡ suc n) w)
  unfolding draw Ends
  draw-Works = record {
    at = λ w h. (
      h.drawn,
      record {
        no_session = h.no_session;
        same_platform = h.same_platform;
        stored = h.stored;
        drawn = refl;
        works = h.works;
      },
    );
  }

pub or_throw-Works :
    {A : Type 0} {p : Platform} (T : A → MemoryStore → Type 0) (D : ℕ → Type 0) (answer : Option A)
    → Works (Answers p T D answer) (or_throw answer) (λ a. IsReady p (T a) D)
unfolding Answers
or_throw-Works T D none = record { at = λ w h. absurd (cc h) }
or_throw-Works T D (some a) = Works-pure a (λ w h. h)
