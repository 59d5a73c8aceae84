-- ===== src/Identity/Unsaved.antt =====
-- identity/sessions.ts for a connection that has no session yet: what its waits leave as it was.
use the_room_backend.Base.{
  ℕ, ◌+◌, ◌≡◌, sym, ap, subst, ◌∙◌, Bool, true, false, Option, none, some, if◌then◌else◌, or_else,
}
use the_room_backend.Store.Memory.{MemoryStore}
use the_room_backend.Gateway.World.{Platform, Turn, World, throw, draw, Outcome, returns}
use the_room_backend.Gateway.Returns.{Returns, Returns-pure}
use the_room_backend.Gateway.Connection.Waiting.{
  await_store, next_turn, pass_turn, shut_down, on_close, persist_now, persist_rec,
}
use the_room_backend.Identity.Sessions.{or_throw}

-- A connection that has no session yet, and a store of which `S` holds.
pub record Serves (p : Platform) (S : MemoryStore → Type 0) (w : World) : Type 0 where
  pub no_session : w.conn.rec ≡ none
  pub same_platform : w.srv.platform ≡ p
  pub stored : S w.srv.store

unfoldable pub Any : MemoryStore → Type 0
Any s = Unit {0}

-- What is known where a call of the store has not failed.
unfoldable pub Answered :
    {A : Type 0} → Platform → (A → MemoryStore → Type 0) → Option A → World → Type 0
Answered p T none w = Unit {0}
Answered p T (some a) w = Serves p (T a) w

pub if_keeps :
    {A : Type 0} (P : A → Type 0) (b : Bool) (x y : A) → P x → P y → P (if b then x else y)
if_keeps P true x y hx hy = hx
if_keeps P false x y hx hy = hy

-- Nothing is saved for a connection that has no session.
pub persist_now-none : (fails : Bool) (w : World) → w.conn.rec ≡ none → persist_now fails w ≡ w
unfolding persist_now persist_rec
persist_now-none fails w h = ap (λ r. persist_rec fails r w) h

on_close-Serves :
    (p : Platform) (S : MemoryStore → Type 0) (w : World) → Serves p S w → Serves p S (on_close w)
unfolding on_close
on_close-Serves p S w h =
    let shut = record w { conn = shut_down w.conn } in
    let same = persist_now-none false shut h.no_session in
    if_keeps (Serves p S) w.conn.closed _ _ h (record {
      no_session = ap (λ v. v.conn.rec) same ∙ h.no_session;
      same_platform = ap (λ v. v.srv.platform) same ∙ h.same_platform;
      stored = subst (λ v. S v.srv.store) (sym same) h.stored;
    })

pass_turn-Serves :
    (p : Platform) (S : MemoryStore → Type 0) (t : Turn) (w : World)
    → Serves p S w
    → Serves p S (pass_turn t w)
unfolding pass_turn
pass_turn-Serves p S t w h =
    let moved = record w {
      srv = record w.srv { now = w.srv.now + t.elapsed; room = or_else t.new_room w.srv.room };
    } in
    let serves : Serves p S moved = record {
      no_session = h.no_session;
      same_platform = h.same_platform;
      stored = h.stored;
    } in
    if_keeps (Serves p S) t.hangs_up _ _ (on_close-Serves p S moved serves) serves

if_answer :
    {A : Type 0} (Q : A → World → Type 0) (b : Bool) (x y : Outcome A × World) (a : A)
    → (x.0 ≡ returns a → Q a x.1)
    → (y.0 ≡ returns a → Q a y.1)
    → (if b then x else y).0 ≡ returns a
    → Q a (if b then x else y).1
if_answer Q true x y a kx ky e = kx e
if_answer Q false x y a kx ky e = ky e

returned :
    {A : Type 0} (Q : A → World → Type 0) {a b : A} {w : World}
    → returns a ≡ returns b
    → Q a w
    → Q b w
returned Q {a} {b} {w} e h = let same : a ≡ b = cc e in subst (λ x. Q x w) same h

pub or_throw-Returns :
    {A : Type 0} {p : Platform} (T : A → MemoryStore → Type 0) (answer : Option A)
    → Returns (Answered p T answer) (or_throw answer) (λ a. Serves p (T a))
unfolding Answered throw
or_throw-Returns T none = record { at = λ w h a e. absurd (cc e) }
or_throw-Returns T (some a) = Returns-pure a (λ w h. h)

pub or_throw-none :
    {A : Type 0} (P : World → Type 0) → Returns P (or_throw {A = A} none) (λ a w. true ≡ false)
unfolding throw
or_throw-none P = record { at = λ w h a e. absurd (cc e) }

pub or_throw-same :
    {A : Type 0} (P : World → Type 0) (answer : Option A) → Returns P (or_throw answer) (λ a. P)
unfolding throw
or_throw-same P none = record { at = λ w h a e. absurd (cc e) }
or_throw-same P (some a) = Returns-pure a (λ w h. h)

module _ {p : Platform} {S : MemoryStore → Type 0} where
  pub await_store-Returns :
      {A : Type 0} (T : A → MemoryStore → Type 0) (op : ℕ → MemoryStore → A × MemoryStore)
      → ((now : ℕ) (s : MemoryStore) → S s → T (op now s).0 (op now s).1)
      → Returns (Serves p S) (await_store op) (Answered p T)
  unfolding await_store Answered
  await_store-Returns T op k = record {
    at = λ w h answer.
        let (t, ts) = next_turn w.turns in
        let (a, kept) = op w.srv.now w.srv.store in
        if_answer (Answered p T) t.fails _ _ answer (λ e. returned (Answered p T) e tt)
          (λ e. returned (Answered p T) e (
            pass_turn-Serves p (T a) t
              (record w { turns = ts; srv = record w.srv { store = kept } })
              (record {
                no_session = h.no_session;
                same_platform = h.same_platform;
                stored = k w.srv.now w.srv.store h.stored;
              })));
  }

  pub draw-Returns : Returns (Serves p S) draw (λ n. Serves p S)
  unfolding draw
  draw-Returns = record {
    at = λ w h n e. record {
      no_session = h.no_session;
      same_platform = h.same_platform;
      stored = h.stored;
    };
  }
