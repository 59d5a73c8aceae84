-- ===== src/Gateway/Invariant/Steps.antt =====
-- The connection's own steps keep it sound: the socket, the score, the waits.
use the_room_backend.Base.{
  ℕ, ◌+◌, ◌*◌, ◌≤◌, ◌≡◌, refl, Bool, false, Option, List, String, arith, or_else, Bool-cases, inl,
  inr,
}
use the_room_backend.Base.Int.{pos}
use the_room_backend.Abuse.RateLimit.{reconfigure, TokenBucket, Tier, unit}
use the_room_backend.Abuse.Suspicion.{Signal, SuspicionScore, points, add, value}
use the_room_backend.Abuse.Suspicion.Thresholds
use the_room_backend.Protocol.{ClientEvent, ServerEvent, CloseCode}
use the_room_backend.Room.Day.{DailyRoom}
use the_room_backend.Store.Memory.{MemoryStore}
use the_room_backend.Gateway.World.{
  AdmitInfo, Connection, Server, tier_of, Turn, World, M, ◌>>=◌, on_conn, on_srv,
}
use the_room_backend.Gateway.Keeps.{Keeps, Keeps-on_conn, Keeps-on_srv, Keeps-on_srv, keeps_rules}
use the_room_backend.Gateway.Connection.Transport.{send, send_raw_to, close, close_with, terminate}
use the_room_backend.Gateway.Connection.Scoring.{signal, trusted, signal_at, apply_tier, level_for}
use the_room_backend.Gateway.Connection.Waiting.{
  persist_now, persist_rec, shut_down, next_turn, on_close, pass_turn, await_store, persist, wait,
  store_later,
}
use the_room_backend.Gateway.Invariant.{IsSoundAs, SameService, Sound, Serving}

reconfigure_lem :
    (t : Tier) (now : ℕ) (b : TokenBucket)
    → ((reconfigure t now b).tokens ≤ t.capacity * unit) × ((reconfigure t now b).tier ≡ t)
unfolding reconfigure
reconfigure_lem t now b = (omega arith, refl)

add-le_most :
    (decay : ℕ → ℕ → ℕ) (g : Signal) (now : ℕ) (trusted : Bool) (s : SuspicionScore)
    → (add decay (pos (points g)) now trusted s).score ≤ Thresholds.most
unfolding add
add-le_most decay g now trusted s = omega arith

module _ (k : String) (i : AdmitInfo) (n : ℕ) (q : List (Option ClientEvent)) where
  pub apply_tier-IsSoundAs :
      (decay : ℕ → ℕ → ℕ) (now : ℕ) (c : Connection)
      → IsSoundAs k i n q c
      → IsSoundAs k i n q (apply_tier decay now c)
  unfolding apply_tier
  apply_tier-IsSoundAs decay now c h =
      ground (arith, reconfigure_lem (tier_of (level_for (value decay now c.score))) now c.bucket)

  pub signal_at-IsSoundAs :
      (decay : ℕ → ℕ → ℕ) (now : ℕ) (g : Signal) (c : Connection)
      → IsSoundAs k i n q c
      → IsSoundAs k i n q (signal_at decay now g c)
  unfolding signal_at
  signal_at-IsSoundAs decay now g c h =
      let scored = record c { score = add decay (pos (points g)) now (trusted now c) c.score } in
      let sound : IsSoundAs k i n q scored =
        ground (arith, add-le_most decay g now (trusted now c) c.score) in
      let tiered = apply_tier-IsSoundAs decay now scored sound in ground (arith, tiered)

-- An update of the connection alone, and one of the server alone.
module _ (k : String) (i : AdmitInfo) (n : ℕ) (q : List (Option ClientEvent)) (s : Server) where
  pub Keeps-conn :
      (f : Connection → Connection)
      → ((c : Connection) → IsSoundAs k i n q c → IsSoundAs k i n q (f c))
      → Keeps (Serving k i n q s) (on_conn f)
  Keeps-conn f kf = Keeps-on_conn f (λ w h. (kf w.conn h.0, h.1))

  pub Keeps-srv :
      (f : Server → Server)
      → ((s' : Server) → SameService s s' → SameService s (f s'))
      → Keeps (Serving k i n q s) (on_srv f)
  Keeps-srv f kf = Keeps-on_srv f (λ w h. (h.0, kf w.srv h.1))

module _ (k : String) (i : AdmitInfo) (n : ℕ) (q : List (Option ClientEvent)) (s : Server) where
  pub send-Keeps : (evt : ServerEvent) → Keeps (Serving k i n q s) (send evt)
  unfolding send send_raw_to
  send-Keeps evt = Keeps-conn k i n q s _ (λ c h. ground arith)

  pub close-Keeps : (code : CloseCode) → Keeps (Serving k i n q s) (close code)
  unfolding close close_with
  close-Keeps code = Keeps-conn k i n q s _ (λ c h. ground arith)

  persist_now-Serving :
      (fails : Bool) (w : World) → Serving k i n q s w → Serving k i n q s (persist_now fails w)
  unfolding persist_now persist_rec
  persist_now-Serving fails w h = ground arith

  pub on_close-Serving : (w : World) → Serving k i n q s w → Serving k i n q s (on_close w)
  unfolding on_close
  on_close-Serving w h =
      let shut = record w { conn = shut_down w.conn } in
      ground
        (arith, persist_now-Serving false shut (let r : Serving k i n q s shut = ground arith in r))

  -- The clock, the room and the store are the server's to change.
  moved-Serving :
      (w : World) (now : ℕ) (room : DailyRoom) (store : MemoryStore) (turns : List Turn)
      → Serving k i n q s w
      → Serving k i n q s
          (record w { srv = record w.srv { now = now; room = room; store = store }; turns = turns })
  moved-Serving w now room store turns h = (
    h.0,
    record {
      same_published = h.1.same_published;
      same_instance = h.1.same_instance;
      same_platform = h.1.same_platform;
      same_config = h.1.same_config;
    },
  )

  pub pass_turn-Serving :
      (t : Turn) (w : World) → Serving k i n q s w → Serving k i n q s (pass_turn t w)
  unfolding pass_turn
  pass_turn-Serving t w h = ground (
    arith,
    on_close-Serving
        (record w {
          srv = record w.srv { now = w.srv.now + t.elapsed; room = or_else t.new_room w.srv.room };
        })
        (moved-Serving w (w.srv.now + t.elapsed) (or_else t.new_room w.srv.room) w.srv.store w.turns
          h),
  )

  pub signal-Keeps : (g : Signal) → Keeps (Serving k i n q s) (signal g)
  unfolding signal ◌>>=◌
  signal-Keeps g = record {
    at = λ w h. (signal_at-IsSoundAs k i n q w.srv.platform.decay w.srv.now g w.conn h.0, h.1);
  }

  pub await_store-Keeps :
      {A : Type 0} (op : ℕ → MemoryStore → A × MemoryStore)
      → Keeps (Serving k i n q s) (await_store op)
  unfolding await_store
  await_store-Keeps op = record {
    at = λ w h.
        let (t, ts) = next_turn w.turns in
        let kept = (op w.srv.now w.srv.store).1 in
        elim (Bool-cases (next_turn w.turns).0.fails) [
          | inl e ↦ rw e (pass_turn-Serving t (record w { turns = ts }) h)
          | inr e ↦ rw e (
              pass_turn-Serving t (record w { turns = ts; srv = record w.srv { store = kept } })
                (moved-Serving w w.srv.now w.srv.room kept ts h))
        ];
  }

  pub persist-Keeps : Keeps (Serving k i n q s) persist
  unfolding persist
  persist-Keeps = record {
    at = λ w h. pass_turn-Serving (next_turn w.turns).0 _ (
        persist_now-Serving (next_turn w.turns).0.fails (record w { turns = (next_turn w.turns).1 })
          h);
  }

  pub terminate-Keeps : Keeps (Serving k i n q s) terminate
  unfolding terminate
  terminate-Keeps = Keeps-conn k i n q s _ (λ c h. ground arith)

  pub wait-Keeps : Keeps (Serving k i n q s) wait
  unfolding wait
  wait-Keeps = record {
    at = λ w h.
        pass_turn-Serving (next_turn w.turns).0 (record w { turns = (next_turn w.turns).1 }) h;
  }

  pub store_later-Keeps :
      (op : ℕ → MemoryStore → MemoryStore) → Keeps (Serving k i n q s) (store_later op)
  unfolding store_later
  store_later-Keeps op = record {
    at = λ w h. moved-Serving w w.srv.now w.srv.room (op w.srv.now w.srv.store) w.turns h;
  }

module _ (k : String) (i : AdmitInfo) (n : ℕ) (q : List (Option ClientEvent)) where
  -- What serves whatever the server is keeps the connection sound.
  pub Keeps-Sound :
      {A : Type 0} (m : M A)
      → ((s' : Server) → Keeps (Serving k i n q s') m)
      → Keeps (Sound k i n q) m
  Keeps-Sound m km = record {
    at = λ w h.
        ((km w.srv).at w (
          h,
          record {
            same_published = refl;
            same_instance = refl;
            same_platform = refl;
            same_config = refl;
          },
        )).0;
  }

  pub on_close-Sound : (w : World) → Sound k i n q w → Sound k i n q (on_close w)
  on_close-Sound w h =
      (on_close-Serving k i n q w.srv w (
        h,
        record {
          same_published = refl;
          same_instance = refl;
          same_platform = refl;
          same_config = refl;
        },
      )).0

pub ruleset waits = (
  keeps_rules, send-Keeps, close-Keeps, signal-Keeps, await_store-Keeps, persist-Keeps, wait-Keeps,
  store_later-Keeps,
)
