-- ===== src/Gateway/Connection/Waiting.antt =====
-- What an `await` in a handler of gateway/connection.ts may see, and the calls of the store that
-- the handlers wait for; `persist` and `onClose`.
use the_room_backend.Base.{
  ℕ, ◌+◌, ◌-◌, Bool, true, false, Option, none, some, List, [], ◌∷◌, ◌++◌, ◌==◌, if◌then◌else◌,
  or_else,
}
use the_room_backend.Abuse.Suspicion.{snapshot}
use the_room_backend.Store.{SessionRecord, BusEvent}
use the_room_backend.Store.Memory.{MemoryStore, save_session}
use the_room_backend.Gateway.World.{
  Connection, Server, Turn, quiet, closed_state, World, M, returns,
}

-- `Object.assign(rec, this.score.snapshot(now))`
abbrev pub with_snapshot : Server → Connection → SessionRecord → SessionRecord
with_snapshot srv c rec = record rec {
  suspicion = snapshot srv.platform.decay srv.now c.score;
  suspicion_at = srv.now;
}

-- The part of `persist` that runs at once: the record takes the score and goes to the store,
-- unless it belongs to another day than the room. A store that fails does so in silence.
unfoldable pub persist_rec : (fails : Bool) → Option SessionRecord → World → World
persist_rec fails none w = w
persist_rec fails (some rec) w =
    let rec' = with_snapshot w.srv w.conn rec in
    let kept = if fails then w.srv.store else save_session rec' w.srv.room.ends_at w.srv.store in
    let saved = record w {
      conn = record w.conn { rec = some rec' };
      srv = record w.srv { store = kept };
    } in
    if rec.room_id == w.srv.room.room_id then saved else w

unfoldable pub persist_now : (fails : Bool) → World → World
persist_now fails w = persist_rec fails w.conn.rec w

-- The socket has closed: nothing is written to it any more.
abbrev pub shut_down : Connection → Connection
shut_down c = record c {
  ws = record c.ws { ready_state = closed_state };
  closed = true;
  persist_timer = false;
}

-- `onClose` and the server's `onClosed`, as far as its count of joined sessions goes.
unfoldable pub on_close : World → World
on_close w =
    if w.conn.closed
    then w
    else let w' = persist_now false (record w { conn = shut_down w.conn }) in
      record w' {
        srv = record w'.srv {
          joined_count = if w.conn.joined then w.srv.joined_count - 1 else w.srv.joined_count;
        };
      }

-- What others do during one wait.
unfoldable pub pass_turn : Turn → World → World
pass_turn t w =
    let srv = record w.srv { now = w.srv.now + t.elapsed; room = or_else t.new_room w.srv.room } in
    let w' = record w { srv = srv } in if t.hangs_up then on_close w' else w'

-- The next turn, and the turns after it; without any the waits are quiet.
abbrev pub next_turn : List Turn → Turn × List Turn
next_turn [] = (quiet, [])
next_turn (t ∷ ts) = (t, ts)

-- `await store.op(…)`: `none` where the call fails. The operation runs before the wait.
unfoldable pub await_store : {A : Type 0} → (ℕ → MemoryStore → A × MemoryStore) → M (Option A)
await_store op w =
    let (t, ts) = next_turn w.turns in
    if t.fails
    then (returns none, pass_turn t (record w { turns = ts }))
    else let (a, store) = op w.srv.now w.srv.store in
      (
        returns (some a),
        pass_turn t (record w { turns = ts; srv = record w.srv { store = store } }),
      )

-- `await this.persist()`, whose store call fails in silence.
unfoldable pub persist : M (Unit {0})
persist w =
    let (t, ts) = next_turn w.turns in
    (returns tt, pass_turn t (persist_now t.fails (record w { turns = ts })))

-- A wait for something else than the store.
unfoldable pub wait : M (Unit {0})
wait w = let (t, ts) = next_turn w.turns in (returns tt, pass_turn t (record w { turns = ts }))

-- `void store.op(…).catch(() => {})`: nobody waits for it.
unfoldable pub store_later : (ℕ → MemoryStore → MemoryStore) → M (Unit {0})
store_later op w =
    (returns tt, record w { srv = record w.srv { store = op w.srv.now w.srv.store } })

-- `await bus.publish(…)`: `none` where it fails, and then nothing has gone to the bus.
unfoldable pub await_publish : BusEvent → M (Option (Unit {0}))
await_publish event w =
    let (t, ts) = next_turn w.turns in
    if t.fails then (returns none, pass_turn t (record w { turns = ts })) else (
      returns (some tt),
      pass_turn t (record w {
        turns = ts;
        srv = record w.srv { published = w.srv.published ++ event ∷ [] };
      }),
    )

-- An operation with no result.
abbrev pub no_result : (ℕ → MemoryStore → MemoryStore) → ℕ → MemoryStore → Unit {0} × MemoryStore
no_result op now s = (tt, op now s)
