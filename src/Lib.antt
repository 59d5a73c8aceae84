-- ===== src/Lib.antt =====
-- The room backend: a chat server with one anonymous room a day. Every browser holds a WebSocket
-- to it; at midnight of the configured timezone the room and all identities are replaced.
--
-- The parts, and where they are modelled (paths from the repository's root):
--   * src/protocol.ts: the events of the wire (Protocol). Frames are the values that they encode.
--   * src/store/types.ts, src/store/memory.ts: records, bus events and the in-process store
--     (Store, Store/Memory), one function per method, with `nowFn()` as the argument `now`.
--     Store/Memory/Claims, Messages and Counters say what names, locks, blocks, the history and
--     the counters promise.
--   * src/store/redis.ts: the same store over the commands of a Redis server (Store/Redis):
--     Operations has one function per method of `RedisStore`, over the interface `Commands`.
--     Agreement and Runs say where its answers are those of the in-process store.
--   * src/abuse/rate-limit.ts, suspicion.ts, challenge.ts: the token bucket and the cooldown
--     (Abuse/RateLimit), the score and the timing analyser (Abuse/Suspicion), the verifiers
--     (Abuse/Challenge).
--   * src/messaging/validate.ts: `normalizeText` and `fingerprint` (Messaging/Validate), on lists
--     of code points; Accepted says what an accepted text is like.
--   * src/room/day.ts, src/room/clock.ts: the calendar of the daily room (Room/Day, with
--     Calendar and Fixed) and the clock that follows the store's (Room/Clock).
--   * src/identity/names.ts, sessions.ts: names, and `create` and `resume` (Identity);
--     Pattern says that the names are those of `PUBLIC_NAME_RE`, Unsaved and Resuming which session
--     a token resumes, Steady and Creating when `create` returns.
--   * src/gateway/connection.ts: one connection (Gateway/Connection): Transport, Scoring, Waiting
--     (`persist`, `onClose` and every `await`), Enforcement (`escalate` to `blocked`), Join,
--     Sending (`handleSend`, `decide`), Frames (`onFrame`, `handle`, `ping`, `report`), Life
--     (what can happen to a connection, as a step relation).
--   * src/gateway/room-server.ts: the server (Gateway/RoomServer): State, Admission, Handshakes
--     (`onUpgrade`: the requests that wait for the store at once, as a step relation), Fanout,
--     Presence, Rollover; Capacity, Counting, Backoff, Delivery, Kicking and Excluded say what
--     these promise.
--   * src/http/routes.ts: the endpoints beside the WebSocket (Http): Request (what a request and a
--     body are, and the schemas), Effects (calls that may fail, `readJson`), Admin, Routes. Safety,
--     Errors, Blocks and Bounds say what an answer means for the server. `safeEqual` of
--     src/identity/tokens.ts is there too.
--   * src/net/origin.ts, src/net/ip.ts: the allowed origins and the keys of clients' networks (Net),
--     on lists of character codes (Net/Text). Pattern and Admitted say what an entry admits, Proxies
--     and Subnet what a client's address and its network's key are.
--   * src/config.ts: `loadConfig` (Config); Config/Origins and Checked say what its result is.
--
-- How they interact: a handler of a connection is an action on a `World` (Gateway/World): the
-- connection, the part of the server that it shares with the others (store, clock, room, bus,
-- counters), and a list of turns. At each `await` the next turn says what happens meanwhile:
-- whether the call fails, how much time passes, whether the server's room changes and whether the
-- client hangs up; a call that fails leaves nothing in the store or on the bus. What others write
-- to the store meanwhile is no part of a turn. An action returns or throws; what it wrote before a
-- throw stays. Theorems about handlers hold for every list of turns. Gateway/Keeps has a rule for
-- each way to build an action, Gateway/Returns and Gateway/Works one for where it returns,
-- Gateway/Invariant what every handler keeps, Gateway/Answers what the reply to a message means,
-- its child Rooms in which rooms a message may land.
--
-- Numbers: times are milliseconds since 1970. Points of suspicion are counted in thousandths,
-- tokens of a bucket in hundred-thousandths and rates in hundredths of a token a second; there
-- every constant of the program is a whole number, and the rounding of its floating-point sums is
-- not modelled. A time that is subtracted from an earlier one gives 0 where the program would have
-- a negative number; its clock does not run backwards.
-- Loops: `create` tries ten names and `join` two rounds, as the source does; the other loops follow
-- a list. No definition takes fuel.
--
-- Parameters: `isIP` and `toLowerCase` are arguments of the definitions of net/ and config.ts,
-- what `RegExp` makes of a scheme with other characters than letters, digits and hyphens is one of
-- net/ (`regexp`), and the test of a public name one of the endpoints (`is_public_name` in the
-- program); hashes, random draws, the powers of one half, how the wait for a token is rounded
-- (`waits`), the Unicode and the timezone database and the siteverify service are fields of
-- `Platform` and `Verifier`. The theorems on the decay of a score name what they use of it
-- (`IsDecay`). A Redis server is `Commands`, with what its documentation says of strings
-- (`IsRedis`); the JSON of its values is `Codec`.
--
-- Not modelled: the connection, the clock and the pub/sub of src/store/redis.ts, zod's reading of
-- the environment in src/config.ts and of frames in src/protocol.ts, and the rest of
-- src/identity/tokens.ts, which are calls of libraries; the timers of src/room/clock.ts;
-- src/app.ts, src/index.ts and src/observability/, which construct the parts and write logs; the
-- JSON text of frames. Events of the connection that come while a handler waits, other than
-- its close, are in the model events before or after it.
mod Base
pub mod Protocol
pub mod Store
pub mod Abuse
pub mod Messaging
pub mod Room
pub mod Gateway
pub mod Identity
pub mod Net
pub mod Config
pub mod Http
mod Examples
