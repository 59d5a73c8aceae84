-- ===== src/Gateway/Invariant/Draining.antt =====
-- The chain of promises in gateway/connection.ts (`onFrame`): frames are handled in order, and all are.
use the_room_backend.Base.{ℕ, zero, suc, ◌-◌, Option, List, [], ◌∷◌, drop}
use the_room_backend.Protocol.{ClientEvent}
use the_room_backend.Gateway.World.{World}
use the_room_backend.Gateway.Connection.Frames.{handle, run_queue}

-- `n` frames are handled, one after the other.
unfoldable pub handlings : (n : ℕ) → World → World
handlings zero w = w
handlings (suc n) w = handlings n (run_queue w)

-- The frame at the front is handled, and whether that returns or throws, the next one has its turn.
unfoldable pub handled : List (Option ClientEvent) → World → World
handled [] w = w
handled (frame ∷ frames) w =
    let started = record w { conn = record w.conn { queue = drop 1 w.conn.queue } } in
    let w' = (handle frame started).1 in
    handled frames (record w' { conn = record w'.conn { queued = w'.conn.queued - 1 } })
