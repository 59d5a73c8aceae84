-- ===== src/Gateway/Connection/Transport.antt =====
-- gateway/connection.ts: the socket (`send`, `sendRaw`, `close`, `terminate`, `heartbeat`).
use the_room_backend.Base.{
  ℕ, ◌-◌, Bool, true, false, not, ◌||◌, some, [], ◌∷◌, ◌++◌, ltb, if◌then◌else◌,
}
use the_room_backend.Protocol.{ServerEvent, CloseCode}
use the_room_backend.Gateway.World.{
  Connection, ReadyState, connecting, open_state, closing, M, on_conn,
}

abbrev pub slow_consumer_bytes : ℕ
slow_consumer_bytes = 1048576

abbrev pub idle_timeout_ms : ℕ
idle_timeout_ms = 120000

abbrev pub is_open : ReadyState → Bool
is_open open_state = true
is_open _ = false

abbrev can_close : ReadyState → Bool
can_close open_state = true
can_close connecting = true
can_close _ = false

-- The socket is cut: nothing more is written to it.
abbrev pub terminated : Connection → Connection
terminated c = record c { ws = record c.ws { ready_state = closing } }

unfoldable pub terminate : M (Unit {0})
terminate = on_conn terminated

unfoldable pub send_raw_to : ServerEvent → Connection → Bool × Connection
send_raw_to frame c =
    if not (is_open c.ws.ready_state)
    then (false, c)
    else if ltb slow_consumer_bytes c.ws.buffered_amount
    then (false, terminated c)
    else (true, record c { ws = record c.ws { written = c.ws.written ++ frame ∷ [] } })

unfoldable pub send : ServerEvent → M (Unit {0})
send evt = on_conn (λ c. (send_raw_to evt c).1)

unfoldable pub close_with : CloseCode → Connection → Connection
close_with code c =
    if can_close c.ws.ready_state
    then record c { ws = record c.ws { ready_state = closing; close_sent = some code } }
    else c

unfoldable pub close : CloseCode → M (Unit {0})
close code = on_conn (close_with code)

-- The server's heartbeat; `ping` throws on a socket that is still connecting.
unfoldable pub heartbeat : (now : ℕ) → Connection → Connection
heartbeat now c =
    if not c.alive || ltb idle_timeout_ms (now - c.last_frame_at)
    then terminated c
    else let c' = record c { alive = false } in
      elim c.ws.ready_state [ connecting ↦ terminated c' | _ ↦ c' ]
