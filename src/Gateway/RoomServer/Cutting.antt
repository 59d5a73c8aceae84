-- ===== src/Gateway/RoomServer/Cutting.antt =====
-- gateway/room-server.ts: what cutting off the first connection with a key leaves of the others.
use the_room_backend.Base.{
  some-none, ◌≡◌, refl, ap, sym, ◌∙◌, false, ◌&&◌, Option, none, some, List, [], ◌∷◌, String, ◌==◌,
  if◌then◌else◌, All, Bool-cases, inl, inr, ◌⊎◌, arith, eq_iff, eq_refl, subst, Option-cases, find,
  or_else,
}
use the_room_backend.Protocol.{ServerEvent, CloseCode}
use the_room_backend.Gateway.World.{
  Connection, Server, World, ◌>>=◌, world, on_conn, open_state, connecting, closing, closed_state,
}
use the_room_backend.Gateway.Connection.Transport.{send, close, send_raw_to, close_with, is_open}
use the_room_backend.Gateway.Connection.Enforcement.{blocked}
use the_room_backend.Gateway.RoomServer.State.{RoomServer, run_on, run_at, replace, has_key, effect}
use the_room_backend.Gateway.RoomServer.Fanout.{same, sid_of}

-- The connection is not one of the session, or its socket takes no more.
unfoldable pub IsShut : (sid : String) → Connection → Type 0
IsShut sid c = (same (sid_of c.rec) sid && is_open c.ws.ready_state) ≡ false

-- No other connection has the key of the first.
unfoldable pub KeysDiffer : List Connection → Type 0
KeysDiffer [] = Unit
KeysDiffer (c ∷ cs) = All (λ x. (x.key == c.key) ≡ false) cs × KeysDiffer cs

send_raw_to-key : (frame : ServerEvent) (c : Connection) → (send_raw_to frame c).1.key ≡ c.key
unfolding send_raw_to
send_raw_to-key frame c = ground arith

close_with-key : (code : CloseCode) (c : Connection) → (close_with code c).key ≡ c.key
unfolding close_with
close_with-key code c = ground arith

pub close_with-closed :
    (code : CloseCode) (c : Connection) → is_open (close_with code c).ws.ready_state ≡ false
unfolding close_with
close_with-closed code c =
    elim c.ws.ready_state
      as (λ x.
        is_open (close_with code (record c { ws = record c.ws { ready_state = x } })).ws.ready_state
        ≡ false) [ open_state ↦ refl | connecting ↦ refl | closing ↦ refl | closed_state ↦ refl ]

-- The connection is one of the list.
unfoldable pub Among : Connection → List Connection → Type 0
Among x [] = ⊥
Among x (c ∷ cs) = (x ≡ c) ⊎ Among x cs

module _ (srv : Server) (c : Connection) where
  unfoldable pub cut_off : World
  cut_off = effect (blocked 60000) (record { conn = c; srv = srv; turns = [] })

  cut_off-key : cut_off.conn.key ≡ c.key
  unfolding cut_off blocked ◌>>=◌ send close on_conn world
  cut_off-key = close_with-key _ _ ∙ send_raw_to-key _ _

  cut_off-closed : is_open cut_off.conn.ws.ready_state ≡ false
  unfolding cut_off blocked ◌>>=◌ send close on_conn world
  cut_off-closed = close_with-closed _ _

  cut_off-IsShut : (sid : String) → IsShut sid cut_off.conn
  unfolding IsShut
  cut_off-IsShut sid = elim (Bool-cases (same (sid_of cut_off.conn.rec) sid)) [
    | inl e ↦ rw e cut_off-closed
    | inr e ↦ rw e
  ]

-- A connection that is cut, or is one of the list.
abbrev pub Left : (sid : String) → List Connection → Connection → Type 0
Left sid cs x = IsShut sid x ⊎ Among x cs

-- The first connection with the key is cut off.
unfoldable pub cut_first : Server → String → List Connection → List Connection
cut_first srv k [] = []
cut_first srv k (x ∷ xs) = if x.key == k then (cut_off srv x).conn ∷ xs else x ∷ cut_first srv k xs

find_key :
    (k : String) (d : Connection) (xs : List Connection) → find (has_key k) xs ≡ some d → d.key ≡ k
find_key k d [] h = absurd (some-none d (sym h))
find_key k d (x ∷ xs) h = elim (Bool-cases (x.key == k)) [
  | inl e ↦
      let same = subst (λ b. (if b then some x else find (has_key k) xs) ≡ some d) e h in
      sym (ap (λ o. (or_else o x).key) same) ∙ (eq_iff x.key k).0 e
  | inr e ↦ find_key k d xs (subst (λ b. (if b then some x else find (has_key k) xs) ≡ some d) e h)
]

unfoldable cut_at : Server → List Connection → Option Connection → List Connection
cut_at srv xs none = xs
cut_at srv xs (some d) = replace (cut_off srv d).conn xs

cut_at-cut_first :
    (srv : Server) (k : String) (xs : List Connection)
    → cut_at srv xs (find (has_key k) xs) ≡ cut_first srv k xs
unfolding cut_first replace cut_at
cut_at-cut_first srv k [] = refl
cut_at-cut_first srv k (x ∷ xs) = elim (Bool-cases (x.key == k)) [
  | inl e ↦ rw (e, cut_off-key srv x, eq_refl x.key)
  | inr e ↦ elim (Option-cases (find (has_key k) xs)) [
    | inl h ↦
        rw (e, h)
          (ap (λ ys. x ∷ ys)
            (subst (λ o. cut_at srv xs o ≡ cut_first srv k xs) h (cut_at-cut_first srv k xs)))
    | inr (d, h) ↦
        let other : (x.key == (cut_off srv d).conn.key) ≡ false =
          rw (cut_off-key srv d, find_key k d xs h) e in
        rw (e, h, other)
          (ap (λ ys. x ∷ ys)
            (subst (λ o. cut_at srv xs o ≡ cut_first srv k xs) h (cut_at-cut_first srv k xs)))
  ]
]

run_at-cut_at :
    (found : Option Connection) (s : RoomServer)
    → (run_at (effect (blocked 60000)) [] found s).conns ≡ cut_at s.srv s.conns found
unfolding run_at cut_at cut_off
run_at-cut_at none s = refl
run_at-cut_at (some c) s = refl

pub run_on-cut_first :
    (k : String) (s : RoomServer)
    → (run_on (effect (blocked 60000)) [] k s).conns ≡ cut_first s.srv k s.conns
unfolding run_on
run_on-cut_first k s = run_at-cut_at (find (has_key k) s.conns) s ∙ cut_at-cut_first s.srv k s.conns

-- A property of the keys stays.
All-cut_first :
    (P : String → Type 0) (srv : Server) (k : String) (xs : List Connection)
    → All (λ x. P x.key) xs
    → All (λ x. P x.key) (cut_first srv k xs)
unfolding cut_first
All-cut_first P srv k [] h = tt
All-cut_first P srv k (x ∷ xs) h = elim (Bool-cases (x.key == k)) [
  | inl e ↦ rw (e, cut_off-key srv x) h
  | inr e ↦ rw e (h.0, All-cut_first P srv k xs h.1)
]

pub KeysDiffer-cut_first :
    (srv : Server) (k : String) (xs : List Connection)
    → KeysDiffer xs
    → KeysDiffer (cut_first srv k xs)
unfolding cut_first KeysDiffer
KeysDiffer-cut_first srv k [] h = tt
KeysDiffer-cut_first srv k (x ∷ xs) h = elim (Bool-cases (x.key == k)) [
  | inl e ↦ rw (e, cut_off-key srv x) h
  | inr e ↦
      rw e
        (All-cut_first (λ j. (j == x.key) ≡ false) srv k xs h.0, KeysDiffer-cut_first srv k xs h.1)
]

-- Another connection than `c` stays on the list without `c`.
other-Left :
    (sid : String) (c : Connection) (cs : List Connection) (x : Connection)
    → (x.key == c.key) ≡ false
    → Left sid (c ∷ cs) x
    → Left sid cs x
unfolding Among
other-Left sid c cs x other (inl cut) = inl cut
other-Left sid c cs x other (inr (inl same)) =
    absurd (cc (other, ap (λ y. y.key == c.key) same, eq_refl c.key))
other-Left sid c cs x other (inr (inr later)) = inr later

others-Left :
    (sid : String) (c : Connection) (cs xs : List Connection)
    → All (λ y. (y.key == c.key) ≡ false) xs
    → All (Left sid (c ∷ cs)) xs
    → All (Left sid cs) xs
others-Left sid c cs [] others left = tt
others-Left sid c cs (x ∷ xs) others left =
    (other-Left sid c cs x others.0 left.0, others-Left sid c cs xs others.1 left.1)

pub cut_first-Left :
    (sid : String) (c : Connection) (cs : List Connection) (srv : Server) (xs : List Connection)
    → All (Left sid (c ∷ cs)) xs
    → KeysDiffer xs
    → All (Left sid cs) (cut_first srv c.key xs)
unfolding cut_first KeysDiffer
cut_first-Left sid c cs srv [] left differ = tt
cut_first-Left sid c cs srv (x ∷ xs) left differ = elim (Bool-cases (x.key == c.key)) [
  | inl e ↦ rw e (
    inl (cut_off-IsShut srv x sid),
    others-Left sid c cs xs
        (subst (λ j. All (λ y. (y.key == j) ≡ false) xs) ((eq_iff x.key c.key).0 e) differ.0)
        left.1,
  )
  | inr e ↦ rw e (other-Left sid c cs x e left.0, cut_first-Left sid c cs srv xs left.1 differ.1)
]
