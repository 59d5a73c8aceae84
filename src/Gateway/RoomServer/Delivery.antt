-- ===== src/Gateway/RoomServer/Delivery.antt =====
-- gateway/room-server.ts `flushOutbox`: what each connection receives.
use the_room_backend.Base.{
  ◌≡◌, refl, sym, ap, ◌∙◌, ◌⊎◌, Bool, true, false, not, ◌&&◌, Option, none, some, List, [], ◌∷◌,
  ◌++◌, map, String, ◌==◌, arith, ltb, if◌then◌else◌, keep, any, Bool-cases, inl, inr,
}
use mathlib.Core.List.{append-nil, append_assoc}
use the_room_backend.Protocol.{ChatMessage, ServerEvent, message, messages}
use the_room_backend.Gateway.World.{Connection}
use the_room_backend.Gateway.Connection.Transport.{send_raw_to, is_open, slow_consumer_bytes}
use the_room_backend.Gateway.RoomServer.State.{Posted, RoomServer}
use the_room_backend.Gateway.RoomServer.Fanout.{
  same, texts, encode, variant, frame_for, in_room, send_frame, deliver_to, flush_batch,
  flush_outbox,
}

-- The chat messages of a frame, and of all frames that were written to a socket.
abbrev pub chats_of : ServerEvent → List ChatMessage
chats_of (message m) = m ∷ []
chats_of (messages ms) = ms
chats_of _ = []

abbrev pub chats : List ServerEvent → List ChatMessage
chats [] = []
chats (f ∷ fs) = chats_of f ++ chats fs

abbrev pub takes_frames : Connection → Bool
takes_frames c = is_open c.ws.ready_state && not (ltb slow_consumer_bytes c.ws.buffered_amount)

abbrev frame_chats : Option ServerEvent → List ChatMessage
frame_chats none = []
frame_chats (some f) = chats_of f

-- What a connection is to receive of a batch: what others sent, if it has joined the room and its
-- socket takes it.
abbrev pub due : (room_id : String) → List Posted → Connection → List ChatMessage
due room_id batch c =
    if c.joined && in_room room_id c.rec
    then (if takes_frames c then texts (keep (λ p. not (same p.exclude c.key)) batch) else [])
    else []

chats-append :
    (fs : List ServerEvent) (f : ServerEvent) → chats (fs ++ f ∷ []) ≡ chats fs ++ chats_of f
chats-append [] f = append-nil (chats_of f)
chats-append (g ∷ fs) f =
    ap (λ ms. chats_of g ++ ms) (chats-append fs f)
    ∙ sym (append_assoc (chats_of g) (chats fs) (chats_of f))

chats_of-encode : (ms : List ChatMessage) → chats_of (encode ms) ≡ ms
unfolding encode
chats_of-encode [] = refl
chats_of-encode (m ∷ []) = refl
chats_of-encode (m ∷ (n ∷ ms)) = refl

-- The frames that a connection without own messages gets are those that it would get anyway.
keep_all :
    (key : String) (batch : List Posted)
    → any (λ p. same p.exclude key) batch ≡ false
    → keep (λ p. not (same p.exclude key)) batch ≡ batch
keep_all key [] h = refl
keep_all key (p ∷ ps) h = ground (arith, h, keep_all key ps)

variant_lem :
    (key : String) (batch : List Posted)
    → ((variant key batch ≡ none) × (keep (λ p. not (same p.exclude key)) batch ≡ []))
      ⊎ (variant key batch ≡ some (encode (texts (keep (λ p. not (same p.exclude key)) batch))))
unfolding variant
variant_lem key batch = by_rest (keep (λ p. not (same p.exclude key)) batch)
  where
    by_rest :
        (rest : List Posted)
        → let v : Option ServerEvent = elim rest [
          | [] ↦ none
          | p ∷ ps ↦ some (encode (texts (p ∷ ps)))
        ] in
          ((v ≡ none) × (rest ≡ [])) ⊎ (v ≡ some (encode (texts rest)))
    by_rest [] = inl (refl, refl)
    by_rest (p ∷ ps) = inr refl

written_lem :
    (f : ServerEvent) (c : Connection)
    → (send_raw_to f c).1.ws.written
      ≡ (if takes_frames c then c.ws.written ++ f ∷ [] else c.ws.written)
unfolding send_raw_to
written_lem f c = ground arith

-- What a frame adds to a socket that takes frames.
chats-send_frame :
    (o : Option ServerEvent) (c : Connection)
    → chats (send_frame o c).ws.written
      ≡ chats c.ws.written ++ (if takes_frames c then frame_chats o else [])
unfolding send_frame
chats-send_frame none c = elim (Bool-cases (takes_frames c)) [
  | inl e ↦ rw e (sym (append-nil (chats c.ws.written)))
  | inr e ↦ rw e (sym (append-nil (chats c.ws.written)))
]
chats-send_frame (some f) c = elim (Bool-cases (takes_frames c)) [
  | inl e ↦ rw e (ap chats (rw e at (written_lem f c)) ∙ chats-append c.ws.written f)
  | inr e ↦ rw e (ap chats (rw e at (written_lem f c)) ∙ sym (append-nil (chats c.ws.written)))
]

frame_chats-frame_for :
    (key : String) (batch : List Posted)
    → frame_chats (frame_for key batch) ≡ texts (keep (λ p. not (same p.exclude key)) batch)
unfolding frame_for
frame_chats-frame_for key batch = elim (Bool-cases (any (λ p. same p.exclude key) batch)) [
  | inl e ↦ elim (variant_lem key batch) [
    | inl (v, r) ↦ rw e (ap frame_chats v ∙ sym (ap texts r))
    | inr v ↦ rw e (ap frame_chats v ∙ chats_of-encode _)
  ]
  | inr e ↦ rw e (chats_of-encode (texts batch) ∙ sym (ap texts (keep_all key batch e)))
]

chats-deliver_to :
    (room_id : String) (batch : List Posted) (c : Connection)
    → chats (deliver_to room_id batch c).ws.written ≡ chats c.ws.written ++ due room_id batch c
unfolding deliver_to
chats-deliver_to room_id batch c = elim (Bool-cases (c.joined && in_room room_id c.rec)) [
  | inr e ↦ rw e (sym (append-nil (chats c.ws.written)))
  | inl e ↦ rw e (
      chats-send_frame (frame_for c.key batch) c
      ∙ ap (λ ms. chats c.ws.written ++ (if takes_frames c then ms else []))
          (frame_chats-frame_for c.key batch))
]

abbrev pub received : List Connection → List (List ChatMessage)
received cs = map (λ c. chats c.ws.written) cs

cons_lem : {A : Type 0} {a b : A} {xs ys : List A} → a ≡ b → xs ≡ ys → a ∷ xs ≡ b ∷ ys
cons_lem e es = cc

received-map :
    (room_id : String) (batch : List Posted) (cs : List Connection)
    → received (map (deliver_to room_id batch) cs)
      ≡ map (λ c. chats c.ws.written ++ due room_id batch c) cs
received-map room_id batch [] = refl
received-map room_id batch (c ∷ cs) =
    cons_lem (chats-deliver_to room_id batch c) (received-map room_id batch cs)

nothing_due :
    (room_id : String) (cs : List Connection)
    → received cs ≡ map (λ c. chats c.ws.written ++ due room_id [] c) cs
nothing_due room_id [] = refl
nothing_due room_id (c ∷ cs) = cons_lem (one c) (nothing_due room_id cs)
  where
    one : (c : Connection) → chats c.ws.written ≡ chats c.ws.written ++ due room_id [] c
    one c = sym (
        ap (λ ms. chats c.ws.written ++ ms)
          (none_due (c.joined && in_room room_id c.rec) (takes_frames c))
        ∙ append-nil (chats c.ws.written))
      where
        none_due : (a b : Bool) → (if a then (if b then texts [] else []) else []) ≡ []
        none_due true true = refl
        none_due true false = refl
        none_due false b = refl

flush_batch-received :
    (batch : List Posted) (s : RoomServer)
    → (received (flush_batch batch s).conns
        ≡ map (λ c. chats c.ws.written ++ due s.srv.room.room_id batch c) s.conns)
      × ((flush_batch batch s).outbox ≡ [])
unfolding flush_batch
flush_batch-received [] s = (nothing_due s.srv.room.room_id s.conns, refl)
flush_batch-received (p ∷ ps) s = (received-map s.srv.room.room_id (p ∷ ps) s.conns, refl)

-- After the outbox is flushed each connection has received what it had and, if it has joined the
-- room and its socket takes frames, the messages of the room that others sent, in the order of
-- their coming; the others have received nothing more. The outbox is empty.
pub flush_outbox-received :
    (s : RoomServer)
    → (received (flush_outbox s).conns
        ≡ map
            (λ c.
              chats c.ws.written
              ++ due s.srv.room.room_id (keep (λ p. p.room_id == s.srv.room.room_id) s.outbox) c)
            s.conns)
      × ((flush_outbox s).outbox ≡ [])
unfolding flush_outbox
flush_outbox-received s = flush_batch-received _ s
