-- ===== src/Gateway/RoomServer/Kicking.antt =====
-- gateway/room-server.ts: what a kick leaves of the connections.
use the_room_backend.Base.{
  All-map, Bool, true, any, ◌≡◌, refl, sym, false, List, [], ◌∷◌, String, ◌==◌, if◌then◌else◌, All,
  Bool-cases, inl, inr, arith, subst,
}
use the_room_backend.Store.{BusEvent}
use the_room_backend.Gateway.World.{Connection}
use the_room_backend.Gateway.Connection.Enforcement.{blocked}
use the_room_backend.Gateway.RoomServer.State.{RoomServer, run_on, has_key, effect}
use the_room_backend.Gateway.RoomServer.Fanout.{on_bus, kick_all, same, sid_of}
use the_room_backend.Gateway.RoomServer.Counting.{Distinct, IsCounted}
use the_room_backend.Gateway.RoomServer.Cutting.{
  IsShut, KeysDiffer, Among, Left, run_on-cut_first, KeysDiffer-cut_first, cut_first-Left,
}

skip-Left :
    (sid : String) (c : Connection) (cs : List Connection) (x : Connection)
    → same (sid_of c.rec) sid ≡ false
    → Left sid (c ∷ cs) x
    → Left sid cs x
unfolding Among IsShut
skip-Left sid c cs x other (inl cut) = inl cut
skip-Left sid c cs x other (inr (inl equal)) = inl (rw (equal, other))
skip-Left sid c cs x other (inr (inr later)) = inr later

kick_all-IsShut :
    (sid : String) (cs : List Connection) (s : RoomServer)
    → All (Left sid cs) s.conns
    → KeysDiffer s.conns
    → All (IsShut sid) (kick_all sid cs s).conns
unfolding kick_all Among
kick_all-IsShut sid [] s left differ =
    All-map s.conns (λ x. elim [ inl cut ↦ cut | inr nowhere ↦ absurd nowhere ]) left
kick_all-IsShut sid (c ∷ cs) s left differ =
    let next : Bool → RoomServer =
      λ b. if b then run_on (effect (blocked 60000)) [] c.key s else s in
    elim (Bool-cases (same (sid_of c.rec) sid)) [
      | inl e ↦
          subst (λ b. All (IsShut sid) (kick_all sid cs (next b)).conns) (sym e)
            (kick_all-IsShut sid cs (next true)
              (subst (All (Left sid cs)) (sym (run_on-cut_first c.key s))
                (cut_first-Left sid c cs s.srv s.conns left differ))
              (subst KeysDiffer (sym (run_on-cut_first c.key s))
                (KeysDiffer-cut_first s.srv c.key s.conns differ)))
      | inr e ↦
          subst (λ b. All (IsShut sid) (kick_all sid cs (next b)).conns) (sym e)
            (kick_all-IsShut sid cs s (All-map s.conns (λ x. skip-Left sid c cs x e) left) differ)
    ]

All-Among : (xs : List Connection) → All (λ x. Among x xs) xs
unfolding Among
All-Among [] = tt
All-Among (x ∷ xs) = (inl refl, All-map xs (λ y. inr) (All-Among xs))

All-other :
    (k : String) (cs : List Connection)
    → any (has_key k) cs ≡ false
    → All (λ x. (x.key == k) ≡ false) cs
All-other k [] h = tt
All-other k (x ∷ xs) h = elim (Bool-cases (x.key == k)) [
  | inl e ↦ absurd (ground (arith, e, h))
  | inr e ↦ (e, All-other k xs (ground (arith, e, h)))
]

Distinct→KeysDiffer : (cs : List Connection) → Distinct cs → KeysDiffer cs
unfolding KeysDiffer
Distinct→KeysDiffer [] h = tt
Distinct→KeysDiffer (c ∷ cs) h = (All-other c.key cs h.0, Distinct→KeysDiffer cs h.1)

-- Once a kick has come in, no connection of the session takes anything any more, where no two
-- connections have the same key.
pub on_bus-kick :
    (origin sid reason : String) (s : RoomServer)
    → IsCounted s
    → All (IsShut sid) (on_bus (BusEvent.kick origin sid reason) s).conns
unfolding on_bus
on_bus-kick origin sid reason s counted =
    kick_all-IsShut sid s.conns s (All-map s.conns (λ x. inr) (All-Among s.conns))
      (Distinct→KeysDiffer s.conns counted.distinct)
