-- ===== src/Gateway/RoomServer/Handshakes/AddsNone.antt =====
-- gateway/room-server.ts: what adds no connection: a check of the store, an event of a connection,
-- and a close.
use the_room_backend.Base.{
  ℕ, ◌-◌, ◌≤◌, ◌≡◌, refl, ap, Bool, not, Option, none, some, List, [], ◌∷◌, String, ◌==◌, arith,
  length, or_else, keep, eq_iff, Bool-cases, Option-cases, inl, inr,
}
use the_room_backend.Base.Dict.{Dict, lookup, lookup-insert, lookup-delete}
use the_room_backend.Gateway.World.{Connection, Turn, World}
use the_room_backend.Gateway.RoomServer.State.{
  RoomServer, network_count, has_key, replace, run_at, release_network, drop_at,
}
use the_room_backend.Gateway.RoomServer.Admission.{Request, StoreFaults, admit_by}

-- What the check of the store leaves of the server: everything but the store.
pub record IsAsked (s s' : RoomServer) : Type 0 where
  same_conns : s'.conns ≡ s.conns
  same_limits : s'.limits ≡ s.limits
  same_networks : s'.per_network ≡ s.per_network

pub admit_by-IsAsked :
    (f : StoreFaults) (r : Request) (s : RoomServer) → IsAsked s (admit_by f r none s).1
unfolding admit_by
admit_by-IsAsked f r s = record { same_conns = refl; same_limits = refl; same_networks = refl }

-- A change that adds no connection.
pub record AddsNone (s s' : RoomServer) : Type 0 where
  pub no_more : length s'.conns ≤ length s.conns
  pub none_more : (hash : String) → network_count hash s' ≤ network_count hash s
  pub limits_stay : s'.limits ≡ s.limits

pub IsAsked-AddsNone : (s s' : RoomServer) → IsAsked s s' → AddsNone s s'
IsAsked-AddsNone s s' a = record {
  no_more = omega (arith, ap (λ (cs : List Connection). length cs) a.same_conns);
  none_more = λ hash. omega (arith, ap (λ (d : Dict ℕ). or_else (lookup hash d) 0) a.same_networks);
  limits_stay = a.same_limits;
}

length-replace : (c : Connection) (cs : List Connection) → length (replace c cs) ≡ length cs
unfolding replace
length-replace c [] = refl
length-replace c (x ∷ cs) = ground (arith, length-replace c cs)

length-keep : (p : Connection → Bool) (cs : List Connection) → length (keep p cs) ≤ length cs
length-keep p [] = omega arith
length-keep p (c ∷ cs) = ground (arith, length-keep p cs)

pub run_at-AddsNone :
    (f : World → World) (turns : List Turn) (o : Option Connection) (s : RoomServer)
    → AddsNone s (run_at f turns o s)
unfolding run_at
run_at-AddsNone f turns none s = record {
  no_more = omega arith;
  none_more = λ hash. omega arith;
  limits_stay = refl;
}
run_at-AddsNone f turns (some c) s = record {
  no_more =
      omega
        (arith, length-replace (f (record { conn = c; srv = s.srv; turns = turns })).conn s.conns);
  none_more = λ hash. omega arith;
  limits_stay = refl;
}

release_network-le :
    (gone hash : String) (counts : Dict ℕ)
    → or_else (lookup hash (release_network gone counts)) 0 ≤ or_else (lookup hash counts) 0
unfolding release_network
release_network-le gone hash counts =
    let n = or_else (lookup gone counts) 1 - 1 in
    let same_count = ap (λ k. or_else (lookup k counts) 0) in
    let inserted = lookup-insert gone hash n counts in
    let deleted = lookup-delete gone hash counts in
    elim (Bool-cases (gone == hash)) [
      | inl e ↦
          let g = (eq_iff gone hash).0 e in
          elim (Option-cases (lookup gone counts)) [
            | inl m ↦ ground (arith, m, inserted, deleted, e)
            | inr (v, m) ↦ ground (arith, m, inserted, deleted, e, same_count g)
          ]
      | inr e ↦ ground (arith, inserted, deleted, e)
    ]

pub drop_at-AddsNone :
    (key : String) (o : Option Connection) (s : RoomServer) → AddsNone s (drop_at key o s)
unfolding drop_at
drop_at-AddsNone key none s = record {
  no_more = omega arith;
  none_more = λ hash. omega arith;
  limits_stay = refl;
}
drop_at-AddsNone key (some c) s = record {
  no_more = length-keep (λ x. not (has_key key x)) s.conns;
  none_more = λ hash. release_network-le c.info.net.daily_hash hash s.per_network;
  limits_stay = refl;
}
