-- ===== src/Gateway/RoomServer/Handshakes/Within.antt =====
-- gateway/room-server.ts: how one step of a handshake keeps the connections within bounds.
use the_room_backend.Base.{
  ℕ, ◌+◌, ◌≤◌, ◌<◌, ◌≡◌, ap, false, not, ◌&&◌, Option, none, some, List, [], ◌∷◌, ◌++◌, String,
  ◌==◌, arith, if◌then◌else◌, length, length-append, is_some, eq_iff, Bool-cases, inl, inr,
}
use the_room_backend.Base.Dict.{lookup-insert}
use the_room_backend.Gateway.World.{AdmitInfo, NetworkIdentity}
use the_room_backend.Gateway.Connection.Frames.{new_connection}
use the_room_backend.Gateway.RoomServer.State.{RoomServer, Limits, network_count, accept}
use the_room_backend.Gateway.RoomServer.Admission.{
  Request, StoreFaults, Refusal, admits, refuses, check_store, check_local, admit_info, answer_of,
  admit_by,
}
use the_room_backend.Gateway.RoomServer.Handshakes.{Door, serving, served}
use the_room_backend.Gateway.RoomServer.Handshakes.AddsNone.{AddsNone}

check_local_lem :
    (r : Request) (s : RoomServer)
    → check_local r s ≡ none
    → (s.shutting_down ≡ false)
      × ((is_some r.origin && not r.origin_allowed) ≡ false)
      × (length s.conns < s.limits.max_connections)
      × (network_count r.net.daily_hash s < s.limits.max_connections_per_ip)
unfolding check_local
check_local_lem r s h = ground (arith, h)

answer_of_lem :
    (o : Option Refusal) (given info : AdmitInfo) → answer_of o given ≡ admits info → info ≡ given
unfolding answer_of
answer_of_lem (some why) given info h = absurd (refused h)
  where
    refused : refuses why ≡ admits info → ⊥
    refused e = cc
answer_of_lem none given info h = taken h
  where
    taken : admits given ≡ admits info → info ≡ given
    taken e = cc

pub admit_by_info :
    (f : StoreFaults) (r : Request) (s s' : RoomServer) (info : AdmitInfo)
    → admit_by f r none s ≡ (admits info, s')
    → info ≡ admit_info r s
unfolding admit_by
admit_by_info f r s s' info h =
    answer_of_lem (check_store f s.srv.now s.limits.connect_attempts_per_min r.net s.srv.store).0
      (admit_info r s) info (ap (λ x. x.0) h)

-- The waiting requests of a network.
abbrev pub waiting_of : (hash : String) → List Request → ℕ
waiting_of hash [] = 0
waiting_of hash (r ∷ rs) = (if r.net.daily_hash == hash then 1 else 0) + waiting_of hash rs

waiting_of-length : (hash : String) (rs : List Request) → waiting_of hash rs ≤ length rs
waiting_of-length hash [] = omega arith
waiting_of-length hash (r ∷ rs) = ground (arith, waiting_of-length hash rs)

waiting_of-append :
    (hash : String) (rs qs : List Request)
    → waiting_of hash (rs ++ qs) ≡ waiting_of hash rs + waiting_of hash qs
waiting_of-append hash [] qs = omega arith
waiting_of-append hash (r ∷ rs) qs = omega (arith, waiting_of-append hash rs qs)

-- The connections and the waiting requests together are at most `k` above the limits.
pub record IsWithin (k : ℕ) (d : Door) : Type 0 where
  pub all_of_them : length d.server.conns + length d.waiting ≤ d.server.limits.max_connections + k
  pub of_network :
      (hash : String)
      → network_count hash d.server + waiting_of hash d.waiting
        ≤ d.server.limits.max_connections_per_ip + k

pub AddsNone-IsWithin :
    (k : ℕ) (s s' : RoomServer) (rs : List Request)
    → AddsNone s s'
    → IsWithin k (record { server = s; waiting = rs })
    → IsWithin k (record { server = s'; waiting = rs })
AddsNone-IsWithin k s s' rs a w = record {
  all_of_them =
      omega (arith, w.all_of_them, a.no_more, ap (λ (l : Limits). l.max_connections) a.limits_stay);
  of_network = λ hash. omega (
    arith,
    w.of_network hash,
    a.none_more hash,
    ap (λ (l : Limits). l.max_connections_per_ip) a.limits_stay,
  );
}

pub asks-IsWithin :
    (k : ℕ) (r : Request) (d : Door)
    → check_local r d.server ≡ none
    → length d.waiting ≤ k
    → IsWithin k d
    → IsWithin k (record d { waiting = r ∷ d.waiting })
asks-IsWithin k r d h few w =
    let (up, from, room, share) = check_local_lem r d.server h in
    record {
      all_of_them = omega (arith, room, few);
      of_network = λ hash. elim (Bool-cases (r.net.daily_hash == hash)) [
        | inl e ↦ rw e (
            omega (
              arith,
              ap (λ k. network_count k d.server) ((eq_iff r.net.daily_hash hash).0 e),
              share,
              few,
              waiting_of-length hash d.waiting,
            ))
        | inr e ↦ rw e (omega (arith, w.of_network hash))
      ];
    }

pub served-IsWithin :
    (k : ℕ) (before after : List Request) (r : Request) (s : RoomServer)
    → IsWithin k (serving before r after s)
    → IsWithin k (served before after s)
served-IsWithin k before after r s w = record {
  all_of_them =
      omega (arith, w.all_of_them, length-append before (r ∷ after), length-append before after);
  of_network = λ hash. omega (
    arith,
    w.of_network hash,
    waiting_of-append hash before (r ∷ after),
    waiting_of-append hash before after,
  );
}

pub accept-IsWithin :
    (k : ℕ) (before after : List Request) (r : Request) (key : String) (info : AdmitInfo)
    (s : RoomServer)
    → info.net ≡ r.net
    → IsWithin k (serving before r after s)
    → IsWithin k (served before after (accept key info s))
unfolding accept
accept-IsWithin k before after r key info s same w =
    let own = ap (λ (n : NetworkIdentity). n.daily_hash) same in
    record {
      all_of_them = omega (
        arith,
        w.all_of_them,
        length-append before (r ∷ after),
        length-append before after,
        length-append s.conns (new_connection s.srv.platform.decay key info s.srv.now ∷ []),
      );
      of_network = λ hash.
          let added =
            lookup-insert info.net.daily_hash hash (network_count info.net.daily_hash s + 1)
              s.per_network in
          let before_and_after = waiting_of-append hash before (r ∷ after) in
          elim (Bool-cases (info.net.daily_hash == hash)) [
            | inl e ↦ ground (
              arith,
              added,
              e,
              ap (λ h. h == hash) own,
              ap (λ h. network_count h s) ((eq_iff info.net.daily_hash hash).0 e),
              w.of_network hash,
              before_and_after,
              waiting_of-append hash before after,
            )
            | inr e ↦ ground (
              arith,
              added,
              e,
              w.of_network hash,
              before_and_after,
              waiting_of-append hash before after,
            )
          ];
    }
