-- ===== src/Gateway/RoomServer/Counting.antt =====
-- gateway/room-server.ts: `perNetwork` counts the connections of each network.
use the_room_backend.Base.{
  ℕ, ◌+◌, ◌-◌, ◌≡◌, refl, ap, sym, subst, ◌∙◌, false, not, ◌||◌, Option, none, some, List, [], ◌∷◌,
  ◌++◌, String, ◌==◌, arith, if◌then◌else◌, or_else, find, keep, any, eq_iff, eq_refl, Bool-cases,
  Option-cases, inl, inr,
}
use the_room_backend.Base.Dict.{Dict, lookup, lookup-insert, lookup-delete}
use the_room_backend.Gateway.World.{AdmitInfo, Connection, World}
use the_room_backend.Gateway.Connection.Waiting.{on_close, persist_now, persist_rec}
use the_room_backend.Gateway.Connection.Frames.{new_connection}
use the_room_backend.Gateway.Invariant.Queue.{opened-IsOrderly}
use the_room_backend.Gateway.RoomServer.State.{
  RoomServer, has_key, replace, run_at, run_on, network_count, accept, release_network, drop_at,
  on_closed,
}

abbrev pub one_of : (hash : String) → Connection → ℕ
one_of hash c = if c.info.net.daily_hash == hash then 1 else 0

-- The connections of a network.
abbrev pub count_of : (hash : String) → List Connection → ℕ
count_of hash [] = 0
count_of hash (c ∷ cs) = one_of hash c + count_of hash cs

abbrev pub Distinct : List Connection → Type 0
Distinct [] = Unit {0}
Distinct (c ∷ cs) = (any (has_key c.key) cs ≡ false) × Distinct cs

pub record IsCounted (s : RoomServer) : Type 0 where
  pub distinct : Distinct s.conns
  pub counted : (hash : String) → network_count hash s ≡ count_of hash s.conns

keep_others :
    (key : String) (cs : List Connection)
    → any (has_key key) cs ≡ false
    → keep (λ x. not (has_key key x)) cs ≡ cs
keep_others key [] h = refl
keep_others key (c ∷ cs) h = ground (arith, h, keep_others key cs)

any-keep :
    (k key : String) (cs : List Connection)
    → any (has_key k) cs ≡ false
    → any (has_key k) (keep (λ x. not (has_key key x)) cs) ≡ false
any-keep k key [] h = refl
any-keep k key (c ∷ cs) h = ground (arith, h, any-keep k key cs)

Distinct-keep :
    (key : String) (cs : List Connection)
    → Distinct cs
    → Distinct (keep (λ x. not (has_key key x)) cs)
Distinct-keep key [] h = tt
Distinct-keep key (c ∷ cs) h = elim (Bool-cases (has_key key c)) [
  | inl e ↦ rw e (Distinct-keep key cs h.1)
  | inr e ↦ rw e (any-keep c.key key cs h.0, Distinct-keep key cs h.1)
]

some_lem : (x c : Connection) → some x ≡ some c → x ≡ c
some_lem x c e = cc

-- Of distinct connections one goes.
count_of-keep :
    (key hash : String) (cs : List Connection) (c : Connection)
    → Distinct cs
    → find (has_key key) cs ≡ some c
    → count_of hash (keep (λ x. not (has_key key x)) cs) + one_of hash c ≡ count_of hash cs
count_of-keep key hash [] c d h = absurd (none_lem h)
  where
    none_lem : none ≡ some c → ⊥
    none_lem e = cc
count_of-keep key hash (x ∷ cs) c d h = elim (Bool-cases (has_key key x)) [
  | inl e ↦ rw e (
      omega (
        arith,
        ap (λ ys. count_of hash ys)
            (keep_others key cs
              (subst (λ k. any (has_key k) cs ≡ false) ((eq_iff x.key key).0 e) d.0)),
        ap (λ (y : Connection). one_of hash y) (some_lem x c (rw e at h)),
      ))
  | inr e ↦ rw e (omega (arith, count_of-keep key hash cs c d.1 (rw e at h)))
]

count_of-append :
    (hash : String) (cs : List Connection) (c : Connection)
    → count_of hash (cs ++ c ∷ []) ≡ count_of hash cs + one_of hash c
count_of-append hash [] c = omega arith
count_of-append hash (x ∷ cs) c = omega (arith, count_of-append hash cs c)

any-append :
    (k : String) (cs : List Connection) (c : Connection)
    → any (has_key k) cs ≡ false
    → (c.key == k) ≡ false
    → any (has_key k) (cs ++ c ∷ []) ≡ false
any-append k [] c h e = ground (arith, e)
any-append k (x ∷ cs) c h e = ground (arith, h, any-append k cs c)

Distinct-append :
    (cs : List Connection) (c : Connection)
    → Distinct cs
    → any (has_key c.key) cs ≡ false
    → Distinct (cs ++ c ∷ [])
Distinct-append [] c d h = (refl, tt)
Distinct-append (x ∷ cs) c d h = (
  any-append x.key cs c d.0 (ground (arith, h, eq_iff x.key c.key, eq_iff c.key x.key)),
  Distinct-append cs c d.1 (ground (arith, h)),
)

release_lem :
    (gone hash : String) (counts : Dict ℕ) (n : ℕ)
    → or_else (lookup gone counts) 0 ≡ n + 1
    → or_else (lookup hash (release_network gone counts)) 0
      ≡ (if gone == hash then n else or_else (lookup hash counts) 0)
unfolding release_network
release_lem gone hash counts n h = elim (Option-cases (lookup gone counts)) [
  | inl e ↦ absurd (omega (arith, rw e at h))
  | inr (v, e) ↦
      let left : v - 1 ≡ n = omega (arith, rw e at h) in
      rw (e, left)
        (ground (arith, lookup-insert gone hash n counts, lookup-delete gone hash counts))
]

drop_at-IsCounted :
    (key : String) (s : RoomServer) (o : Option Connection)
    → find (has_key key) s.conns ≡ o
    → IsCounted s
    → IsCounted (drop_at key o s)
unfolding drop_at
drop_at-IsCounted key s none f h = h
drop_at-IsCounted key s (some c) f h =
    let gone = c.info.net.daily_hash in
    let rest = keep (λ x. not (has_key key x)) s.conns in
    let own = count_of-keep key gone s.conns c h.distinct f in
    let stored : or_else (lookup gone s.per_network) 0 ≡ count_of gone rest + 1 =
      ground (arith, own, h.counted gone, eq_refl gone) in
    record {
      distinct = Distinct-keep key s.conns h.distinct;
      counted = λ hash.
          let released = release_lem gone hash s.per_network (count_of gone rest) stored in
          let others = count_of-keep key hash s.conns c h.distinct f in
          let before = h.counted hash in
          elim (Bool-cases (gone == hash)) [
            | inl e ↦ ground (arith, released, ap (λ k. count_of k rest) ((eq_iff gone hash).0 e))
            | inr e ↦ ground (arith, released, others, before)
          ];
    }

accept-IsCounted :
    (key : String) (info : AdmitInfo) (s : RoomServer)
    → any (has_key key) s.conns ≡ false
    → IsCounted s
    → IsCounted (accept key info s)
unfolding accept
accept-IsCounted key info s fresh h =
    let c = new_connection s.srv.platform.decay key info s.srv.now in
    let opened = (opened-IsOrderly key info s.srv []).sound in
    record {
      distinct =
          Distinct-append s.conns c h.distinct
            (subst (λ k. any (has_key k) s.conns ≡ false) (sym opened.same_key) fresh);
      counted = λ hash. ground (
        arith,
        count_of-append hash s.conns c,
        h.counted hash,
        eq_iff info.net.daily_hash hash,
        ap (λ (a : AdmitInfo). a.net.daily_hash) opened.same_info,
        lookup-insert info.net.daily_hash hash (network_count info.net.daily_hash s + 1)
            s.per_network,
      );
    }

-- An event that keeps the key and the network of its connection.
abbrev Stays : (World → World) → Type 0
Stays f = (w : World) → ((f w).conn.key ≡ w.conn.key) × ((f w).conn.info ≡ w.conn.info)

any-replace :
    (k : String) (c' : Connection) (cs : List Connection)
    → any (has_key k) (replace c' cs) ≡ any (has_key k) cs
unfolding replace
any-replace k c' [] = refl
any-replace k c' (x ∷ cs) = elim (Bool-cases (x.key == c'.key)) [
  | inl e ↦ rw e (ap (λ i. (i == k) || any (has_key k) cs) (sym ((eq_iff x.key c'.key).0 e)))
  | inr e ↦ rw e (ap (λ b. (x.key == k) || b) (any-replace k c' cs))
]

Distinct-replace : (c' : Connection) (cs : List Connection) → Distinct cs → Distinct (replace c' cs)
unfolding replace
Distinct-replace c' [] d = tt
Distinct-replace c' (x ∷ cs) d = elim (Bool-cases (x.key == c'.key)) [
  | inl e ↦ rw e (subst (λ k. any (has_key k) cs ≡ false) ((eq_iff x.key c'.key).0 e) d.0, d.1)
  | inr e ↦ rw e (any-replace x.key c' cs ∙ d.0, Distinct-replace c' cs d.1)
]

count_of-replace :
    (hash : String) (c c' : Connection) (cs : List Connection)
    → find (has_key c'.key) cs ≡ some c
    → c'.info ≡ c.info
    → count_of hash (replace c' cs) ≡ count_of hash cs
unfolding replace
count_of-replace hash c c' [] f e = refl
count_of-replace hash c c' (x ∷ cs) f e = elim (Bool-cases (x.key == c'.key)) [
  | inl k ↦ rw k (
      ap (λ (i : AdmitInfo). (if i.net.daily_hash == hash then 1 else 0) + count_of hash cs)
        (e ∙ sym (ap (λ (y : Connection). y.info) (some_lem x c (rw k at f)))))
  | inr k ↦ rw k (omega (arith, count_of-replace hash c c' cs (rw k at f) e))
]

find-key :
    (key : String) (cs : List Connection) (c : Connection)
    → find (has_key key) cs ≡ some c
    → c.key ≡ key
find-key key [] c f = absurd (none_lem f)
  where
    none_lem : none ≡ some c → ⊥
    none_lem e = cc
find-key key (x ∷ cs) c f = elim (Bool-cases (x.key == key)) [
  | inl k ↦ sym (ap (λ (y : Connection). y.key) (some_lem x c (rw k at f))) ∙ (eq_iff x.key key).0 k
  | inr k ↦ find-key key cs c (rw k at f)
]

run_at-IsCounted :
    (f : World → World) (key : String) (o : Option Connection) (s : RoomServer)
    → Stays f
    → find (has_key key) s.conns ≡ o
    → IsCounted s
    → IsCounted (run_at f [] o s)
unfolding run_at
run_at-IsCounted f key none s stays e h = h
run_at-IsCounted f key (some c) s stays e h =
    let w : World = record { conn = c; srv = s.srv; turns = [] } in
    let c' = (f w).conn in
    let (same_key, same_info) = stays w in
    let found : find (has_key c'.key) s.conns ≡ some c =
      ap (λ k. find (has_key k) s.conns) (same_key ∙ find-key key s.conns c e) ∙ e in
    record {
      distinct = Distinct-replace c' s.conns h.distinct;
      counted = λ hash. h.counted hash ∙ sym (count_of-replace hash c c' s.conns found same_info);
    }

on_close-Stays : Stays on_close
unfolding on_close persist_now persist_rec
on_close-Stays w = ground arith

on_closed-IsCounted : (key : String) (s : RoomServer) → IsCounted s → IsCounted (on_closed key s)
unfolding on_closed run_on
on_closed-IsCounted key s h =
    let s' = run_at on_close [] (find (has_key key) s.conns) s in
    drop_at-IsCounted key s' (find (has_key key) s'.conns) refl
      (run_at-IsCounted on_close key (find (has_key key) s.conns) s on_close-Stays refl h)

-- While the keys of the connections differ and `perNetwork` has the number of connections of each
-- network, both stay so when a connection with a new key is accepted, and when the close of a key
-- is handled, whether or not a connection has it.
pub counting-IsCounted :
    (s : RoomServer) (key closing : String) (info : AdmitInfo)
    → IsCounted s
    → any (has_key key) s.conns ≡ false
    → IsCounted (accept key info s) × IsCounted (on_closed closing s)
counting-IsCounted s key closing info h fresh =
    (accept-IsCounted key info s fresh h, on_closed-IsCounted closing s h)
