-- ===== src/Gateway/RoomServer/Backoff.antt =====
-- gateway/room-server.ts `admit`: a network that connects too often is kept out for a while.
use the_room_backend.Base.{
  ℕ, zero, suc, ◌+◌, ◌^◌, ◌≤◌, ◌<◌, ◌≡◌, refl, ap, true, none, some, String, arith, ltb, is_some,
  Bool-cases, inl, inr, min,
}
use the_room_backend.Base.Text.{◌^^◌}
use the_room_backend.Store.Memory.{MemoryStore, hit, set_block, block_ttl}
use the_room_backend.Store.Memory.Claims.{block_ttl-set_block}
use the_room_backend.Gateway.World.{NetworkIdentity}
use the_room_backend.Gateway.RoomServer.Admission.{
  no_faults, connect_flood, blocked, backoff, backoff_ms, backoff_key, net_key, refuse_flood,
  count_attempt, check_store,
}

hit_positive :
    (now : ℕ) (key : String) (window by : ℕ) (s : MemoryStore) → by ≤ (hit now key window by s).0
unfolding hit
hit_positive now key window by s = omega arith

-- The backoff that a refused flood leaves.
record IsBackedOff (now : ℕ) (net : NetworkIdentity) (s' : MemoryStore) : Type 0 where
  attempts : ℕ
  some_attempts : 1 ≤ attempts
  before : MemoryStore
  set : s' ≡ set_block now (backoff_key net) (backoff_ms attempts) "connect_flood" before

refuse_flood_lem :
    (now : ℕ) (net : NetworkIdentity) (s : MemoryStore)
    → IsBackedOff now net (refuse_flood no_faults now net s).1
unfolding refuse_flood
refuse_flood_lem now net s = record {
  attempts = (hit now ("connx:" ^^ net.daily_hash) 3600000 1 s).0;
  some_attempts = hit_positive now ("connx:" ^^ net.daily_hash) 3600000 1 s;
  before = (hit now ("connx:" ^^ net.daily_hash) 3600000 1 s).1;
  set = refl;
}

count_attempt_lem :
    (now most : ℕ) (net : NetworkIdentity) (s : MemoryStore)
    → (count_attempt no_faults now most net s).0 ≡ some connect_flood
    → IsBackedOff now net (count_attempt no_faults now most net s).1
unfolding count_attempt
count_attempt_lem now most net s h =
    let (attempts, s') = hit now ("conn:" ^^ net.daily_hash) 60000 1 s in
    elim (Bool-cases (ltb most attempts)) [
      | inl e ↦ rw e (refuse_flood_lem now net s')
      | inr e ↦ absurd (none_lem (rw e at h))
    ]
  where
    none_lem : none ≡ some connect_flood → ⊥
    none_lem e = cc

check_store_lem :
    (now most : ℕ) (net : NetworkIdentity) (s : MemoryStore)
    → (check_store no_faults now most net s).0 ≡ some connect_flood
    → IsBackedOff now net (check_store no_faults now most net s).1
unfolding check_store
check_store_lem now most net s h = elim (Bool-cases (ltb 0 (block_ttl now (net_key net) s))) [
  | inl e ↦ absurd (blocked_lem (rw e at h))
  | inr e ↦ elim (Bool-cases (ltb 0 (block_ttl now (backoff_key net) s))) [
    | inl e' ↦ absurd (backoff_lem (rw (e, e') at h))
    | inr e' ↦ rw (e, e') (count_attempt_lem now most net s (rw (e, e') at h))
  ]
]
  where
    blocked_lem : some blocked ≡ some connect_flood → ⊥
    blocked_lem e = cc

    backoff_lem : some backoff ≡ some connect_flood → ⊥
    backoff_lem e = cc

one_le_pow : (k : ℕ) → 1 ≤ 2 ^ k
one_le_pow zero = omega arith
one_le_pow (suc k) = omega (arith, one_le_pow k)

two_le_pow : (k : ℕ) → 1 ≤ k → 2 ≤ 2 ^ k
two_le_pow zero h = absurd (omega (arith, h))
two_le_pow (suc k) h = omega (arith, one_le_pow k)

backoff_ms-ge : (n : ℕ) → 1 ≤ n → 2000 ≤ backoff_ms n
unfolding backoff_ms
backoff_ms-ge n h = omega (arith, two_le_pow (min n 10) (omega arith))

refused_lem :
    (later most : ℕ) (net : NetworkIdentity) (s : MemoryStore)
    → 0 < block_ttl later (backoff_key net) s
    → is_some (check_store no_faults later most net s).0 ≡ true
unfolding check_store
refused_lem later most net s h = ground (arith, h)

-- While the store answers: a network whose connection is refused as a flood gets in with no other
-- in the two seconds after it.
pub check_store-flood :
    (now later most : ℕ) (net : NetworkIdentity) (s : MemoryStore)
    → (check_store no_faults now most net s).0 ≡ some connect_flood
    → later < now + 2000
    → is_some (check_store no_faults later most net (check_store no_faults now most net s).1).0
      ≡ true
check_store-flood now later most net s h soon =
    let s' = (check_store no_faults now most net s).1 in
    let backed = check_store_lem now most net s h in
    let ttl =
      (block_ttl-set_block now later (backoff_ms backed.attempts) (backoff_key net) "connect_flood"
        backed.before).0 in
    let left = ap (λ (x : MemoryStore). block_ttl later (backoff_key net) x) backed.set in
    refused_lem later most net s'
      (omega (arith, ttl, left, soon, backoff_ms-ge backed.attempts backed.some_attempts))
