-- ===== src/Store/Redis/Runs.antt =====
-- store/redis.ts beside store/memory.ts: runs of operations on names, resume tokens and blocks.
use the_room_backend.Base.{
  ℕ, ◌+◌, ◌-◌, ◌≤◌, ◌≡◌, refl, sym, ap, ◌∙◌, Bool, false, max, Option, List, [], ◌∷◌, String, ltb,
  arith, Bool-cases, inl, inr, subst, All,
}
use the_room_backend.Store.Memory
use the_room_backend.Store.Memory.{
  MemoryStore, name_key, resume_key, block_key, text, as_text, get, get_as,
}
use the_room_backend.Store.Redis.{Commands, Codec, IsRedis, k}
use the_room_backend.Store.Redis.Operations
use the_room_backend.Store.Memory.Owners.{get_as-store}
use the_room_backend.Store.Redis.Agreement.{
  AgreesAt, Agrees, Agrees-later, get-Agrees, put-Agrees, put_if_free-Agrees, delete-Agrees,
}

pub data StoreCall : Type 0 where
  claim_name : (room_id name sid : String) → (expire_at : ℕ) → StoreCall
  name_owner : (room_id name : String) → StoreCall
  set_resume : (hash sid : String) → (expire_at : ℕ) → StoreCall
  resolve_resume : (hash : String) → StoreCall
  set_block : (key : String) → (ttl_ms : ℕ) → (reason : String) → StoreCall
  block_ttl : (key : String) → StoreCall
  delete_block : (key : String) → StoreCall

pub data StoreReply : Type 0 where
  whether : Bool → StoreReply
  owner : Option String → StoreReply
  left : ℕ → StoreReply
  done : StoreReply

unfoldable pub in_memory : ℕ → StoreCall → MemoryStore → StoreReply × MemoryStore
in_memory now (claim_name room_id name sid expire_at) m =
    let (b, m') = Memory.claim_name now room_id name sid expire_at m in (whether b, m')
in_memory now (name_owner room_id name) m =
    let (o, m') = Memory.name_owner now room_id name m in (owner o, m')
in_memory now (set_resume hash sid expire_at) m = (done, Memory.set_resume hash sid expire_at m)
in_memory now (resolve_resume hash) m =
    let (o, m') = Memory.resolve_resume now hash m in (owner o, m')
in_memory now (set_block key ttl_ms reason) m = (done, Memory.set_block now key ttl_ms reason m)
in_memory now (block_ttl key) m = (left (Memory.block_ttl now key m), m)
in_memory now (delete_block key) m = (done, Memory.delete_block key m)

-- Redis takes blocks of at least a millisecond and keeps 200 characters of a reason.
unfoldable pub IsOrdinary : Codec → StoreCall → Type 0
IsOrdinary codec (set_block key ttl_ms reason) = (1 ≤ ttl_ms) × (codec.first_200 reason ≡ reason)
IsOrdinary codec _ = Unit {0}

-- Calls in order, each some time after the one before.
unfoldable pub memory_replies : ℕ → List (ℕ × StoreCall) → MemoryStore → List StoreReply
memory_replies now [] m = []
memory_replies now ((elapsed, c) ∷ cs) m =
    let (reply, m') = in_memory (now + elapsed) c m in reply ∷ memory_replies (now + elapsed) cs m'

module _ (R : Commands) (codec : Codec) (p : String) where
  unfoldable pub on_redis : ℕ → StoreCall → R.State → StoreReply × R.State
  on_redis now (claim_name room_id name sid expire_at) r =
      let (b, r') = Operations.claim_name R codec p now room_id name sid expire_at r in
      (whether b, r')
  on_redis now (name_owner room_id name) r =
      (owner (Operations.name_owner R codec p now room_id name r), r)
  on_redis now (set_resume hash sid expire_at) r =
      (done, Operations.set_resume R codec p now hash sid expire_at r)
  on_redis now (resolve_resume hash) r = (owner (Operations.resolve_resume R codec p now hash r), r)
  on_redis now (set_block key ttl_ms reason) r =
      (done, Operations.set_block R codec p now key ttl_ms reason r)
  on_redis now (block_ttl key) r = (left (Operations.block_ttl R codec p now key r), r)
  on_redis now (delete_block key) r = (done, Operations.delete_block R codec p now key r)

  unfoldable pub redis_replies : ℕ → List (ℕ × StoreCall) → R.State → List StoreReply
  redis_replies now [] r = []
  redis_replies now ((elapsed, c) ∷ cs) r =
      let (reply, r') = on_redis (now + elapsed) c r in reply ∷ redis_replies (now + elapsed) cs r'

  module _ (L : IsRedis R) where
    block_ttl-Agrees :
        (now : ℕ) (key : String) (r : R.State) (m : MemoryStore)
        → Agrees R L p now r m
        → Operations.block_ttl R codec p now key r ≡ Memory.block_ttl now key m
    unfolding AgreesAt Operations.block_ttl Memory.block_ttl
    block_ttl-Agrees now key r m h =
        let left_there = L.pttl-peek now (k p (block_key key)) r in
        elim (h (block_key key)) [
          | inl (missing, gone) ↦ rw (left_there, gone now (omega arith), missing)
          | inr (t, until, held, shows) ↦ elim (Bool-cases (ltb now until)) [
            | inl early ↦ rw (left_there, shows now (omega arith), early, held)
            | inr late ↦
                let none_left : until - now ≡ 0 = ground (arith, late) in
                rw (left_there, shows now (omega arith), late, held, none_left)
          ]
        ]

    set_block-set_at :
        (now : ℕ) (key : String) (ttl_ms : ℕ) (reason : String) (r : R.State)
        → IsOrdinary codec (set_block key ttl_ms reason)
        → Operations.set_block R codec p now key ttl_ms reason r
          ≡ (R.set_at now (k p (block_key key)) reason (now + ttl_ms) false r).1
    unfolding Operations.set_block IsOrdinary
    set_block-set_at now key ttl_ms reason r (positive, short) =
        let at_least : max 1 ttl_ms ≡ ttl_ms = omega (arith, positive) in
        let place = k p (block_key key) in
        ap (λ t. (R.set_for now place (codec.first_200 reason) t false r).1) at_least
        ∙ (ap (λ text_of. (R.set_for now place text_of ttl_ms false r).1) short
            ∙ ap (λ x. x.1) (L.set_for-set_at now place reason ttl_ms false r))

    step-Agrees :
        (now : ℕ) (c : StoreCall) (r : R.State) (m : MemoryStore)
        → IsOrdinary codec c
        → Agrees R L p now r m
        → ((on_redis now c r).0 ≡ (in_memory now c m).0)
          × Agrees R L p now (on_redis now c r).1 (in_memory now c m).1
    unfolding in_memory on_redis IsOrdinary
    step-Agrees now (claim_name room_id name sid expire_at) r m ordinary h =
        unfold Operations.claim_name Memory.claim_name in
        let (same, agrees) =
          put_if_free-Agrees R L p now (name_key room_id name) sid expire_at r m h in
        (ap whether same, agrees)
    step-Agrees now (name_owner room_id name) r m ordinary h =
        unfold Operations.name_owner Memory.name_owner in
        let (same, agrees, held) = get-Agrees R L p now (name_key room_id name) r m h in
        (ap owner same, rw (get_as-store as_text (get now (name_key room_id name) m)) agrees)
    step-Agrees now (set_resume hash sid expire_at) r m ordinary h =
        unfold Operations.set_resume Memory.set_resume in
        (refl, put-Agrees R L p now (resume_key hash) sid expire_at r m h)
    step-Agrees now (resolve_resume hash) r m ordinary h =
        unfold Operations.resolve_resume Memory.resolve_resume in
        let (same, agrees, held) = get-Agrees R L p now (resume_key hash) r m h in
        (ap owner same, rw (get_as-store as_text (get now (resume_key hash) m)) agrees)
    step-Agrees now (set_block key ttl_ms reason) r m ordinary h =
        unfold Memory.set_block in
        let same = set_block-set_at now key ttl_ms reason r ordinary in
        (
          refl,
          subst (λ r'. Agrees R L p now r' (Memory.set_block now key ttl_ms reason m)) (sym same)
              (put-Agrees R L p now (block_key key) reason (now + ttl_ms) r m h),
        )
    step-Agrees now (block_ttl key) r m ordinary h = (ap left (block_ttl-Agrees now key r m h), h)
    step-Agrees now (delete_block key) r m ordinary h =
        unfold Operations.delete_block Memory.delete_block in
        (refl, delete-Agrees R L p now (block_key key) r m h)

    -- From stores that hold the same, RedisStore and MemoryStore answer every run of calls alike,
    -- where each block is for a millisecond or more and its reason has at most 200 characters.
    pub redis_replies-memory_replies :
        (now : ℕ) (calls : List (ℕ × StoreCall)) (r : R.State) (m : MemoryStore)
        → All (λ c. IsOrdinary codec c.1) calls
        → Agrees R L p now r m
        → redis_replies now calls r ≡ memory_replies now calls m
    unfolding redis_replies memory_replies
    redis_replies-memory_replies now [] r m ordinary h = refl
    redis_replies-memory_replies now ((elapsed, c) ∷ cs) r m ordinary h =
        let then_ : ℕ = now + elapsed in
        let (same, agrees) =
          step-Agrees then_ c r m ordinary.0 (Agrees-later R L p now then_ r m (omega arith) h) in
        cc (
          same,
          redis_replies-memory_replies then_ cs (on_redis then_ c r).1 (in_memory then_ c m).1
              ordinary.1 agrees,
        )
