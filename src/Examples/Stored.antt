-- ===== src/Examples/Stored.antt =====
-- The theorems on store/memory.ts at concrete values.
use the_room_backend.Base.{◌+◌, ◌≡◌, refl, false, none, some, [], ◌∷◌, arith}
use the_room_backend.Base.Dict.{lookup}
use the_room_backend.Store.{StoredMessage}
use the_room_backend.Store.Memory.{
  MemoryStore, claim_name, name_owner, append_message, recent_messages, delete_room, hit, set_block,
  block_ttl, delete_block, acquire_once, live_list,
}
use the_room_backend.Store.Memory.Claims.{
  claim_name_exclusive, acquire_once_exclusive, block_ttl-set_block, delete_room_forgets,
}
use the_room_backend.Store.Memory.Messages.{recent_messages-append_all, append_all, log}
use the_room_backend.Store.Memory.Counters.{hit_all_counts, hit_all}

abbrev no_store : MemoryStore
no_store = record { kv = []; lists = []; presence = []; abuse = []; seq = 0 }

abbrev pub hello : StoredMessage
hello = record {
  public = record {
    id = "m1";
    author = "Calm Otter";
    text = 104 ∷ 105 ∷ [];
    ts = 5;
    country = none;
  };
  sid = "s1";
}

abbrev reply : StoredMessage
reply = record {
  public = record { id = "m2"; author = "Bold Wren"; text = 104 ∷ []; ts = 6; country = none };
  sid = "s2";
}

abbrev claimed : MemoryStore
claimed = (claim_name 5 "r" "Calm Otter" "s1" 100 no_store).1

claim_name_exclusive_example :
    ((name_owner 50 "r" "Calm Otter" claimed).0 ≡ some "s1")
    × ((claim_name 50 "r" "Calm Otter" "s2" 100 claimed).0 ≡ false)
unfolding lookup
claim_name_exclusive_example =
    claim_name_exclusive 5 50 100 "r" "Calm Otter" "s1" "s2" no_store (unfold claim_name in refl)

acquire_once_exclusive_example :
    let s = (acquire_once 5 "cleanup:r" 60000 no_store).1 in
    acquire_once 70 "cleanup:r" 60000 s ≡ (false, s)
unfolding lookup
acquire_once_exclusive_example =
    acquire_once_exclusive 5 70 60000 60000 "cleanup:r" no_store (unfold acquire_once in refl)
      (omega arith)

block_ttl-set_block_example :
    (block_ttl 40 "sess:s1" (set_block 5 "sess:s1" 600 "severe" no_store) ≡ 565)
    × (block_ttl 40 "sess:s1" (delete_block "sess:s1" (set_block 5 "sess:s1" 600 "severe" no_store))
        ≡ 0)
block_ttl-set_block_example = block_ttl-set_block 5 40 600 "sess:s1" "severe" no_store

delete_room_forgets_example :
    (recent_messages 6 "r" 50 (delete_room "r" claimed) ≡ [])
    × ((name_owner 6 "r" "Calm Otter" (delete_room "r" claimed)).0 ≡ none)
delete_room_forgets_example = delete_room_forgets 6 50 "r" "Calm Otter" claimed

abbrev with_hello : MemoryStore
with_hello = append_message 5 "r" hello 100 1000 no_store

recent_messages-append_all_example :
    recent_messages 7 "r" 1 (append_all "r" 100 1000 ((5, hello) ∷ (6, reply) ∷ []) no_store)
    ≡ reply ∷ []
unfolding lookup live_list log
recent_messages-append_all_example =
    recent_messages-append_all 5 7 "r" hello 100 1000 1 ((6, reply) ∷ []) no_store refl
      (omega arith, tt) (omega arith)

hit_all_counts_example :
    hit_all "msg:h" 1000 100 (200 ∷ 900 ∷ []) no_store ≡ (hit 100 "msg:h" 1000 1 no_store).0 + 2
hit_all_counts_example =
    hit_all_counts "msg:h" 1000 100 (200 ∷ 900 ∷ []) no_store (omega arith) (refl, (refl, tt))
