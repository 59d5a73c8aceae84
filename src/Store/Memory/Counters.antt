-- ===== src/Store/Memory/Counters.antt =====
-- store/memory.ts: fixed-window counters, short-lived sets and presence.
use native.Mathlib.Nat.{lt-div-mul-add, div-mul-le_self}
use the_room_backend.Base.{
  ℕ, ◌+◌, ◌/◌, ◌≤◌, ◌<◌, ◌≡◌, refl, sym, subst, ◌∙◌, true, some, List, [], ◌∷◌, ◌++◌, String, ◌==◌,
  eq_refl, arith, length, any, Bool-cases, inl, inr, length-append,
}
use the_room_backend.Base.Dict.{lookup}
use the_room_backend.Store.Memory.{
  MemoryStore, number, members, as_number, get_as, window_key, set_key, get, hit, add_to_set,
  add_member, members_of,
}
use the_room_backend.Store.Memory.Claims.{get_live, lookup-put_self}

hit-stored :
    (now : ℕ) (key : String) (window by : ℕ) (s : MemoryStore)
    → lookup (window_key key (now / window)) (hit now key window by s).1.kv
      ≡ some (record { v = number (hit now key window by s).0; exp = now + window })
unfolding hit
hit-stored now key window by s =
    let k = window_key key (now / window) in
    lookup-put_self k _ _ (get_as as_number (get now k s)).1

-- A second call in the same window goes on from the first one's count.
pub hit-hit :
    (now later : ℕ) (key : String) (window by more : ℕ) (s : MemoryStore)
    → later / window ≡ now / window
    → later < now + window
    → (hit later key window more (hit now key window by s).1).0 ≡ (hit now key window by s).0 + more
hit-hit now later key window by more s same lt =
    unfold hit in
    rw
      (
        same,
        get_live later (window_key key (now / window)) _ (hit now key window by s).1
            (hit-stored now key window by s) lt,
      )
      refl

same_window :
    (now later window : ℕ) → 0 < window → later / window ≡ now / window → later < now + window
same_window now later window h e =
    omega (arith, rw e at (lt-div-mul-add {a = later} h), div-mul-le_self now window)

-- Calls at the times, one point each; the last one's count.
abbrev pub hit_all : (key : String) → (window now : ℕ) → List ℕ → MemoryStore → ℕ
hit_all key window now [] s = (hit now key window 1 s).0
hit_all key window now (t ∷ ts) s = hit_all key window t ts (hit now key window 1 s).1

abbrev pub InWindow : (window q : ℕ) → List ℕ → Type 0
InWindow window q [] = Unit {0}
InWindow window q (t ∷ ts) = (t / window ≡ q) × InWindow window q ts

-- Within one window every call counts: the last of them returns the count of the first and one for
-- each call after it.
pub hit_all_counts :
    (key : String) (window now : ℕ) (ts : List ℕ) (s : MemoryStore)
    → 0 < window
    → InWindow window (now / window) ts
    → hit_all key window now ts s ≡ (hit now key window 1 s).0 + length ts
hit_all_counts key window now [] s h i = omega arith
hit_all_counts key window now (t ∷ ts) s h i =
    let s' = (hit now key window 1 s).1 in
    hit_all_counts key window t ts s' h (subst (λ q. InWindow window q ts) (sym i.0) i.1)
    ∙ omega (arith, hit-hit now t key window 1 1 s i.0 (same_window now t window h i.0))

has_member-add_member :
    (m : String) (set : List String) → any (λ x. x == m) (add_member m set) ≡ true
unfolding add_member
has_member-add_member m set = elim (Bool-cases (any (λ x. x == m) set)) [
  | inl old ↦ rw old old
  | inr new ↦ rw new (any_last set)
]
  where
    any_last : (xs : List String) → any (λ x. x == m) (xs ++ m ∷ []) ≡ true
    any_last [] = rw (eq_refl m)
    any_last (x ∷ xs) = ground (arith, any_last xs)

length-add_member :
    (m : String) (set : List String)
    → (length set ≤ length (add_member m set)) × (length (add_member m set) ≤ length set + 1)
unfolding add_member
length-add_member m set = ground (arith, length-append set (m ∷ []))

add_to_set-live :
    (now : ℕ) (key m : String) (ttl : ℕ) (set : List String) (exp : ℕ) (s : MemoryStore)
    → lookup (set_key key) s.kv ≡ some (record { v = members set; exp = exp })
    → now < exp
    → (add_to_set now key m ttl s).0 ≡ length (add_member m set)
unfolding add_to_set
add_to_set-live now key m ttl set exp s h lt = rw (get_live now (set_key key) _ s h lt, members_of)

add_to_set-stored :
    (now : ℕ) (key m : String) (ttl : ℕ) (s : MemoryStore)
    → let set = add_member m (members_of (get now (set_key key) s).0) in
      ((add_to_set now key m ttl s).0 ≡ length set)
      × (lookup (set_key key) (add_to_set now key m ttl s).1.kv
          ≡ some (record { v = members set; exp = now + ttl }))
unfolding add_to_set
add_to_set-stored now key m ttl s = (refl, lookup-put_self _ _ _ (get now (set_key key) s).1)

-- While the set lives its size counts each member once: adding the same member again leaves the
-- size, and adding any member makes it larger by at most one and never smaller.
pub add_to_set_counts :
    (now later : ℕ) (key m other : String) (ttl more : ℕ) (s : MemoryStore)
    → later < now + ttl
    → let (size, s') = add_to_set now key m ttl s in
      ((add_to_set later key m more s').0 ≡ size)
      × (size ≤ (add_to_set later key other more s').0)
      × ((add_to_set later key other more s').0 ≤ size + 1)
add_to_set_counts now later key m other ttl more s lt =
    let set = add_member m (members_of (get now (set_key key) s).0) in
    let (size, stored) = add_to_set-stored now key m ttl s in
    let s' = (add_to_set now key m ttl s).1 in
    let again = add_to_set-live later key m more set (now + ttl) s' stored lt in
    let another = add_to_set-live later key other more set (now + ttl) s' stored lt in
    (
      again
          ∙ unfold add_member in
            rw (has_member-add_member m (members_of (get now (set_key key) s).0)) (sym size),
      omega (arith, size, another, length-add_member other set),
      omega (arith, size, another, length-add_member other set),
    )
