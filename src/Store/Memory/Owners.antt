-- ===== src/Store/Memory/Owners.antt =====
-- store/memory.ts: what a read of a name's owner leaves, and that blocks do not touch it.
use the_room_backend.Base.{
  ℕ, ◌-◌, ◌≡◌, refl, ap, ◌∙◌, false, Option, none, some, String, ◌==◌, arith, eq_iff, subst, leb→le,
  Bool-cases, Option-cases, leb, ◌⊎◌, inl, inr,
}
use the_room_backend.Base.Dict.{lookup, lookup-delete}
use the_room_backend.Base.Text.{◌^^◌}
use package.text.Mathlib.TextLemmas.{cons-append}
use Prim.Native.Char.{Char, code}
use the_room_backend.Store.Memory.{
  MemoryStore, name_owner, name_key, block_key, session_key, resume_key, get, get_as, as_text,
  Value, block_ttl, text,
}

-- Reading a key deletes it at most where it has run out.
pub block_ttl-get :
    (now : ℕ) (key k : String) (s : MemoryStore)
    → block_ttl now key (get now k s).1 ≡ block_ttl now key s
unfolding block_ttl get
block_ttl-get now key k s = elim (Option-cases (lookup k s.kv)) [
  | inl h ↦ rw h
  | inr (e, h) ↦ elim (Bool-cases (leb e.exp now)) [
    | inl late ↦ elim (Bool-cases (k == block_key key)) [
      | inl same ↦
          let found : lookup (block_key key) s.kv ≡ some e =
            subst (λ j. lookup j s.kv ≡ some e) ((eq_iff k (block_key key)).0 same) h in
          let none_left : e.exp - now ≡ 0 = omega (arith, leb→le e.exp now late) in
          rw (h, late, lookup-delete k (block_key key), same, found, none_left)
      | inr other ↦ rw (h, late, lookup-delete k (block_key key), other)
    ]
    | inr early ↦ rw (h, early)
  ]
]

pub get_as-store :
    {A : Type 0} (read : Value → Option A) (found : Option Value × MemoryStore)
    → (get_as read found).1 ≡ found.1
get_as-store read (none, s) = refl
get_as-store read (some v, s) = refl

pub get-abuse : (now : ℕ) (k : String) (s : MemoryStore) → (get now k s).1.abuse ≡ s.abuse
unfolding get
get-abuse now k s = elim (Option-cases (lookup k s.kv)) [
  | inl h ↦ rw h
  | inr (e, h) ↦ ground (arith, h)
]

unfoldable first : String → ℕ
first String.[] = 0
first (String.◌∷◌ c s) = code c

first-append : (c : Char) (s t : String) → first (String.◌∷◌ c s ^^ t) ≡ code c
unfolding first
first-append c s t = rw (cons-append c s t)

first-append_append : (c : Char) (s t u : String) → first ((String.◌∷◌ c s ^^ t) ^^ u) ≡ code c
unfolding first
first-append_append c s t u = rw (cons-append c s t, cons-append c (s ^^ t) u)

pub block_key≢name_key :
    (key room_id name : String) → (block_key key == name_key room_id name) ≡ false
block_key≢name_key key room_id name = elim (Bool-cases (block_key key == name_key room_id name)) [
  | inl same ↦
      let heads = ap first ((eq_iff (block_key key) (name_key room_id name)).0 same) in
      absurd (
        omega (
          arith,
          heads,
          first-append "b" "lock:" key,
          first-append_append "n" "ame:" (room_id ^^ ":") name,
        ))
  | inr other ↦ other
]

pub resume_key≢session_key : (hash sid : String) → (resume_key hash == session_key sid) ≡ false
resume_key≢session_key hash sid = elim (Bool-cases (resume_key hash == session_key sid)) [
  | inl same ↦
      let heads = ap first ((eq_iff (resume_key hash) (session_key sid)).0 same) in
      absurd (omega (arith, heads, first-append "r" "esume:" hash, first-append "s" "ess:" sid))
  | inr other ↦ other
]

-- A read that finds something deletes nothing.
get_found :
    (now : ℕ) (k : String) (s : MemoryStore) → ((get now k s).1 ≡ s) ⊎ ((get now k s).0 ≡ none)
unfolding get
get_found now k s = elim (Option-cases (lookup k s.kv)) [
  | inl h ↦ inr (rw h)
  | inr (e, h) ↦ elim (Bool-cases (leb e.exp now)) [
    | inl late ↦ inr (rw (h, late))
    | inr early ↦ inl (rw (h, early))
  ]
]

pub get_as_missing :
    {A : Type 0} (read : Value → Option A) (found : Option Value × MemoryStore)
    → found.0 ≡ none
    → (get_as read found).0 ≡ none
get_as_missing read (none, s) h = refl
get_as_missing read (some v, s) h = cc

pub name_owner_found :
    (now : ℕ) (room_id name sid : String) (s : MemoryStore)
    → (name_owner now room_id name s).0 ≡ some sid
    → (name_owner now room_id name s).1 ≡ s
unfolding name_owner
name_owner_found now room_id name sid s h = elim (get_found now (name_key room_id name) s) [
  | inl same ↦ get_as-store as_text (get now (name_key room_id name) s) ∙ same
  | inr missing ↦
      absurd (cc (h, get_as_missing as_text (get now (name_key room_id name) s) missing))
]

pub name_owner-same :
    (now : ℕ) (room_id name : String) (s t : MemoryStore)
    → lookup (name_key room_id name) t.kv ≡ lookup (name_key room_id name) s.kv
    → (name_owner now room_id name t).0 ≡ (name_owner now room_id name s).0
unfolding name_owner get
name_owner-same now room_id name s t same =
    elim (Option-cases (lookup (name_key room_id name) s.kv)) [
      | inl h ↦ rw (same, h)
      | inr (e, h) ↦ elim (Bool-cases (leb e.exp now)) [
        | inl late ↦ rw (same, h, late)
        | inr early ↦ rw (same, h, early)
      ]
    ]
