-- ===== src/Http/Bounds.antt =====
-- http/routes.ts: the bounds on what a request may ask for.
use the_room_backend.Base.{
  some-none, ℕ, ◌+◌, ◌≤◌, ◌≡◌, refl, sym, ap, subst, Bool, true, false, ◌||◌, Option, none, some,
  List, [], ◌∷◌, String, if◌then◌else◌, arith, leb, ltb, Bool-cases, inl, inr, or_else,
}
use the_room_backend.Base.Int.{pos, negsuc}
use the_room_backend.Http.Request.{
  Json, JsonField, absent, text, whole, other_value, BlockBody, block_schema, name_field,
  minutes_field, has_text, max_minutes, then_some,
}
use the_room_backend.Http.Effects.{fits, max_body}

unfoldable pub sum : List ℕ → ℕ
sum [] = 0
sum (n ∷ ns) = n + sum ns

-- The loop that adds up the chunks and stops early accepts a body exactly where all of it is at
-- most 4096 bytes.
pub fits-sum :
    (size : ℕ) (chunks : List ℕ)
    → size ≤ max_body
    → fits size chunks ≡ leb (size + sum chunks) max_body
unfolding fits sum
fits-sum size [] h = ground arith
fits-sum size (chunk ∷ chunks) h = elim (Bool-cases (ltb max_body (size + chunk))) [
  | inl over ↦ ground (arith, over)
  | inr under ↦ ground (arith, under, fits-sum (size + chunk) chunks (ground (arith, under)))
]

-- What a field says, where the schema takes it.
abbrev IsNamed : (p : String → Bool) → Option String → Type 0
IsNamed p none = Unit {0}
IsNamed p (some s) = p s ≡ true

minutes_field_bounds :
    (f : JsonField) (n : ℕ) → minutes_field f ≡ some n → (1 ≤ n) × (n ≤ max_minutes)
unfolding minutes_field
minutes_field_bounds absent n h = ground arith
minutes_field_bounds (text s size) n h = cc
minutes_field_bounds (whole (pos m)) n h = ground arith
minutes_field_bounds (whole (negsuc m)) n h = cc
minutes_field_bounds other_value n h = cc

name_field-IsNamed :
    (p : String → Bool) (f : JsonField) (name : Option String)
    → name_field p f ≡ some name
    → IsNamed p name
unfolding name_field
name_field-IsNamed p absent none h = tt
name_field-IsNamed p absent (some s) h = cc
name_field-IsNamed p (text t size) none h = tt
name_field-IsNamed p (text t size) (some s) h = elim (Bool-cases (p t)) [
  | inl e ↦ cc (e, h)
  | inr e ↦ cc (e, h)
]
name_field-IsNamed p (whole z) name h = cc
name_field-IsNamed p other_value name h = cc

-- A block of at least a minute and at most a week, of a session that is named or wrote a message.
abbrev pub IsBounded : (p : String → Bool) → BlockBody → Type 0
IsBounded p b =
    (1 ≤ b.minutes)
    × (b.minutes ≤ max_minutes)
    × IsNamed p b.public_name
    × ((has_text b.public_name || has_text b.message_id) ≡ true)

then_some_inv :
    {A B : Type 0} (o : Option A) (f : A → Option B) (b : B)
    → then_some o f ≡ some b
    → (a : A) × (o ≡ some a) × (f a ≡ some b)
unfolding then_some
then_some_inv none f b h = absurd (some-none b (sym h))
then_some_inv (some a) f b h = (a, refl, h)

if_some_inv :
    {B : Type 0} (c : Bool) (x : Option B) (b : B)
    → (if c then x else none) ≡ some b
    → (c ≡ true) × (x ≡ some b)
if_some_inv true x b h = (refl, h)
if_some_inv false x b h = absurd (some-none b (sym h))

if_none_inv :
    {B : Type 0} (c : Bool) (x : Option B) (b : B) → (if c then none else x) ≡ some b → x ≡ some b
if_none_inv true x b h = absurd (some-none b (sym h))
if_none_inv false x b h = h

-- An accepted body asks for a block of one minute to a week, and names the session by a public
-- name or a message.
pub block_schema_bounds :
    (p : String → Bool) (json : Option Json) (b : BlockBody)
    → block_schema p json ≡ some b
    → IsBounded p b
unfolding block_schema
block_schema_bounds p none b h = cc
block_schema_bounds p (some j) b h =
    let (name, named, h₁) = then_some_inv _ _ b (if_none_inv j.unknown_keys _ b h) in
    let (id, identified, h₂) = then_some_inv _ _ b h₁ in
    let (minutes, timed, h₃) = then_some_inv _ _ b h₂ in
    let (reason, reasoned, h₄) = then_some_inv _ _ b h₃ in
    let (says, made) =
      if_some_inv (has_text name || has_text id)
        (some (record {
          public_name = name;
          message_id = id;
          minutes = minutes;
          reason = or_else reason "admin";
        }))
        b h₄ in
    let (least, most) = minutes_field_bounds j.minutes minutes timed in
    subst (IsBounded p) (ap (λ o. or_else o b) made)
      (least, most, name_field-IsNamed p j.public_name name named, says)
