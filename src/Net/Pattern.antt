-- ===== src/Net/Pattern.antt =====
-- net/origin.ts: what a pattern admits, said without an order of the search.
use the_room_backend.Base.{
  ℕ, ◌≡◌, refl, sym, ap, ◌∙◌, arith, map, ◌++◌, Bool, true, false, false≢true, ◌&&◌, ◌||◌, List, [],
  ◌∷◌, eqb, eqb_iff, keep, Bool-cases, inl, inr, subst,
}
use the_room_backend.Net.Text.{Chars, slash, colon, star}
use the_room_backend.Net.Origin.{
  Item, literal, label, item_of, pattern_of, is_label, some_labels, matches,
}

-- The text is the pattern with a text of one or more label characters in place of each `*`.
pub data Expands : List Item → Chars → Type 0 where
  done : Expands [] []
  same : {p : ℕ} {ps : List Item} {s : Chars} → Expands ps s → Expands (literal p ∷ ps) (p ∷ s)
  last_char :
      {c : ℕ} {ps : List Item} {s : Chars}
      → is_label c ≡ true
      → Expands ps s
      → Expands (label ∷ ps) (c ∷ s)
  next_char :
      {c : ℕ} {ps : List Item} {s : Chars}
      → is_label c ≡ true
      → Expands (label ∷ ps) s
      → Expands (label ∷ ps) (c ∷ s)

pub and_inv : (a b : Bool) → (a && b) ≡ true → (a ≡ true) × (b ≡ true)
and_inv true b h = (refl, h)
and_inv false b h = absurd (false≢true h)

module _ (ps : List Item) (onward : (s : Chars) → matches ps s ≡ true → Expands ps s) where
  some_labels→Expands : (s : Chars) → some_labels (matches ps) s ≡ true → Expands (label ∷ ps) s
  unfolding some_labels
  some_labels→Expands [] h = absurd (false≢true h)
  some_labels→Expands (c ∷ s) h =
      let (in_class, more) = and_inv (is_label c) _ h in
      elim (Bool-cases (matches ps s)) [
        | inl e ↦ last_char in_class (onward s e)
        | inr e ↦
            next_char in_class
              (some_labels→Expands s (subst (λ b. (b || some_labels (matches ps) s) ≡ true) e more))
      ]

pub matches→Expands : (ps : List Item) (s : Chars) → matches ps s ≡ true → Expands ps s
unfolding matches
matches→Expands [] [] h = done
matches→Expands [] (c ∷ s) h = absurd (false≢true h)
matches→Expands (literal p ∷ ps) [] h = absurd (false≢true h)
matches→Expands (literal p ∷ ps) (c ∷ s) h =
    let (is_p, more) = and_inv (eqb p c) _ h in
    subst (λ x. Expands (literal p ∷ ps) (x ∷ s)) ((eqb_iff p c).0 is_p)
      (same (matches→Expands ps s more))
matches→Expands (label ∷ ps) s h = some_labels→Expands ps (matches→Expands ps) s h

-- The characters that divide an origin: dots, colons and slashes.
unfoldable pub is_separator : ℕ → Bool
is_separator c = eqb c 46 || (eqb c 58 || eqb c 47)

unfoldable pub separators : Chars → Chars
separators s = keep is_separator s

label-separates : (c : ℕ) → is_label c ≡ true → is_separator c ≡ false
unfolding is_label is_separator
label-separates c h = ground (arith, h)

star-separates : is_separator star ≡ false
unfolding is_separator
star-separates = refl

-- The text of a pattern, with a `*` for a label.
unfoldable pub text_of : List Item → Chars
text_of [] = []
text_of (literal p ∷ ps) = p ∷ text_of ps
text_of (label ∷ ps) = star ∷ text_of ps

pub separators-Expands :
    (ps : List Item) (s : Chars) → Expands ps s → separators s ≡ separators (text_of ps)
unfolding separators text_of
separators-Expands [] s done = refl
separators-Expands (literal p ∷ ps) s (same d) = elim (Bool-cases (is_separator p)) [
  | inl e ↦ rw e (ap (λ r. p ∷ r) (separators-Expands ps _ d))
  | inr e ↦ rw e (separators-Expands ps _ d)
]
separators-Expands (label ∷ ps) s (last_char {c} l d) =
    rw (label-separates c l, star-separates) (separators-Expands ps _ d)
separators-Expands (label ∷ ps) s (next_char {c} l d) =
    rw (label-separates c l) (separators-Expands (label ∷ ps) _ d)

text_of-host : (host : Chars) → text_of (map item_of host) ≡ host
unfolding text_of
text_of-host [] = refl
text_of-host (c ∷ host) = elim (Bool-cases (eqb c star)) [
  | inl e ↦ rw (e, text_of-host host) (ap (λ x. x ∷ host) (sym ((eqb_iff c star).0 e)))
  | inr e ↦ rw (e, text_of-host host) refl
]

text_of-literals : (s : Chars) (ps : List Item) → text_of (map literal s ++ ps) ≡ s ++ text_of ps
unfolding text_of
text_of-literals [] ps = refl
text_of-literals (c ∷ s) ps = ap (λ r. c ∷ r) (text_of-literals s ps)

pub text_of-pattern_of :
    (scheme host : Chars)
    → text_of (pattern_of scheme host) ≡ (scheme ++ colon ∷ slash ∷ slash ∷ []) ++ host
unfolding pattern_of
text_of-pattern_of scheme host =
    text_of-literals (scheme ++ colon ∷ slash ∷ slash ∷ []) (map item_of host)
    ∙ ap (λ h. (scheme ++ colon ∷ slash ∷ slash ∷ []) ++ h) (text_of-host host)
