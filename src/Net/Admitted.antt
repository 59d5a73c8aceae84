-- ===== src/Net/Admitted.antt =====
-- net/origin.ts: which origins the whole list admits.
use the_room_backend.Base.{
  ◌≡◌, refl, sym, ap, ◌∙◌, ◌++◌, All, Bool, true, false, false≢true, ◌||◌, Option, none, some, List,
  [], ◌∷◌, eqb, eqb_iff, if◌then◌else◌, any, Bool-cases, inl, inr, ◌⊎◌, subst,
}
use the_room_backend.Net.Text.{Chars, star, colon, slash, equal, first_two, is_empty}
use the_room_backend.Net.Origin.{
  RegExp, is_plain, matches, pattern_of, pattern_matches, entry_admits, normalize_origin,
  origin_matcher,
}
use the_room_backend.Net.Pattern.{
  matches→Expands, separators, text_of-pattern_of, separators-Expands, and_inv,
}

-- Some element of the list has the property.
unfoldable pub OneOf : (Chars → Type 0) → List Chars → Type 0
OneOf P [] = ⊥
OneOf P (x ∷ xs) = P x ⊎ OneOf P xs

any→OneOf :
    (p : Chars → Bool) (H P : Chars → Type 0) (xs : List Chars)
    → ((x : Chars) → H x → p x ≡ true → P x)
    → All H xs
    → any p xs ≡ true
    → OneOf P xs
unfolding OneOf
any→OneOf p H P [] f hs h = false≢true h
any→OneOf p H P (x ∷ xs) f hs h = elim (Bool-cases (p x)) [
  | inl e ↦ inl (f x hs.0 e)
  | inr e ↦ inr (any→OneOf p H P xs f hs.1 (subst (λ b. (b || any p xs) ≡ true) e h))
]

equal_eq : (s t : Chars) → equal s t ≡ true → s ≡ t
unfolding equal
equal_eq [] [] h = refl
equal_eq [] (d ∷ t) h = absurd (false≢true h)
equal_eq (c ∷ s) [] h = absurd (false≢true h)
equal_eq (c ∷ s) (d ∷ t) h =
    let (heads, tails) = and_inv (eqb c d) _ h in cc ((eqb_iff c d).0 heads, equal_eq s t tails)

abbrev scheme_end : Chars
scheme_end = colon ∷ slash ∷ slash ∷ []

abbrev pub has_star : Chars → Bool
has_star e = any (λ c. eqb c star) e

-- The entry has no `*`, or a scheme of letters, digits and hyphens, as config.ts has it.
unfoldable pub HasPlainScheme : Chars → Type 0
HasPlainScheme e = has_star e ≡ true → is_plain (first_two scheme_end e).0 ≡ true

abbrev parts_text : Chars × Option Chars → Chars
parts_text (scheme, none) = []
parts_text (scheme, some host) = (scheme ++ scheme_end) ++ host

-- The text of an entry that counts: of one with a `*`, the scheme and the host.
unfoldable pub entry_text : Chars → Chars
unfolding parts_text
entry_text e = if has_star e then parts_text (first_two scheme_end e) else e

-- What is true where a guard gives false otherwise.
guard_inv : (b x : Bool) → (if b then false else x) ≡ true → x ≡ true
guard_inv true x h = absurd (false≢true h)
guard_inv false x h = h

pattern_matches-separators :
    (regexp : RegExp) (parts : Chars × Option Chars) (o : Chars)
    → is_plain parts.0 ≡ true
    → pattern_matches regexp parts o ≡ true
    → separators o ≡ separators (parts_text parts)
unfolding pattern_matches
pattern_matches-separators regexp (scheme, none) o plain h = absurd (false≢true h)
pattern_matches-separators regexp (scheme, some host) o plain h =
    let chosen : Bool → Bool =
      λ b. if b then matches (pattern_of scheme host) o else regexp scheme host o in
    let found = subst (λ b. chosen b ≡ true) plain (guard_inv (is_empty host) _ h) in
    separators-Expands (pattern_of scheme host) o (matches→Expands (pattern_of scheme host) o found)
    ∙ ap separators (text_of-pattern_of scheme host)

entry_admits-separators :
    (regexp : RegExp) (e o : Chars)
    → HasPlainScheme e
    → entry_admits regexp e o ≡ true
    → separators o ≡ separators (entry_text e)
unfolding entry_admits entry_text HasPlainScheme
entry_admits-separators regexp e o plain h =
    let admitted = guard_inv (is_empty e) _ h in
    let chosen : Bool → Bool =
      λ b. if b then pattern_matches regexp (first_two scheme_end e) o else equal e o in
    elim (Bool-cases (has_star e)) [
      | inl wild ↦ rw wild (
          pattern_matches-separators regexp (first_two scheme_end e) o (plain wild)
            (subst (λ b. chosen b ≡ true) wild admitted))
      | inr no_star ↦
          rw no_star
            (ap separators (sym (equal_eq e o (subst (λ b. chosen b ≡ true) no_star admitted))))
    ]

-- Where each entry with a `*` has a scheme of letters, digits and hyphens: an origin that is
-- admitted has, in order, exactly the dots, colons and slashes of one of the entries, so that a `*`
-- never reaches over one of them.
pub origin_matcher-separators :
    (regexp : RegExp) (lower : Chars → Chars) (entries : List Chars) (origin : Chars)
    → All (λ raw. HasPlainScheme (normalize_origin lower raw)) entries
    → origin_matcher regexp lower entries origin ≡ true
    → OneOf
        (λ raw.
          separators (normalize_origin lower origin)
          ≡ separators (entry_text (normalize_origin lower raw)))
        entries
unfolding origin_matcher
origin_matcher-separators regexp lower entries origin plain h =
    any→OneOf _ _ _ entries
      (λ raw.
        entry_admits-separators regexp (normalize_origin lower raw) (normalize_origin lower origin))
      plain h
