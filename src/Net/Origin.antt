-- ===== src/Net/Origin.antt =====
-- net/origin.ts: the list of allowed origins. What `toLowerCase` does is a parameter. The scheme of a
-- pattern goes into the regular expression as it is; where it is more than letters, digits and
-- hyphens, what `RegExp` makes of it is the parameter `regexp`.
use the_room_backend.Base.{
  ℕ, Bool, true, false, ◌&&◌, ◌||◌, Option, none, some, List, [], ◌∷◌, ◌++◌, map, eqb,
  if◌then◌else◌, any,
}
use the_room_backend.Messaging.Validate.{trim, between}
use the_room_backend.Net.Text.{Chars, slash, colon, star, equal, first_two, strip_slashes, is_empty}

unfoldable pub normalize_origin : (lower : Chars → Chars) → Chars → Chars
normalize_origin lower value = strip_slashes (lower (trim value))

-- One character of the class `[a-z0-9-]`.
unfoldable pub is_label : ℕ → Bool
is_label c = between 97 122 c || (between 48 57 c || eqb c 45)

-- The items of the regular expression: a character that stands for itself, or `[a-z0-9-]+`.
pub data Item : Type 0 where
  literal : ℕ → Item
  label : Item

abbrev pub item_of : ℕ → Item
item_of c = if eqb c star then label else literal c

-- A scheme that a regular expression reads as itself.
unfoldable pub is_plain : Chars → Bool
is_plain [] = true
is_plain (c ∷ s) = is_label c && is_plain s

-- The expression for an entry with a plain scheme: a `*` of the host is a label, all else is literal.
unfoldable pub pattern_of : (scheme host : Chars) → List Item
pattern_of scheme host = map literal (scheme ++ colon ∷ slash ∷ slash ∷ []) ++ map item_of host

-- One character of the class or more, then the rest.
unfoldable pub some_labels : (Chars → Bool) → Chars → Bool
some_labels after [] = false
some_labels after (c ∷ s) = let rest = some_labels after s in is_label c && (after s || rest)

-- `new RegExp("^…$").test(s)`
unfoldable pub matches : List Item → Chars → Bool
unfolding some_labels
matches [] [] = true
matches [] (c ∷ s) = false
matches (literal p ∷ ps) [] = false
matches (literal p ∷ ps) (c ∷ s) = eqb p c && matches ps s
matches (label ∷ ps) s = some_labels (matches ps) s

-- Whether the expression for a scheme that is not plain, and for a host, matches a text.
abbrev pub RegExp : Type 0
RegExp = (scheme host : Chars) → Chars → Bool

-- An entry with a `*`: the text after "://" is its host; without one the entry is passed over.
unfoldable pub pattern_matches : RegExp → Chars × Option Chars → Chars → Bool
unfolding matches pattern_of is_plain
pattern_matches regexp (scheme, none) o = false
pattern_matches regexp (scheme, some host) o =
    if is_empty host
    then false
    else if is_plain scheme
    then matches (pattern_of scheme host) o
    else regexp scheme host o

-- Whether an entry, normalised, admits a normalised origin.
unfoldable pub entry_admits : RegExp → (e o : Chars) → Bool
unfolding pattern_matches
entry_admits regexp e o =
    if is_empty e
    then false
    else if any (λ c. eqb c star) e
    then pattern_matches regexp (first_two (colon ∷ slash ∷ slash ∷ []) e) o
    else equal e o

unfoldable pub origin_matcher :
    RegExp → (lower : Chars → Chars) → (entries : List Chars) → Chars → Bool
unfolding entry_admits
origin_matcher regexp lower entries origin =
    any (λ raw. entry_admits regexp (normalize_origin lower raw) (normalize_origin lower origin))
      entries

-- `isOriginAllowed` of the server: an empty list admits every origin.
unfoldable pub is_origin_allowed :
    RegExp → (lower : Chars → Chars) → (entries : List Chars) → Chars → Bool
is_origin_allowed regexp lower [] origin = true
is_origin_allowed regexp lower (e ∷ es) origin = origin_matcher regexp lower (e ∷ es) origin
